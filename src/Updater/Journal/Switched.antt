-- ===== src/Updater/Journal/Switched.antt =====
-- The switch of scripts/tg_update.py and, where it fails, the restoration.
use transparent_gateway.Prelude.{refl, some, str, ◌⊎◌, inl, inr}
use transparent_gateway.Python.{Value, obj}
use transparent_gateway.Host.{World, Failure, user_error, previous_restored, recovery_failed, catch}
use transparent_gateway.Host.Ensures.{
  Cond, Meets, Ensures, Ensures-bind, Ensures-weaken, Ensures-fail,
}
use transparent_gateway.Host.Ensures.Saved.{Ensures-catch_all}
use transparent_gateway.Updater.Journal.{
  Has, RolledBack, Completed, IsCut, restore-Ensures, switch-Ensures,
}
use transparent_gateway.Updater.Switch.{
  Plan, journal_of, with_phase, any_failure, restore, switch, recover_switch,
}
use transparent_gateway.Updater.Journal.Ends.{
  Run, IsPlanned, IsPrepared, Left, resumable, restored, finished, misreported, Settled, updated,
  Ends,
}
use transparent_gateway.Updater.Journal.Recovery.{open_journal, restore_held}

module _ (R : Run) where
  module _ (p : Plan) (pins : Value) (planned : IsPlanned R p)
      (prepared : IsPrepared R p pins) where
    -- The switch has failed: the journal is open, or it says that the update is complete.
    abbrev Switched : Cond
    Switched w =
        Has (some (obj (journal_of p))) w
        ⊎ (Completed p pins w
            × IsCut R.machine (with_phase (str "complete") (journal_of p)) w.trace)

    switching_Left : (w : World) → Switched w → Left R w
    switching_Left w (inl held) =
        resumable (journal_of p) (inr (p, planned, refl)) held (open_journal p)
    switching_Left w (inr (completed, cut)) = finished p pins (planned, prepared) completed

    completed_Left :
        (w : World)
        → (Has (some (with_phase (str "complete") (journal_of p))) w ⊎ RolledBack (journal_of p) w)
          × IsCut R.machine (with_phase (str "complete") (journal_of p)) w.trace
        → Left R w
    completed_Left w (inl held, cut) = misreported p planned held cut
    completed_Left w (inr rolled, cut) = restored (journal_of p) (inr (p, planned, refl)) rolled

    restored_from :
        (w : World)
        → Switched w
        → Meets
            (λ _. RolledBack (journal_of p))
            (λ _. Left R)
            (restore R.machine R.root R.words R.args.timeout (journal_of p) w)
    restored_from w (inl held) =
        restore_held R (journal_of p) w (inr (p, planned, refl)) (open_journal p) held
    restored_from w (inr (completed, cut)) =
        (Ensures-weaken {Q = λ _. RolledBack (journal_of p)} {E = λ _. Left R}
            (restore-Ensures R.machine R.root R.words
              (some (with_phase (str "complete") (journal_of p)))
              (IsCut R.machine (with_phase (str "complete") (journal_of p)))
              (λ e es earlier. inr earlier) R.args.timeout (journal_of p))
            (λ _ w' rolled. rolled) (λ o w' ended. completed_Left w' ended)).run
          w (completed.0, cut)

    restores_switched :
        Ensures Switched
          (restore R.machine R.root R.words R.args.timeout (journal_of p))
          (λ _. RolledBack (journal_of p))
          (λ _. Left R)
    restores_switched = record { run = restored_from }

    -- The update once its journal is written: the switch and, if it fails, the restoration.
    recover_switch-Ensures :
        (e : Failure)
        → Ensures Switched
            (recover_switch R.machine R.root R.words R.parsers R.args p e)
            (λ _. Settled R)
            (Ends R)
    unfolding recover_switch any_failure
    recover_switch-Ensures e =
        Ensures-bind
          (Ensures-catch_all {G = Left R} any_failure _ _ (λ e. refl) restores_switched
            (λ w left. left) (λ e. Ensures-fail (user_error recovery_failed) (λ w left. left)))
          (λ _.
            Ensures-fail (user_error previous_restored)
              (λ w rolled. (journal_of p, inr (p, planned, refl), rolled)))

    pub switched-Ensures :
        Ensures
          (Has (some (obj (journal_of p))))
          (catch any_failure
            (switch R.machine R.root R.words R.parsers R.args p pins)
            (recover_switch R.machine R.root R.words R.parsers R.args p))
          (λ _. Settled R)
          (Ends R)
    unfolding any_failure
    switched-Ensures =
        Ensures-catch_all {G = Switched} any_failure _ _ (λ e. refl)
          (record {
            run = λ w held.
                (Ensures-weaken {Q = λ _. Settled R} {E = λ _. Switched}
                    (switch-Ensures R.machine R.root R.words R.parsers R.args p pins)
                    (λ _ w' completed. updated p pins (planned, prepared) completed)
                    (λ o w' h. h)).run
                  w (held, tt);
          })
          switching_Left recover_switch-Ensures
