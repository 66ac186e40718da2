-- ===== src/Updater/Journal/Refusal.antt =====
-- `update` of scripts/tg_update.py without `--recover`, on the journal of an interrupted update.
use transparent_gateway.Prelude.{
  ◌≡◌, refl, Bool, true, false, not, Option, none, some, List, [], Text, sym, subst, Option,
}
use transparent_gateway.Python.{obj, Fields, ok, expect_dict}
use transparent_gateway.Host.{
  Machine, World, Failure, update_failure, Task, fail, fail_if, look, lift, ◌>>=◌, change,
}
use transparent_gateway.Host.Ensures.{Cond, Raised, Meets, Ensures, Keeps, Ensures-bind}
use transparent_gateway.Host.Ensures.Kept.{IsKeptBy, Ensures-keep, Keeps-fail_if, Keeps-change}
use transparent_gateway.Host.Ensures.Saved.{Ensures-catch_all}
use transparent_gateway.Tool.Settings.{Parsers}
use transparent_gateway.Updater.Quiet.{switches}
use transparent_gateway.Updater.Quiet.Plan.{Keeps-check_checkout}
use transparent_gateway.Updater.Journal.{Has}
use transparent_gateway.Updater.Journal.Ends.{Untouched, Untouched-kept}
use transparent_gateway.Updater.Journal.Run.{fresh}
use transparent_gateway.Updater.Switch.{
  Args, is_interrupted, interrupted_journal, any_failure, handled, pending, pending_of, begin,
  begin_with, locked, update,
}

module _ {A : Type 0} {Q : A → Cond} {E : Raised} where
  Ensures-absurd : (m : Task A) → Ensures (λ _. ⊥) m Q E
  Ensures-absurd m = record { run = λ w h. absurd h }

module _ (M : Machine) (w0 : World) (old : Fields) where
  -- Nothing is touched, and the interrupted journal is there.
  abbrev Waiting : Cond
  Waiting w = Untouched w0 w × Has (some (obj old)) w

  waiting : IsKeptBy Waiting switches
  waiting e w other h = (Untouched-kept w0 e w other h.0, h.1)

  weak : (o : Option Failure) (w : World) → Waiting w → Untouched w0 w
  weak o w h = h.0

  module _ (root : Text) (words : Text → List Text) (parsers : Parsers) (args : Args)
      (no_recovery : args.recover ≡ false) (interrupted : is_interrupted (obj old) ≡ ok true) where
    finds_old : interrupted_journal (obj old) ≡ ok (some old)
    unfolding interrupted_journal expect_dict
    finds_old = rw interrupted

    pending_waits :
        Ensures Waiting
          (pending M root words)
          (λ found w. Waiting w × (found ≡ some old))
          (λ _. Untouched w0)
    unfolding pending pending_of look lift ◌>>=◌
    pending_waits = record {
      run = λ w h.
          subst
            (λ t.
              Meets (λ found w. Waiting w × (found ≡ some old)) (λ _. Untouched w0)
                (pending_of M root words t w))
            (sym h.1) (rw finds_old (h, refl));
    }

    refuses :
        (w : World)
        → Untouched w0 w
        → Meets {A = Unit {0}}
            (λ _ _. ⊥)
            (λ _. Untouched w0)
            (fail_if (not args.recover) update_failure w)
    unfolding fail_if
    refuses w h = rw no_recovery h

    begin_with_refuses :
        (found : Option Fields)
        → Ensures
            (λ w. Waiting w × (found ≡ some old))
            (begin_with M root words parsers args found)
            (λ _ _. ⊥)
            (λ _. Untouched w0)
    unfolding begin_with
    begin_with_refuses none = record { run = λ w h. cc }
    begin_with_refuses (some found) =
        Ensures-bind {R = λ _ _. ⊥} (record { run = λ w h. refuses w h.0.0 })
          (λ _. Ensures-absurd _)

    begin_refuses : Ensures Waiting (begin M root words parsers args) (λ _ _. ⊥) (λ _. Untouched w0)
    unfolding begin
    begin_refuses =
        Ensures-keep weak (Keeps-check_checkout waiting M root words)
          λ _. Ensures-bind pending_waits begin_with_refuses

    handled_refuses :
        Ensures Waiting (handled (begin M root words parsers args)) (λ _ _. ⊥) (λ _. Untouched w0)
    unfolding handled any_failure fail
    handled_refuses =
        Ensures-catch_all any_failure _ _ (λ e. refl) begin_refuses (λ w h. h)
          (λ e. record { run = λ w h. h })

    waiting-change : (what path : Text) → Keeps Waiting (change M what path)
    unfolding switches
    waiting-change what path = Keeps-change waiting M what path refl

    update_refuses :
        (is_free : Bool)
        → Ensures Waiting (update M root words parsers args is_free) (λ _ _. ⊥) (λ _. Untouched w0)
    unfolding update locked
    update_refuses is_free = Ensures-keep weak (Keeps-fail_if _ _) λ _.
        Ensures-keep weak (waiting-change _ _) λ _. Ensures-keep weak (waiting-change _ _) λ _.
          Ensures-keep weak (waiting-change _ _) λ _.
            Ensures-keep weak (Keeps-fail_if _ _)
              λ _. Ensures-bind handled_refuses (λ found. Ensures-absurd _)

-- An update of a fresh process that finds the journal of an interrupted update, without `--recover`,
-- never returns normally: it raises or is killed, neither of the two files changes, and no command
-- of its trace checks a revision out, stops, starts or restarts the service, or stops, starts,
-- restarts, replaces, kills or removes containers by Compose.
pub update_refused :
    (M : Machine) (root : Text) (words : Text → List Text) (parsers : Parsers) (args : Args)
    (is_free : Bool) (w0 : World) (old : Fields)
    → w0.trace ≡ []
    → args.recover ≡ false
    → w0.transaction ≡ some (obj old)
    → is_interrupted (obj old) ≡ ok true
    → Meets (λ _ _. ⊥) (λ _. Untouched w0) (update M root words parsers args is_free w0)
update_refused M root words parsers args is_free w0 old empty no_recovery found interrupted =
    (update_refuses M w0 old root words parsers args no_recovery interrupted is_free).run w0
      (fresh w0 empty, found)
