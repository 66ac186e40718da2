-- ===== src/Updater/Journal/Recovery.antt =====
-- How scripts/tg_update.py leaves an installation, whatever fails and wherever it is killed.
use transparent_gateway.Prelude.{
  ◌≡◌, refl, true, Option, none, some, Text, str, ◌⊎◌, inl, inr, ap, arith, ◌∙◌, subst, sym,
  text_beq,
}
use transparent_gateway.Python.{ok, Value, obj, Fields, subscript, lookup, expect_dict}
use transparent_gateway.Host.{
  Machine, World, Failure, Outcome, done, failed, dead, Task, look, saved, transaction_json, fail,
  ◌>>=◌, change,
}
use transparent_gateway.Host.Ensures.{
  Cond, Meets, Ensures, Keeps, Ensures-bind, Ensures-weaken, Ensures-pure,
}
use transparent_gateway.Host.Ensures.Kept.{IsKeptBy, Keeps-fail_if, Keeps-change, Ensures-keep}
use transparent_gateway.Host.Ensures.Saved.{
  Gives, Ensures-lift, Ensures-known, Ensures-Gives, Ensures-save, Ensures-catch_all,
}
use transparent_gateway.Tool.Settings.{is_member}
use transparent_gateway.Updater.Quiet.{switches, Keeps-clean_checkout, Keeps-runtime_fingerprint}
use transparent_gateway.Updater.Quiet.Plan.{
  Keeps-candidate, Keeps-check_checkout, Keeps-check_layout, Keeps-make_plan,
}
use transparent_gateway.Updater.Journal.{Has, RolledBack, Grows, restore-Ensures}
use transparent_gateway.Updater.Switch.{
  Plan, make_plan, journal_of, is_interrupted, any_failure, handled, begin, pending, pending_of,
  interrupted_journal, begin_with, prepare, restore,
}
use transparent_gateway.Updater.Journal.Ends.{
  Untouched, Run, IsPlanned, IsPrepared, IsOwn, Left, untouched, resumable, restored, Settled,
  unchanged, recovered, Ends, Untouched-kept,
}

pub open_journal : (p : Plan) → is_interrupted (obj (journal_of p)) ≡ ok true
unfolding is_interrupted journal_of str subscript lookup is_member text_beq
open_journal p = refl

Keeps-stage_change :
    {P : Cond}
    → IsKeptBy P switches
    → (M : Machine) (what path : Text) → Keeps P (change M what path)
unfolding switches
Keeps-stage_change kept M what path = Keeps-change kept M what path refl

-- An interrupted journal is a dict.
interrupted_journal-eq-some :
    (old : Value) (journal : Fields)
    → interrupted_journal old ≡ ok (some journal)
    → (old ≡ obj journal) × (is_interrupted old ≡ ok true)
unfolding interrupted_journal expect_dict
interrupted_journal-eq-some (obj d) journal h = ground arith
interrupted_journal-eq-some _ journal h = ground arith

module _ (R : Run) where
  -- `handled` reports every failure as one before the switch.
  pub handled-Ensures :
      {A : Type 0} {P : Cond} {Q : A → Cond} (m : Task A)
      → Ensures P m Q (λ _. Left R)
      → Ensures P (handled m) Q (Ends R)
  unfolding handled any_failure fail
  handled-Ensures m h =
      Ensures-catch_all any_failure m _ (λ e. refl) h (λ w left. left)
        (λ e. record { run = λ w left. left })

  pub weak : (o : Option Failure) (w : World) → Untouched R.start w → Left R w
  weak o w h = untouched h

  quiet : IsKeptBy (Untouched R.start) switches
  quiet = Untouched-kept R.start

  abbrev pub Found : Option Fields → Cond
  Found none w = Untouched R.start w
  Found (some old) w =
      Untouched R.start w × (w.transaction ≡ some (obj old)) × (is_interrupted (obj old) ≡ ok true)

  -- What `begin` gives: a plan with nothing touched, or the end of a run.
  abbrev pub Begun : Option Plan → Cond
  Begun none w = Settled R w
  Begun (some p) w = Untouched R.start w × IsPlanned R p

  found_journal :
      (old : Value) (found : Option Fields) (w : World)
      → (Untouched R.start w × Has (some old) w) × (interrupted_journal old ≡ ok found)
      → Found found w
  found_journal old none w h = h.0.0
  found_journal old (some journal) w h =
      let (same, interrupted) = interrupted_journal-eq-some old journal h.1 in
      (h.0.0, h.0.1 ∙ ap some same, subst (λ v. is_interrupted v ≡ ok true) same interrupted)

  pending_of-Ensures :
      (t : Option Value)
      → Ensures
          (λ w. Untouched R.start w × Has t w)
          (pending_of R.machine R.root R.words t)
          Found
          (λ _. Left R)
  unfolding pending_of
  pending_of-Ensures none = Ensures-pure none (λ w h. h.0)
  pending_of-Ensures (some old) =
      Ensures-weaken (Ensures-lift _) (found_journal old) (λ o w h. untouched h.0)

  pending-Ensures :
      Ensures (Untouched R.start) (pending R.machine R.root R.words) Found (λ _. Left R)
  unfolding pending look ◌>>=◌
  pending-Ensures = record { run = λ w h. (pending_of-Ensures w.transaction).run w (h, refl) }

  any_trace : Grows (λ _. Unit {0})
  any_trace e es h = h

  restoring_Left :
      (journal : Fields) (w : World)
      → IsOwn R journal
      → is_interrupted (obj journal) ≡ ok true
      → Has (some (obj journal)) w ⊎ RolledBack journal w
      → Left R w
  restoring_Left journal w own interrupted (inl held) = resumable journal own held interrupted
  restoring_Left journal w own interrupted (inr rolled) = restored journal own rolled

  -- A restoration whose journal is in the file.
  pub restore_held :
      (journal : Fields) (w : World)
      → IsOwn R journal
      → is_interrupted (obj journal) ≡ ok true
      → Has (some (obj journal)) w
      → Meets
          (λ _. RolledBack journal)
          (λ _. Left R)
          (restore R.machine R.root R.words R.args.timeout journal w)
  restore_held journal w own interrupted held =
      (Ensures-weaken {Q = λ _. RolledBack journal} {E = λ _. Left R}
          (restore-Ensures R.machine R.root R.words (some (obj journal)) (λ _. Unit {0}) any_trace
            R.args.timeout journal)
          (λ _ w' rolled. rolled)
          (λ o w' ended. restoring_Left journal w' own interrupted ended.0)).run
        w (held, tt)

  Meets-recovered :
      (old : Fields) (r : Outcome (Unit {0}) × World)
      → R.start.transaction ≡ some (obj old)
      → Meets (λ _. RolledBack old) (λ _. Left R) r
      → Meets (λ _. Settled R) (λ _. Left R) r
  Meets-recovered old (done a, w) found h = recovered old found h
  Meets-recovered old (failed e, w) found h = h
  Meets-recovered old (dead, w) found h = h

  -- A restoration from a journal that is found.
  restore-found :
      (old : Fields)
      → Ensures
          (Found (some old))
          (restore R.machine R.root R.words R.args.timeout old)
          (λ _. Settled R)
          (λ _. Left R)
  restore-found old = record {
    run = λ w h.
        let found = sym h.0.0 ∙ h.1 in
        Meets-recovered old _ found (restore_held old w (inl found) h.2 h.1);
  }

  weak_found : (old : Fields) (o : Option Failure) (w : World) → Found (some old) w → Left R w
  weak_found old o w h = untouched h.0

  begun_plan :
      (o : Option Plan) (w : World)
      → Untouched R.start w
        × Gives (Untouched R.start) (make_plan R.machine R.root R.words R.parsers R.args) o
      → Begun o w
  begun_plan none w h = unchanged h.0
  begun_plan (some p) w h = h

  begin_found :
      (found : Option Fields)
      → Ensures
          (Found found)
          (begin_with R.machine R.root R.words R.parsers R.args found)
          Begun
          (λ _. Left R)
  unfolding begin_with
  begin_found none = Ensures-keep weak (Keeps-fail_if _ _) λ _.
      Ensures-weaken
        (Ensures-Gives (Keeps-make_plan quiet R.machine R.root R.words R.parsers R.args)) begun_plan
        weak
  begin_found (some old) =
      Ensures-keep (weak_found old) (Keeps-fail_if _ _)
        λ _. Ensures-bind (restore-found old) λ _. Ensures-pure _ (λ w settled. settled)

  pub begin-Ensures :
      Ensures
        (Untouched R.start)
        (begin R.machine R.root R.words R.parsers R.args)
        Begun
        (λ _. Left R)
  unfolding begin
  begin-Ensures =
      Ensures-keep weak (Keeps-check_checkout quiet R.machine R.root R.words)
        λ _. Ensures-bind pending-Ensures begin_found

  -- The guards of `prepare` behind the pins, and the saving of the journal.
  pub prepare-Ensures :
      (stage : Text) (p : Plan)
      → IsPlanned R p
      → Ensures
          (Untouched R.start)
          (prepare R.machine R.root R.words R.parsers R.args stage p)
          (λ pins w. Has (some (obj (journal_of p))) w × IsPrepared R p pins)
          (λ _. Left R)
  unfolding prepare switches
  prepare-Ensures stage p planned =
      Ensures-keep weak (Keeps-stage_change quiet R.machine (str "rmdir") stage) λ _.
        Ensures-bind
          (Ensures-weaken
            (Ensures-Gives
              (Keeps-candidate quiet R.machine R.root stage p.project p.target p.images _))
            (λ a w h. h) weak)
          λ pins. Ensures-known λ prepared.
            Ensures-keep weak (Keeps-clean_checkout quiet R.machine R.root) λ _.
              Ensures-keep weak (Keeps-runtime_fingerprint quiet R.machine R.root _) λ fingerprint.
                Ensures-keep weak (Keeps-fail_if _ _) λ _.
                  Ensures-keep weak
                    (Keeps-check_layout quiet R.machine R.root R.words R.parsers R.args stage p)
                    λ _.
                      Ensures-bind
                        (Ensures-save R.machine transaction_json (obj (journal_of p)) (λ w h. refl)
                          (λ w h o. untouched (
                            Untouched-kept R.start (saved transaction_json (obj (journal_of p))) w
                              refl h))
                          (λ w h cut broken o.
                            resumable (journal_of p) (inr (p, planned, refl)) refl
                              (open_journal p)))
                        λ _. Ensures-pure pins (λ w h. (h, (stage, prepared)))
