-- ===== src/Updater/Journal/Run.antt =====
-- A whole run of `update` of scripts/tg_update.py, with the removal of its worktree.
use transparent_gateway.Prelude.{
  ◌≡◌, refl, Bool, true, false, Option, none, some, [], Text, str, sym, subst, text_beq, All,
}
use transparent_gateway.Host.{World, user_error, Report, refused, busy, fail_if, change}
use transparent_gateway.Host.Ensures.{
  Cond, Meets, Ensures, Ensures-bind, Ensures-weaken, Ensures-pure,
}
use transparent_gateway.Host.Ensures.Kept.{IsKeptBy}
use transparent_gateway.Host.Ensures.Plain.{
  IsPlain, Ensures-execute-IsPlain, Ensures-change-IsPlain, Ensures-catch-IsPlain,
}
use transparent_gateway.Host.Ensures.Saved.{Ensures-known, Ensures-finally}
use transparent_gateway.Updater.Commands.{git}
use transparent_gateway.Updater.Quiet.{switches, switches_command, is_checkout}
use transparent_gateway.Updater.Quiet.Plan.{Keeps-make_stage}
use transparent_gateway.Updater.Journal.Ends.{
  Untouched, Run, IsPlanned, untouched, Settled, Reported, Ends, plain_Ends, ends-Left,
  Settled-Left, Settled-kept, Ends-kept, Untouched-kept,
}
use transparent_gateway.Updater.Journal.Recovery.{
  Begun, weak, handled-Ensures, begin-Ensures, prepare-Ensures,
}
use transparent_gateway.Updater.Journal.Switched.{switched-Ensures}
use transparent_gateway.Updater.Switch.{
  Plan, is_cleanup_failure, remove_stage, staged, locked, go_on, update,
}

module _ (R : Run) where
  remove-IsPlain :
      {P : Cond}
      → IsKeptBy P switches
      → (stage : Text)
      → Ensures P
          (remove_stage R.machine R.root R.words R.parsers R.args stage)
          (λ _. P)
          (λ o w. P w × IsPlain o)
  unfolding remove_stage git switches switches_command is_checkout str text_beq
  remove-IsPlain kept stage =
      Ensures-catch-IsPlain is_cleanup_failure _ _
        (Ensures-bind
          (Ensures-bind (Ensures-execute-IsPlain kept R.machine false _ R.root refl)
            (λ output. Ensures-pure _ (λ w p. p)))
          (λ _. Ensures-pure tt (λ w p. p)))
        (λ e. Ensures-pure tt (λ w p. p))

  staged-Ensures :
      (stage : Text) (p : Plan)
      → IsPlanned R p
      → Ensures
          (Untouched R.start)
          (staged R.machine R.root R.words R.parsers R.args stage p)
          (λ _. Settled R)
          (Ends R)
  unfolding staged
  staged-Ensures stage p planned =
      Ensures-finally _ _
        (Ensures-bind (handled-Ensures R _ (prepare-Ensures R stage p planned))
          (λ pins. Ensures-known λ prepared. switched-Ensures R p pins planned prepared))
        (λ _.
          Ensures-weaken (remove-IsPlain (Settled-kept R) stage) (λ _ w h. h)
            (λ o w h. plain_Ends R o w (Settled-Left R w h.0) h.1))
        (λ e.
          Ensures-weaken (remove-IsPlain (Ends-kept R e) stage) (λ _ w h. h)
            (λ o w h. plain_Ends R o w (ends-Left R (some e) w h.0) h.1))

  go_on-Ensures :
      (found : Option Plan)
      → Ensures
          (Begun R found)
          (go_on R.machine R.root R.words R.parsers R.args found)
          (λ _. Settled R)
          (Ends R)
  unfolding go_on
  go_on-Ensures none = Ensures-pure tt (λ w h. h)
  go_on-Ensures (some p) = Ensures-known λ planned.
      Ensures-bind
        (handled-Ensures R _ (
          Ensures-weaken
            (Keeps-make_stage (Untouched-kept R.start) R.machine R.root R.words R.parsers R.args)
            (λ _ w h. h) (weak R)))
        (λ stage. staged-Ensures stage p planned)

  locked-Ensures :
      Ensures
        (Untouched R.start)
        (locked R.machine R.root R.words R.parsers R.args)
        (λ _. Settled R)
        (Ends R)
  unfolding locked
  locked-Ensures = Ensures-bind (handled-Ensures R _ (begin-Ensures R)) go_on-Ensures

  change_Ends :
      (what path : Text)
      → Ensures (Untouched R.start) (change R.machine what path) (λ _. Untouched R.start) (Ends R)
  unfolding switches
  change_Ends what path =
      Ensures-weaken (Ensures-change-IsPlain (Untouched-kept R.start) R.machine what path refl)
        (λ _ w h. h) (λ o w h. plain_Ends R o w (untouched h.0) h.1)

  guard_Ends :
      (b : Bool) (report : Report)
      → ((w : World) → Untouched R.start w → Reported R report w)
      → Ensures
          (Untouched R.start)
          (fail_if b (user_error report))
          (λ _. Untouched R.start)
          (Ends R)
  unfolding fail_if
  guard_Ends true report refusal = record { run = refusal }
  guard_Ends false report refusal = record { run = λ w h. h }

  run_update :
      (is_free : Bool)
      → Ensures
          (Untouched R.start)
          (update R.machine R.root R.words R.parsers R.args is_free)
          (λ _. Settled R)
          (Ends R)
  unfolding update
  run_update is_free = Ensures-bind (guard_Ends _ refused (λ w h. untouched h)) λ _.
      Ensures-bind (change_Ends _ _) λ _. Ensures-bind (change_Ends _ _) λ _.
        Ensures-bind (change_Ends _ _)
          λ _. Ensures-bind (guard_Ends _ busy (λ w h. untouched h)) λ _. locked-Ensures

pub fresh : (w0 : World) → w0.trace ≡ [] → Untouched w0 w0
fresh w0 empty = (refl, refl, subst (All (λ e. switches e ≡ false)) (sym empty) tt)

-- A run of `update` in a fresh process, whatever its commands answer and wherever it is killed. If
-- it returns, nothing was switched, or the journal that was found was rolled back, or the journal
-- and the images both say that the update is complete: the journal is that of a plan that
-- `make_plan` gives with nothing switched, and the images are pins that `candidate` gives for the
-- plan. If it says that the previous version was restored, the journal, found or of such a plan,
-- says so too and the images are the ones that it kept. Any other end leaves nothing switched, or
-- such a journal that `--recover` accepts, or a finished restoration or update, or the journal of a
-- complete update whose saving is in the trace of this run, replaced the file and did not return.
-- Nothing is switched if both files are as before and no command of the trace checks a revision
-- out, stops, starts or restarts the service, or stops, starts, restarts, replaces, kills or
-- removes containers by Compose.
pub update-Ends :
    (R : Run) (is_free : Bool)
    → R.start.trace ≡ []
    → Meets
        (λ _. Settled R)
        (Ends R)
        (update R.machine R.root R.words R.parsers R.args is_free R.start)
update-Ends R is_free empty = (run_update R is_free).run R.start (fresh R.start empty)
