-- ===== src/Updater/Journal/Ends.antt =====
-- How scripts/tg_update.py may leave an installation.
use transparent_gateway.Prelude.{
  ◌≡◌, true, false, Option, none, some, List, Text, str, ◌⊎◌, inl, inr, All,
}
use transparent_gateway.Python.{ok, Value, obj, Fields}
use transparent_gateway.Host.{
  Machine, World, Failure, update_failure, fault, user_error, Report, refused, busy, unswitched,
  previous_restored, recovery_failed,
}
use transparent_gateway.Host.Ensures.{Cond, Raised}
use transparent_gateway.Host.Ensures.Kept.{IsKeptBy}
use transparent_gateway.Host.Ensures.Plain.{IsPlain}
use transparent_gateway.Host.Ensures.Saved.{Gives}
use transparent_gateway.Tool.Settings.{Parsers}
use transparent_gateway.Updater.Candidate.{candidate}
use transparent_gateway.Updater.Quiet.{switches}
use transparent_gateway.Updater.Journal.{RolledBack, Completed, IsCut}
use transparent_gateway.Updater.Switch.{
  Args, Plan, make_plan, runtime_names, journal_of, with_phase, is_interrupted,
}

-- Nothing was switched: both files are as before, and no event of the trace switches.
abbrev pub Untouched : World → Cond
Untouched w0 w =
    (w.transaction ≡ w0.transaction)
    × (w.images ≡ w0.images)
    × All (λ e. switches e ≡ false) w.trace

-- A run of the updater: its machine, the world it starts in, and its arguments.
pub record Run : Type 0 where
  pub machine : Machine
  pub start : World
  pub root : Text
  pub words : Text → List Text
  pub parsers : Parsers
  pub args : Args

-- The plan is the one that `make_plan` gives in a world in which nothing was switched.
abbrev pub IsPlanned : Run → Plan → Type 0
IsPlanned R p =
    Gives (Untouched R.start) (make_plan R.machine R.root R.words R.parsers R.args) (some p)

-- The pins are the ones that `candidate` gives for the plan, before anything is switched.
abbrev pub IsPrepared : Run → Plan → Value → Type 0
IsPrepared R p pins =
    (stage : Text) × Gives (Untouched R.start)
      (candidate R.machine R.root stage p.project p.target p.images
        (runtime_names R.machine R.root R.words))
      pins

-- The journal is the one that the run found, or the one of its plan.
abbrev pub IsOwn : Run → Fields → Type 0
IsOwn R journal =
    (R.start.transaction ≡ some (obj journal))
    ⊎ ((p : Plan) × IsPlanned R p × (journal ≡ journal_of p))

-- How a run that fails or is killed leaves the files.
pub data Left (R : Run) (w : World) : Type 0 where
  untouched : Untouched R.start w → Left R w
  -- A journal that `--recover` accepts.
  resumable :
      (journal : Fields)
      → IsOwn R journal
      → w.transaction ≡ some (obj journal)
      → is_interrupted (obj journal) ≡ ok true
      → Left R w
  restored : (journal : Fields) → IsOwn R journal → RolledBack journal w → Left R w
  finished :
      (p : Plan) (pins : Value)
      → IsPlanned R p × IsPrepared R p pins
      → Completed p pins w
      → Left R w
  -- The journal says that the update is complete although a restoration was begun behind it: the
  -- saving of this journal was cut short in this run.
  misreported :
      (p : Plan)
      → IsPlanned R p
      → w.transaction ≡ some (with_phase (str "complete") (journal_of p))
      → IsCut R.machine (with_phase (str "complete") (journal_of p)) w.trace
      → Left R w

-- How a run that returns leaves the files.
pub data Settled (R : Run) (w : World) : Type 0 where
  unchanged : Untouched R.start w → Settled R w
  recovered :
      (journal : Fields)
      → R.start.transaction ≡ some (obj journal)
      → RolledBack journal w
      → Settled R w
  updated :
      (p : Plan) (pins : Value)
      → IsPlanned R p × IsPrepared R p pins
      → Completed p pins w
      → Settled R w

-- The report of a restoration is true; every other end leaves one of the states above.
abbrev pub Reported : Run → Report → Cond
Reported R previous_restored w = (journal : Fields) × IsOwn R journal × RolledBack journal w
Reported R refused w = Left R w
Reported R busy w = Left R w
Reported R unswitched w = Left R w
Reported R recovery_failed w = Left R w

abbrev pub Ends : Run → Raised
Ends R none w = Left R w
Ends R (some update_failure) w = Left R w
Ends R (some (fault _)) w = Left R w
Ends R (some (user_error report)) w = Reported R report w

pub plain_Ends : (R : Run) (o : Option Failure) (w : World) → Left R w → IsPlain o → Ends R o w
plain_Ends R none w left plain = left
plain_Ends R (some update_failure) w left plain = left
plain_Ends R (some (fault _)) w left plain = left
plain_Ends R (some (user_error report)) w left plain = absurd plain

reported-Left : (R : Run) (report : Report) (w : World) → Reported R report w → Left R w
reported-Left R previous_restored w (journal, ours, h) = restored journal ours h
reported-Left R refused w h = h
reported-Left R busy w h = h
reported-Left R unswitched w h = h
reported-Left R recovery_failed w h = h

pub ends-Left : (R : Run) (o : Option Failure) (w : World) → Ends R o w → Left R w
ends-Left R none w h = h
ends-Left R (some update_failure) w h = h
ends-Left R (some (fault _)) w h = h
ends-Left R (some (user_error report)) w h = reported-Left R report w h

pub Settled-Left : (R : Run) (w : World) → Settled R w → Left R w
Settled-Left R w (unchanged h) = untouched h
Settled-Left R w (recovered journal found h) = restored journal (inl found) h
Settled-Left R w (updated p pins prepared h) = finished p pins prepared h

pub Untouched-kept : (w0 : World) → IsKeptBy (Untouched w0) switches
Untouched-kept w0 e w other (transaction, images, quiet) = (transaction, images, (other, quiet))

module _ (R : Run) where
  Left-kept : IsKeptBy (Left R) switches
  Left-kept e w other (untouched h) = untouched (Untouched-kept R.start e w other h)
  Left-kept e w other (resumable journal ours h interrupted) = resumable journal ours h interrupted
  Left-kept e w other (restored journal ours h) = restored journal ours h
  Left-kept e w other (finished p pins prepared h) = finished p pins prepared h
  Left-kept e w other (misreported p planned h cut) = misreported p planned h (inr cut)

  pub Settled-kept : IsKeptBy (Settled R) switches
  Settled-kept e w other (unchanged h) = unchanged (Untouched-kept R.start e w other h)
  Settled-kept e w other (recovered journal found h) = recovered journal found h
  Settled-kept e w other (updated p pins prepared h) = updated p pins prepared h

  Reported-kept : (report : Report) → IsKeptBy (Reported R report) switches
  Reported-kept previous_restored e w other h = h
  Reported-kept refused e w other h = Left-kept e w other h
  Reported-kept busy e w other h = Left-kept e w other h
  Reported-kept unswitched e w other h = Left-kept e w other h
  Reported-kept recovery_failed e w other h = Left-kept e w other h

  pub Ends-kept : (failure : Failure) → IsKeptBy (Ends R (some failure)) switches
  Ends-kept update_failure e w other h = Left-kept e w other h
  Ends-kept (fault _) e w other h = Left-kept e w other h
  Ends-kept (user_error report) e w other h = Reported-kept report e w other h
