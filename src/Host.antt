-- ===== src/Host.antt =====
-- The host as scripts/tg_update.py and scripts/tgctl.py see it: the commands they run, the files they
-- read and write, and what may stop them at each of these.
pub mod Ensures
use transparent_gateway.Prelude.{
  ℕ, zero, suc, ◌≡◌, Bool, true, false, Option, none, some, List, [], ◌∷◌, Text, if◌then◌else◌,
}
use transparent_gateway.Prelude.Int.{ℤ}
use transparent_gateway.Python.{Exception, Result, ok, err, Float, Value, Runtime}

-- What a user of `tgctl` is told when the update raises `UserError`.
pub data Report : Type 0 where
  -- the timeout, the lock, a refused setting
  refused busy : Report
  -- `str(error)`, with no switch before
  unswitched : Report
  previous_restored recovery_failed : Report

-- What may come out of a call of the host.
pub data Fault : Type 0 where
  timeout_expired keyboard_interrupt : Fault
  exception : Exception → Fault

-- What a step may raise. A `UserError` of the command line tool is `refused`.
pub data Failure : Type 0 where
  update_failure : Failure
  fault : Fault → Failure
  user_error : Report → Failure

-- The files that `atomic_json` replaces.
pub data JsonFile : Type 0 where
  transaction_json images_json build_json : JsonFile

-- What the script does to the host, in order.
pub data Event : Type 0 where
  -- a command and the directory that it runs in
  ran : List Text → Text → Event
  saved : JsonFile → Value → Event
  -- another change of the file system: what is done and to which path
  changed : Text → Text → Event

-- How a step ends: a command returns its code and output; the step raises; or the process is killed.
pub data Reply : Type 0 where
  returned : (code : ℕ) (output : Text) → Reply
  raised : Fault → Reply
  killed : Reply

-- The host, as a function of what was done to it so far.
pub record Machine : Type 0 where
  -- how the last event ends
  pub reply : List Event → Reply
  -- whether a file that was being saved is replaced, if the saving does not return
  pub replaced : List Event → Bool
  pub exists : List Event → Text → Bool
  pub read_text : List Event → Text → Result Text
  -- `path.stat()` and `path.lstat()`: the user, the group and the mode
  pub stat : List Event → Text → Result (ℕ × ℕ × ℕ)
  pub lstat : List Event → Text → Result (ℕ × ℕ × ℕ)
  -- `os.environ.get(name)`; a missing name and an empty value count alike where it is used
  pub environ : Text → Text
  pub loads : Text → Option Value
  -- `hashlib.sha256(s.encode()).hexdigest()`
  pub sha256 : Text → Text
  -- `os.geteuid()`
  pub euid : ℕ
  pub executable : Text
  -- `time.time()`
  pub now : List Event → Float
  -- the name that `tempfile.mkdtemp` makes up
  pub made_up : List Event → Text
  pub runtime : Runtime
  -- `n == a` of an int and a float
  pub int_float_eq : ℤ → Float → Bool

-- The two files under runtime/update that decide what a restart runs, and what was done.
pub record World : Type 0 where
  pub transaction : Option Value
  pub images : Option Value
  -- the last event first
  pub trace : List Event

pub data Outcome (A : Type 0) : Type 0 where
  done : A → Outcome A
  failed : Failure → Outcome A
  -- killed: no handler and no `finally` runs
  dead : Outcome A

abbrev pub Task : Type 0 → Type 0
Task A = World → Outcome A × World

module _ {A B : Type 0} where
  abbrev pub proceed : Outcome A → (A → Task B) → Task B
  proceed (done a) f w = f a w
  proceed (failed e) f w = (failed e, w)
  proceed dead f w = (dead, w)

  infixl 5 ◌>>=◌ ◌>>◌
  unfoldable pub ◌>>=◌ : Task A → (A → Task B) → Task B
  (m >>= f) w = let (r, w') = m w in proceed r f w'

  abbrev pub ◌>>◌ : Task A → Task B → Task B
  m >> n = m >>= λ _. n

module _ {A : Type 0} where
  unfoldable pub pure : A → Task A
  pure a w = (done a, w)

  unfoldable pub fail : Failure → Task A
  fail e w = (failed e, w)

  abbrev pub of_result : Result A → Outcome A
  of_result (ok a) = done a
  of_result (err e) = failed (fault (exception e))

  unfoldable pub lift : Result A → Task A
  lift r w = (of_result r, w)

  -- A look at the host.
  unfoldable pub look : (World → A) → Task A
  look f w = (done (f w), w)

  unfoldable pub look_at : (World → Result A) → Task A
  look_at f w = (of_result (f w), w)

unfoldable pub fail_if : Bool → Failure → Task (Unit {0})
fail_if true e w = (failed e, w)
fail_if false e w = (done tt, w)

abbrev pub store : JsonFile → Value → World → World
store transaction_json v w = record w { transaction = some v }
store images_json v w = record w { images = some v }
store build_json v w = w

abbrev pub record_event : Event → World → World
record_event e w = record w { trace = e ∷ w.trace }

-- What a command's end means to `execute`.
abbrev pub command_outcome : Bool → Reply → Outcome Text
command_outcome visible (returned zero output) = done (if visible then [] else output)
command_outcome visible (returned (suc code) output) = failed update_failure
command_outcome visible (raised e) = failed (fault e)
command_outcome visible killed = dead

abbrev pub run_outcome : Reply → Outcome (ℕ × Text)
run_outcome (returned code output) = done (code, output)
run_outcome (raised e) = failed (fault e)
run_outcome killed = dead

abbrev pub change_outcome : Reply → Outcome (Unit {0})
change_outcome (returned code output) = done tt
change_outcome (raised e) = failed (fault e)
change_outcome killed = dead

abbrev pub saving_outcome : Reply → Bool → JsonFile → Value → World → Outcome (Unit {0}) × World
saving_outcome (returned code output) replaced f v w = (done tt, store f v w)
saving_outcome (raised e) replaced f v w = (failed (fault e), if replaced then store f v w else w)
saving_outcome killed replaced f v w = (dead, if replaced then store f v w else w)

module _ (M : Machine) where
  -- `execute`; the output of a visible command is not captured.
  unfoldable pub execute_visible : Bool → List Text → Text → Task Text
  execute_visible visible command directory w =
      let w' = record_event (ran command directory) w in
      (command_outcome visible (M.reply w'.trace), w')

  abbrev pub execute : List Text → Text → Task Text
  execute = execute_visible false

  abbrev pub execute_shown : List Text → Text → Task Text
  execute_shown = execute_visible true

  -- `subprocess.run` without a check: the code and the output
  unfoldable pub run_command : List Text → Text → Task (ℕ × Text)
  run_command command directory w =
      let w' = record_event (ran command directory) w in (run_outcome (M.reply w'.trace), w')

  -- Another change of the file system.
  unfoldable pub change : Text → Text → Task (Unit {0})
  change what path w =
      let w' = record_event (changed what path) w in (change_outcome (M.reply w'.trace), w')

  -- `atomic_json`: the file is replaced whole or not at all, and what follows the replacement may
  -- still raise.
  unfoldable pub atomic_json : JsonFile → Value → Task (Unit {0})
  atomic_json file v w =
      let w' = record_event (saved file v) w in
      saving_outcome (M.reply w'.trace) (M.replaced w'.trace) file v w'

abbrev pub after_catch :
    {A : Type 0} → (Failure → Bool) → (Failure → Task A) → Outcome A × World → Outcome A × World
after_catch caught handler (done a, w) = (done a, w)
after_catch caught handler (failed e, w) = (if caught e then handler e else fail e) w
after_catch caught handler (dead, w) = (dead, w)

-- `try: m except …: handler`, for the failures that the test catches
unfoldable pub catch : {A : Type 0} → (Failure → Bool) → Task A → (Failure → Task A) → Task A
catch caught m handler w = after_catch caught handler (m w)

abbrev pub after_cleanup : {A : Type 0} → Outcome A → Outcome (Unit {0}) × World → Outcome A × World
after_cleanup r (done _, w) = (r, w)
after_cleanup r (failed e, w) = (failed e, w)
after_cleanup r (dead, w) = (dead, w)

abbrev pub after_finally : {A : Type 0} → Task (Unit {0}) → Outcome A × World → Outcome A × World
after_finally cleanup (done a, w) = after_cleanup (done a) (cleanup w)
after_finally cleanup (failed e, w) = after_cleanup (failed e) (cleanup w)
after_finally cleanup (dead, w) = (dead, w)

-- `try: m finally: cleanup`. A killed process runs no cleanup, and what the cleanup raises replaces
-- what `m` gives.
unfoldable pub finally : {A : Type 0} → Task A → Task (Unit {0}) → Task A
finally m cleanup w = after_finally cleanup (m w)

abbrev pub is_update_failure : Failure → Bool
is_update_failure update_failure = true
is_update_failure _ = false
