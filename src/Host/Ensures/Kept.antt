-- ===== src/Host/Ensures/Kept.antt =====
-- Steps of the host that keep a condition on the world.
use transparent_gateway.Prelude.{
  zero, suc, ◌≡◌, Bool, true, false, Option, List, Text, if◌then◌else◌,
}
use transparent_gateway.Python.{Result, Value}
use transparent_gateway.Host.{
  Failure, build_json, Event, ran, saved, changed, Reply, returned, raised, killed, Machine, World,
  Outcome, done, failed, dead, Task, ◌>>=◌, pure, fail, lift, look, look_at, fail_if, record_event,
  command_outcome, change_outcome, run_outcome, after_catch, saving_outcome, execute_visible,
  run_command, change, atomic_json, catch,
}
use transparent_gateway.Host.Ensures.{
  Meets-result, Cond, Raised, Meets, Ensures, Keeps, Ensures-bind, Ensures-weaken,
}

module _ {A : Type 0} {P : Cond} where
  pub Keeps-pure : (a : A) → Keeps P (pure a)
  unfolding pure
  Keeps-pure a = record { run = λ w p. p }

  pub Keeps-fail : (e : Failure) → Keeps P (fail {A = A} e)
  unfolding fail
  Keeps-fail e = record { run = λ w p. p }

  pub Keeps-lift : (r : Result A) → Keeps P (lift r)
  unfolding lift
  Keeps-lift r = record { run = λ w p. Meets-result P r w p }

  pub Keeps-look : (f : World → A) → Keeps P (look f)
  unfolding look
  Keeps-look f = record { run = λ w p. p }

  pub Keeps-look_at : (f : World → Result A) → Keeps P (look_at f)
  unfolding look_at
  Keeps-look_at f = record { run = λ w p. Meets-result P (f w) w p }

Meets-fail_if :
    (P : Cond) (b : Bool) (e : Failure) (w : World) → P w → Meets (λ _. P) (λ _. P) (fail_if b e w)
unfolding fail_if
Meets-fail_if P true e w p = p
Meets-fail_if P false e w p = p

pub Keeps-fail_if : {P : Cond} (b : Bool) (e : Failure) → Keeps P (fail_if b e)
Keeps-fail_if {P} b e = record { run = Meets-fail_if P b e }

module _ {A : Type 0} {P : Cond} where
  pub Keeps-if : (b : Bool) {m n : Task A} → Keeps P m → Keeps P n → Keeps P (if b then m else n)
  Keeps-if true hm hn = hm
  Keeps-if false hm hn = hn

  Meets-catch :
      (caught : Failure → Bool) (handler : Failure → Task A) (r : Outcome A × World)
      → Meets (λ _. P) (λ _. P) r
      → ((e : Failure) → Keeps P (handler e))
      → Meets (λ _. P) (λ _. P) (after_catch caught handler r)
  Meets-catch caught handler (done a, w) h kept = h
  Meets-catch caught handler (dead, w) h kept = h
  Meets-catch caught handler (failed e, w) h kept =
      (Keeps-if (caught e) (kept e) (Keeps-fail e)).run w h

  pub Keeps-catch :
      (caught : Failure → Bool) (m : Task A) (handler : Failure → Task A)
      → Keeps P m
      → ((e : Failure) → Keeps P (handler e))
      → Keeps P (catch caught m handler)
  unfolding catch
  Keeps-catch caught m handler hm kept = record {
    run = λ w p. Meets-catch caught handler (m w) (hm.run w p) kept;
  }

-- A condition that the events of a kind keep.
abbrev pub IsKeptBy : Cond → (Event → Bool) → Type 0
IsKeptBy P test = (e : Event) (w : World) → test e ≡ false → P w → P (record_event e w)

Meets-command :
    (P : Cond) (visible : Bool) (r : Reply) (w : World)
    → P w
    → Meets (λ _. P) (λ _. P) (command_outcome visible r, w)
Meets-command P visible (returned zero output) w p = p
Meets-command P visible (returned (suc code) output) w p = p
Meets-command P visible (raised e) w p = p
Meets-command P visible killed w p = p

Meets-change :
    (P : Cond) (r : Reply) (w : World) → P w → Meets (λ _. P) (λ _. P) (change_outcome r, w)
Meets-change P (returned code output) w p = p
Meets-change P (raised e) w p = p
Meets-change P killed w p = p

Meets-run : (P : Cond) (r : Reply) (w : World) → P w → Meets (λ _. P) (λ _. P) (run_outcome r, w)
Meets-run P (returned code output) w p = p
Meets-run P (raised e) w p = p
Meets-run P killed w p = p

module _ {P : Cond} {test : Event → Bool} (kept : IsKeptBy P test) (M : Machine) where
  pub Keeps-execute :
      (visible : Bool) (command : List Text) (directory : Text)
      → test (ran command directory) ≡ false
      → Keeps P (execute_visible M visible command directory)
  unfolding execute_visible
  Keeps-execute visible command directory passes = record {
    run = λ w p.
        let w' = record_event (ran command directory) w in
        Meets-command P visible (M.reply w'.trace) w' (kept (ran command directory) w passes p);
  }

  pub Keeps-run_command :
      (command : List Text) (directory : Text)
      → test (ran command directory) ≡ false
      → Keeps P (run_command M command directory)
  unfolding run_command
  Keeps-run_command command directory passes = record {
    run = λ w p.
        let w' = record_event (ran command directory) w in
        Meets-run P (M.reply w'.trace) w' (kept (ran command directory) w passes p);
  }

  pub Keeps-change :
      (what path : Text) → test (changed what path) ≡ false → Keeps P (change M what path)
  unfolding change
  Keeps-change what path passes = record {
    run = λ w p.
        let w' = record_event (changed what path) w in
        Meets-change P (M.reply w'.trace) w' (kept (changed what path) w passes p);
  }

-- A step that is known to keep a condition, followed by more.
pub Ensures-keep :
    {A B : Type 0} {P : Cond} {m : Task A} {f : A → Task B} {Q : B → Cond} {E : Raised}
    → ((o : Option Failure) (w : World) → P w → E o w)
    → Keeps P m
    → ((a : A) → Ensures P (f a) Q E)
    → Ensures P (m >>= f) Q E
Ensures-keep weaker first next = Ensures-bind (Ensures-weaken first (λ a w p. p) weaker) next

pub Keeps-bind :
    {A B : Type 0} {P : Cond} {m : Task A} {f : A → Task B}
    → Keeps P m
    → ((a : A) → Keeps P (f a))
    → Keeps P (m >>= f)
Keeps-bind = Ensures-bind

Meets-build :
    (P : Cond) (r : Reply) (b : Bool) (v : Value) (w : World)
    → P w
    → Meets (λ _. P) (λ _. P) (saving_outcome r b build_json v w)
Meets-build P (returned code output) b v w p = p
Meets-build P (raised e) true v w p = p
Meets-build P (raised e) false v w p = p
Meets-build P killed true v w p = p
Meets-build P killed false v w p = p

-- The file of the images to build is none of the two that the world holds.
pub Keeps-build :
    {P : Cond} {test : Event → Bool}
    → IsKeptBy P test
    → (M : Machine) (v : Value) → test (saved build_json v) ≡ false
    → Keeps P (atomic_json M build_json v)
unfolding atomic_json
Keeps-build {P} kept M v passes = record {
  run = λ w p.
      let w' = record_event (saved build_json v) w in
      Meets-build P (M.reply w'.trace) (M.replaced w'.trace) v w'
        (kept (saved build_json v) w passes p);
}

pub ruleset keep_rules = (
  Keeps-bind, Keeps-pure, Keeps-fail, Keeps-lift, Keeps-look, Keeps-look_at, Keeps-fail_if,
  Keeps-if,
)
