-- ===== src/Host/Ensures.antt =====
-- What holds of the world after a step: on its result, and on what it raises.
pub mod Kept
pub mod Saved
pub mod Plain
pub mod Seen
use transparent_gateway.Prelude.{
  ◌∷◌, zero, suc, ◌≡◌, refl, Bool, true, false, Option, none, some, List, Text, if◌then◌else◌,
}
use transparent_gateway.Python.{Result, ok, err, Value}
use transparent_gateway.Host.{
  Failure, update_failure, user_error, fault, JsonFile, build_json, Event, ran, saved, changed,
  Reply, returned, raised, killed, Machine, World, Outcome, done, failed, dead, Task, ◌>>=◌,
  proceed, pure, fail, lift, look, look_at, fail_if, of_result, store, record_event,
  command_outcome, change_outcome, run_outcome, after_catch, after_cleanup, after_finally, finally,
  saving_outcome, execute_visible, run_command, change, atomic_json, catch,
}

-- A condition on the world.
abbrev pub Cond : Type 1
Cond = World → Type 0

-- A condition on what was raised and the world; `none` stands for a killed process.
abbrev pub Raised : Type 1
Raised = Option Failure → World → Type 0

module _ {A : Type 0} where
  abbrev pub Meets : (A → Cond) → Raised → Outcome A × World → Type 0
  Meets Q E (done a, w) = Q a w
  Meets Q E (failed e, w) = E (some e) w
  Meets Q E (dead, w) = E none w

  pub record Ensures (P : Cond) (m : Task A) (Q : A → Cond) (E : Raised) : Type 0 where
    pub run : (w : World) → P w → Meets Q E (m w)

  -- A step that keeps a condition, however it ends.
  abbrev pub Keeps : Cond → Task A → Type 0
  Keeps P m = Ensures P m (λ _. P) (λ _. P)

module _ {A B : Type 0} {R : A → Cond} {Q : B → Cond} {E : Raised} where
  Meets-proceed :
      (f : A → Task B) (r : Outcome A × World)
      → Meets R E r
      → ((a : A) → Ensures (R a) (f a) Q E)
      → Meets Q E (proceed r.0 f r.1)
  Meets-proceed f (done a, w) h next = (next a).run w h
  Meets-proceed f (failed e, w) h next = h
  Meets-proceed f (dead, w) h next = h

  pub Ensures-bind :
      {P : Cond} {m : Task A} {f : A → Task B}
      → Ensures P m R E
      → ((a : A) → Ensures (R a) (f a) Q E)
      → Ensures P (m >>= f) Q E
  unfolding ◌>>=◌
  Ensures-bind {m = m} {f = f} first next = record {
    run = λ w p. Meets-proceed f (m w) (first.run w p) next;
  }

pub Meets-result :
    {A : Type 0} (P : Cond) (r : Result A) (w : World)
    → P w
    → Meets {A = A} (λ _. P) (λ _. P) (of_result r, w)
Meets-result P (ok a) w p = p
Meets-result P (err e) w p = p

module _ {A : Type 0} {Q R : A → Cond} {E F : Raised} where
  Meets-weaken :
      (r : Outcome A × World)
      → Meets R F r
      → ((a : A) (w : World) → R a w → Q a w)
      → ((o : Option Failure) (w : World) → F o w → E o w)
      → Meets Q E r
  Meets-weaken (done a, w) h weaker raises = weaker a w h
  Meets-weaken (failed e, w) h weaker raises = raises (some e) w h
  Meets-weaken (dead, w) h weaker raises = raises none w h

  pub Ensures-weaken :
      {P : Cond} {m : Task A}
      → Ensures P m R F
      → ((a : A) (w : World) → R a w → Q a w)
      → ((o : Option Failure) (w : World) → F o w → E o w)
      → Ensures P m Q E
  Ensures-weaken {m = m} h weaker raises = record {
    run = λ w p. Meets-weaken (m w) (h.run w p) weaker raises;
  }

pub Ensures-pure :
    {A : Type 0} {P : Cond} {Q : A → Cond} {E : Raised} (a : A)
    → ((w : World) → P w → Q a w)
    → Ensures P (pure a) Q E
unfolding pure
Ensures-pure a h = record { run = h }

pub Ensures-fail :
    {A : Type 0} {P : Cond} {Q : A → Cond} {E : Raised} (e : Failure)
    → ((w : World) → P w → E (some e) w)
    → Ensures P (fail {A = A} e) Q E
unfolding fail
Ensures-fail e h = record { run = h }
