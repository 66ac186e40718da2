-- ===== src/Host/Ensures/Plain.antt =====
-- Failures of the host that are no report.
use transparent_gateway.Prelude.{
  zero, suc, ◌≡◌, Bool, true, false, Option, none, some, List, Text, if◌then◌else◌,
}
use transparent_gateway.Host.{
  Failure, update_failure, user_error, fault, Event, ran, changed, Reply, returned, raised, killed,
  Machine, World, Outcome, done, failed, dead, Task, fail, record_event, command_outcome,
  change_outcome, after_catch, execute_visible, change, catch,
}
use transparent_gateway.Host.Ensures.{Cond, Meets, Ensures}
use transparent_gateway.Host.Ensures.Kept.{IsKeptBy}

-- A failure that is no report.
abbrev pub IsPlain : Option Failure → Type 0
IsPlain (some (user_error _)) = ⊥
IsPlain (some update_failure) = Unit {0}
IsPlain (some (fault _)) = Unit {0}
IsPlain none = Unit {0}

Meets-command-IsPlain :
    (P : Cond) (visible : Bool) (r : Reply) (w : World)
    → P w
    → Meets (λ _. P) (λ o w. P w × IsPlain o) (command_outcome visible r, w)
Meets-command-IsPlain P visible (returned zero output) w p = p
Meets-command-IsPlain P visible (returned (suc code) output) w p = (p, tt)
Meets-command-IsPlain P visible (raised e) w p = (p, tt)
Meets-command-IsPlain P visible killed w p = (p, tt)

Meets-change-IsPlain :
    (P : Cond) (r : Reply) (w : World)
    → P w
    → Meets (λ _. P) (λ o w. P w × IsPlain o) (change_outcome r, w)
Meets-change-IsPlain P (returned code output) w p = p
Meets-change-IsPlain P (raised e) w p = (p, tt)
Meets-change-IsPlain P killed w p = (p, tt)

module _ {P : Cond} {test : Event → Bool} (kept : IsKeptBy P test) (M : Machine) where
  -- A call of the host raises no report.
  pub Ensures-execute-IsPlain :
      (visible : Bool) (command : List Text) (directory : Text)
      → test (ran command directory) ≡ false
      → Ensures P (execute_visible M visible command directory) (λ _. P) (λ o w. P w × IsPlain o)
  unfolding execute_visible
  Ensures-execute-IsPlain visible command directory passes = record {
    run = λ w p.
        let w' = record_event (ran command directory) w in
        Meets-command-IsPlain P visible (M.reply w'.trace) w'
          (kept (ran command directory) w passes p);
  }

  pub Ensures-change-IsPlain :
      (what path : Text)
      → test (changed what path) ≡ false
      → Ensures P (change M what path) (λ _. P) (λ o w. P w × IsPlain o)
  unfolding change
  Ensures-change-IsPlain what path passes = record {
    run = λ w p.
        let w' = record_event (changed what path) w in
        Meets-change-IsPlain P (M.reply w'.trace) w' (kept (changed what path) w passes p);
  }

Meets-handled :
    {A : Type 0} (P : Cond) (b : Bool) (m : Task A) (e : Failure) (w : World)
    → Ensures P m (λ _. P) (λ o w. P w × IsPlain o)
    → P w × IsPlain (some e)
    → Meets (λ _. P) (λ o w. P w × IsPlain o) ((if b then m else fail e) w)
unfolding fail
Meets-handled P true m e w hm h = hm.run w h.0
Meets-handled P false m e w hm h = h

module _ {A : Type 0} {P : Cond} where
  Meets-catch-IsPlain :
      (caught : Failure → Bool) (handler : Failure → Task A) (r : Outcome A × World)
      → Meets (λ _. P) (λ o w. P w × IsPlain o) r
      → ((e : Failure) → Ensures P (handler e) (λ _. P) (λ o w. P w × IsPlain o))
      → Meets (λ _. P) (λ o w. P w × IsPlain o) (after_catch caught handler r)
  Meets-catch-IsPlain caught handler (done a, w) h handles = h
  Meets-catch-IsPlain caught handler (dead, w) h handles = h
  Meets-catch-IsPlain caught handler (failed e, w) h handles =
      Meets-handled P (caught e) (handler e) e w (handles e) h

  -- A handler adds no report.
  pub Ensures-catch-IsPlain :
      (caught : Failure → Bool) (m : Task A) (handler : Failure → Task A)
      → Ensures P m (λ _. P) (λ o w. P w × IsPlain o)
      → ((e : Failure) → Ensures P (handler e) (λ _. P) (λ o w. P w × IsPlain o))
      → Ensures P (catch caught m handler) (λ _. P) (λ o w. P w × IsPlain o)
  unfolding catch
  Ensures-catch-IsPlain caught m handler h handles = record {
    run = λ w p. Meets-catch-IsPlain caught handler (m w) (h.run w p) handles;
  }
