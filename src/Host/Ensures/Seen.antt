-- ===== src/Host/Ensures/Seen.antt =====
-- What the host has answered, as a condition on the world.
use transparent_gateway.Prelude.{◌∷◌, ◌≡◌, refl, Bool, true, false, some, List, Text}
use transparent_gateway.Host.{
  Failure, Event, ran, Reply, returned, raised, killed, Machine, World, Outcome, done, failed, dead,
  Task, fail_if, record_event, run_outcome, run_command,
}
use transparent_gateway.Host.Ensures.{Cond, Raised, Meets, Ensures}

-- A condition that always holds, on results and on failures.
abbrev pub Anything : Cond
Anything _ = Unit {0}

Meets-anything :
    {A : Type 0} (r : Outcome A × World) → Meets {A = A} (λ _ _. Unit {0}) (λ _ _. Unit {0}) r
Meets-anything (done a, w) = tt
Meets-anything (failed e, w) = tt
Meets-anything (dead, w) = tt

pub Ensures-anything :
    {A : Type 0} (m : Task A) → Ensures Anything m (λ _. Anything) (λ _. Anything)
Ensures-anything m = record { run = λ w _. Meets-anything (m w) }

Meets-last :
    (M : Machine) (command : List Text) (directory : Text) (r : Reply) (w : World)
    (earlier : List Event)
    → w.trace ≡ ran command directory ∷ earlier
    → M.reply w.trace ≡ r
    → Meets
        (λ found w.
          (earlier : List Event) × (w.trace ≡ ran command directory ∷ earlier)
          × (M.reply w.trace ≡ returned found.0 found.1))
        (λ _. Anything)
        (run_outcome r, w)
Meets-last M command directory (returned code output) w earlier last h = (earlier, last, h)
Meets-last M command directory (raised e) w earlier last h = tt
Meets-last M command directory killed w earlier last h = tt

-- A command's code and output are those that the host answers, and the command is the last event.
pub Ensures-seen :
    (M : Machine) (command : List Text) (directory : Text)
    → Ensures Anything
        (run_command M command directory)
        (λ found w.
          (earlier : List Event) × (w.trace ≡ ran command directory ∷ earlier)
          × (M.reply w.trace ≡ returned found.0 found.1))
        (λ _. Anything)
unfolding run_command
Ensures-seen M command directory = record {
  run = λ w _.
      let w' = record_event (ran command directory) w in
      Meets-last M command directory (M.reply w'.trace) w' w.trace refl refl;
}

-- Behind a guard its test has failed.
pub Ensures-fail_if :
    {P : Cond} {E : Raised} (b : Bool) (e : Failure)
    → ((w : World) → P w → E (some e) w)
    → Ensures P (fail_if b e) (λ _ w. P w × (b ≡ false)) E
unfolding fail_if
Ensures-fail_if true e raises = record { run = raises }
Ensures-fail_if false e raises = record { run = λ w p. (p, refl) }
