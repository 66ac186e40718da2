-- ===== src/Tool/Services/Stopped.antt =====
-- What `down` of scripts/tgctl.py has seen when it returns.
use transparent_gateway.Prelude.{
  ℕ, ◌≡◌, Bool, false, not, List, [], ◌∷◌, Text, str, ◌==◌, nat_eq, text_eq, text_beq_iff,
  nat_beq_iff, arith,
}
use transparent_gateway.Python.{strip}
use transparent_gateway.Host.{Machine, Event, ran, returned, World}
use transparent_gateway.Host.Ensures.{Cond, Meets, Ensures, Ensures-bind, Ensures-weaken}
use transparent_gateway.Host.Ensures.Seen.{
  Anything, Ensures-anything, Ensures-seen, Ensures-fail_if,
}
use transparent_gateway.Tool.Commands.{compose_command, run_compose_command}
use transparent_gateway.Tool.Services.{down}

module _ (M : Machine) (root : Text) where
  abbrev pub ps_arguments : List Text
  ps_arguments = str "ps" ∷ str "--status" ∷ str "running" ∷ str "--quiet" ∷ []

  -- The last event lists the running containers, and it has answered with a code and an output.
  abbrev Listed : ℕ × Text → Cond
  Listed found w =
      (pinned : List Text) × (earlier : List Event) × (w.trace
        ≡ ran (compose_command M root pinned ps_arguments) root ∷ earlier)
      × (M.reply w.trace ≡ returned found.0 found.1)

  -- The last event lists the running containers, and there are none.
  abbrev pub SeesNone : Cond
  SeesNone w =
      (pinned : List Text) × (earlier : List Event) × (output : Text) × (w.trace
        ≡ ran (compose_command M root pinned ps_arguments) root ∷ earlier)
      × (M.reply w.trace ≡ returned 0 output)
      × (strip output ≡ [])

  listing : Ensures Anything (run_compose_command M root ps_arguments) Listed (λ _. Anything)
  unfolding run_compose_command
  listing = Ensures-bind (Ensures-anything _) λ pinned.
      Ensures-weaken (Ensures-seen M (compose_command M root pinned ps_arguments) root)
        (λ found w h. (pinned, h.0, h.1, h.2)) (λ o w h. tt)

  accepted :
      (found : ℕ × Text) (w : World)
      → (Listed found w × (not (found.0 == 0) ≡ false)) × (not (strip found.1 == []) ≡ false)
      → SeesNone w
  accepted (code, output) w (((pinned, earlier, last, answer), zero_code), blank) = (
    pinned,
    earlier,
    output,
    last,
    ground (arith, answer, nat_beq_iff code 0),
    ground (arith, text_beq_iff (strip output) []),
  )

  down-Ensures :
      (skip_service : Bool)
      → Ensures Anything (down M root skip_service) (λ _. SeesNone) (λ _. Anything)
  unfolding down
  down-Ensures skip_service = Ensures-bind (Ensures-anything _) λ _.
      Ensures-bind (Ensures-anything _) λ installed. Ensures-bind (Ensures-anything _) λ stopped.
        Ensures-bind (Ensures-anything _) λ _. Ensures-bind listing λ running.
          Ensures-bind (Ensures-fail_if _ _ (λ w h. tt)) λ _.
            Ensures-weaken (Ensures-fail_if _ _ (λ w h. tt)) (λ _ w h. accepted running w h)
              (λ o w h. h)

-- `down` returns only if the last thing that it did is to list the running containers, the command
-- has succeeded, and it has listed none.
pub down_stopped :
    (M : Machine) (root : Text) (skip_service : Bool) (w : World)
    → Meets (λ _. SeesNone M root) (λ _. Anything) (down M root skip_service w)
down_stopped M root skip_service w = (down-Ensures M root skip_service).run w tt
