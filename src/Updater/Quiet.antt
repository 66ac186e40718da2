-- ===== src/Updater/Quiet.antt =====
-- The steps of scripts/tg_update.py that prepare an update switch nothing.
pub mod Installation
pub mod Plan
use transparent_gateway.Prelude.{
  ℕ, ap, sym, ◌∙◌, contains, arith, ◌≡◌, refl, Bool, true, false, not, ◌&&◌, ◌||◌, Option, none,
  some, List, [], ◌∷◌, ◌++◌, Text, str, ◌==◌, text_eq, text_beq, if◌then◌else◌, map,
}
use transparent_gateway.Prelude.Int.{ℤ}
use transparent_gateway.Python.{
  ok, subscript, >>=-eq-ok, ok_injective, Result, Value, Fields, end, field, Float,
}
use transparent_gateway.Host.{
  Machine, Event, ran, saved, changed, build_json, images_json, transaction_json, execute_visible,
  Failure, Task, pure,
}
use transparent_gateway.Host.Ensures.{Cond, Keeps, Ensures-bind}
use transparent_gateway.Host.Ensures.Saved.{Ensures-look_at}
use transparent_gateway.Host.Ensures.Kept.{
  IsKeptBy, Keeps-bind, Keeps-pure, Keeps-fail, Keeps-lift, Keeps-look, Keeps-look_at,
  Keeps-fail_if, Keeps-if, Keeps-catch, Keeps-execute, Keeps-run_command, Keeps-change, Keeps-build,
  keep_rules,
}
use transparent_gateway.Tool.Commands.{override_arguments}
use transparent_gateway.Updater.Commands.{
  git, clean_checkout, runtime_fingerprint, pinned_now, pinned_arguments, compose, run_compose,
  run_compose_shown, health, service,
}
use transparent_gateway.Updater.Images.{
  Manifest, inspect, match_reference, matching, match_local, search_images, container_image,
  read_row, read_rows, current_installation, pin_each, pin_images,
}

-- The arguments behind `git` that move the checkout.
unfoldable pub is_checkout : List Text → Bool
is_checkout (_ ∷ _ ∷ action ∷ _) = action == str "checkout"
is_checkout _ = false

-- The arguments behind `systemctl` that stop or start the service.
unfoldable pub is_restart : List Text → Bool
is_restart (action ∷ unit ∷ []) =
    unit == str "transparent-gateway.service"
    && (action == str "stop" || action == str "start" || action == str "restart")
is_restart _ = false

-- The actions of Compose that stop, start or replace containers.
unfoldable pub moves_containers : Text → Bool
moves_containers action =
    contains
      (str "stop"
        ∷ str "start"
        ∷ str "restart"
        ∷ str "up"
        ∷ str "down"
        ∷ str "kill"
        ∷ str "rm"
        ∷ [])
      action

-- The action of `docker compose`, behind its options.
unfoldable pub compose_action : List Text → Text
compose_action [] = []
compose_action (action ∷ []) = action
compose_action (option ∷ value ∷ rest) =
    let behind = compose_action rest in
    if option == str "--project-name" || option == str "-f" then behind else option

-- The arguments behind `docker` that stop, start or replace containers.
unfoldable pub is_compose_move : List Text → Bool
unfolding moves_containers compose_action
is_compose_move [] = false
is_compose_move (group ∷ arguments) =
    group == str "compose" && moves_containers (compose_action arguments)

unfoldable pub switches_command : List Text → Bool
unfolding is_checkout is_restart is_compose_move
switches_command [] = false
switches_command (program ∷ arguments) =
    (program == str "git" && is_checkout arguments)
    || (program == str "systemctl" && is_restart arguments)
    || (program == str "docker" && is_compose_move arguments)

-- What takes the running version away or puts another in its place: a checkout, a stop or a start
-- of the service by systemctl or of containers by Compose, and another choice of images.
unfoldable pub switches : Event → Bool
unfolding switches_command
switches (ran command directory) = switches_command command
switches (saved images_json v) = true
switches (saved _ v) = false
switches (changed what path) = false

module _ (M : Machine) (root : Text) where
  -- The arguments that choose the pinned images are options.
  compose_action-pinned :
      (override : Option Value) (pinned arguments : List Text)
      → pinned_arguments M root override ≡ ok pinned
      → compose_action (pinned ++ arguments) ≡ compose_action arguments
  unfolding pinned_arguments compose_action str text_beq
  compose_action-pinned none pinned arguments h =
      ap (λ p. compose_action (p ++ arguments)) (sym (ok_injective h))
  compose_action-pinned (some override) pinned arguments h =
      let (project, _, h₁) = >>=-eq-ok (subscript override (str "name")) _ h in
      ap (λ p. compose_action (p ++ arguments)) (sym (ok_injective h₁))

  pub compose_action-override :
      (override : Option Value) (pinned arguments : List Text)
      → override_arguments M root override ≡ ok pinned
      → compose_action (pinned ++ arguments) ≡ compose_action arguments
  unfolding override_arguments compose_action str text_beq
  compose_action-override none pinned arguments h =
      ap (λ p. compose_action (p ++ arguments)) (sym (ok_injective h))
  compose_action-override (some override) pinned arguments h =
      let (project, _, h₁) = >>=-eq-ok (subscript override (str "name")) _ h in
      ap (λ p. compose_action (p ++ arguments)) (sym (ok_injective h₁))

module _ {P : Cond} (kept : IsKeptBy P switches) (M : Machine) (root : Text) where
  pub Keeps-docker :
      (visible : Bool) (arguments : List Text) (directory : Text)
      → is_compose_move arguments ≡ false
      → Keeps P (execute_visible M visible (str "docker" ∷ arguments) directory)
  unfolding switches switches_command str text_beq
  Keeps-docker visible arguments directory quiet =
      Keeps-execute kept M visible (str "docker" ∷ arguments) directory quiet

  Keeps-pinned :
      (pinned arguments : List Text) (override : Option Value)
      → moves_containers (compose_action arguments) ≡ false
      → pinned_arguments M root override ≡ ok pinned
      → Keeps P (execute_visible M false (compose M root pinned arguments) root)
  unfolding is_compose_move str text_beq
  Keeps-pinned pinned arguments override quiet h =
      Keeps-docker false (str "compose" ∷ (pinned ++ arguments)) root
        (ap moves_containers (compose_action-pinned M root override pinned arguments h) ∙ quiet)

  pub Keeps-git :
      (action : Text) (arguments : List Text)
      → (action == str "checkout") ≡ false
      → Keeps P (git M root (action ∷ arguments))
  unfolding git switches switches_command is_checkout str text_beq
  Keeps-git action arguments other =
      Keeps-bind
        (Keeps-execute kept M false
          (str "git" ∷ str "-c" ∷ (str "safe.directory=" ++ root) ∷ action ∷ arguments) root
          (rw other))
        (λ output. Keeps-pure _)

  pub Keeps-clean_checkout : Keeps P (clean_checkout M root)
  unfolding clean_checkout str text_beq
  Keeps-clean_checkout = Keeps-bind (Keeps-git (str "status") _ refl) (λ changes. Keeps-fail_if _ _)

  pub Keeps-runtime_fingerprint : (names : List Text) → Keeps P (runtime_fingerprint M root names)
  unfolding runtime_fingerprint
  Keeps-runtime_fingerprint names = Keeps-look_at _

  pub Keeps-run_compose :
      (arguments : List Text)
      → moves_containers (compose_action arguments) ≡ false
      → Keeps P (run_compose M root arguments)
  unfolding run_compose pinned_now
  Keeps-run_compose arguments quiet =
      Ensures-bind (Ensures-look_at _) λ pinned. record {
        run = λ w h. (Keeps-pinned pinned arguments w.images quiet h.1).run w h.0;
      }

  pub Keeps-health : (timeout : ℤ) (since : Option Float) → Keeps P (health M root timeout since)
  unfolding health switches switches_command is_checkout is_restart is_compose_move moves_containers
      compose_action text_beq str
  Keeps-health timeout since = Keeps-execute kept M true _ root (ground arith)
