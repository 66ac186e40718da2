-- ===== src/Updater/Quiet/Plan.antt =====
-- The preparation of an update in scripts/tg_update.py keeps what its commands keep.
use transparent_gateway.Prelude.{
  arith, refl, ◌≡◌, ap, true, false, Option, none, List, [], ◌∷◌, Text, str, text_eq, text_beq,
}
use transparent_gateway.Python.{ok, Value, Fields, end, field}
use transparent_gateway.Host.{
  Machine, World, execute_visible, run_command, change, atomic_json, build_json,
}
use transparent_gateway.Host.Ensures.{Cond, Meets, Keeps, Ensures-bind}
use transparent_gateway.Host.Ensures.Saved.{Ensures-look_at}
use transparent_gateway.Host.Ensures.Kept.{
  IsKeptBy, Keeps-bind, Keeps-pure, Keeps-lift, Keeps-look, Keeps-look_at, Keeps-fail_if, Keeps-if,
  Keeps-catch, Keeps-execute, Keeps-run_command, Keeps-change, Keeps-build, keep_rules,
}
use transparent_gateway.Updater.Quiet.{
  switches, switches_command, is_checkout, is_restart, moves_containers, compose_action,
  is_compose_move, compose_action-override, Keeps-docker, Keeps-git, Keeps-clean_checkout,
  Keeps-runtime_fingerprint, Keeps-health,
}
use transparent_gateway.Updater.Quiet.Installation.{Keeps-current_installation, Keeps-pin_images}
use transparent_gateway.Tool.Settings.{Parsers, load_settings}
use transparent_gateway.Tool.Commands.{
  load_and_validate, run_compose_command, override_now, override_arguments, compose_command,
  settings_now, give,
}
use transparent_gateway.Tool.Env.{Checked, fine, bad}
use transparent_gateway.Updater.Candidate.{
  copy_runtime, choose_images, identify, supports_update, candidate,
}
use transparent_gateway.Updater.Switch.{
  Args, Plan, check_checkout, make_plan, check_layout, make_stage, remove_stage,
}

Meets-give :
    {A : Type 0} (P : Cond) (c : Checked A) (w : World)
    → P w
    → Meets {A = A} (λ _. P) (λ _. P) (give c, w)
Meets-give P (fine a) w p = p
Meets-give P (bad e) w p = p

module _ {P : Cond} (kept : IsKeptBy P switches) (M : Machine) (root : Text) where
  Keeps-changed : (what path : Text) → Keeps P (change M what path)
  unfolding switches
  Keeps-changed what path = Keeps-change kept M what path refl

  Keeps-copy_runtime :
      (stage commit : Text) (names : List Text) → Keeps P (copy_runtime M root stage commit names)
  unfolding copy_runtime str text_beq
  Keeps-copy_runtime stage commit [] = Keeps-pure _
  Keeps-copy_runtime stage commit (name ∷ names) =
      Keeps-bind (Keeps-git kept M root (str "ls-tree") _ refl) λ tracked.
        Keeps-bind (Keeps-fail_if _ _) λ _. Keeps-bind (Keeps-changed _ _) λ _.
          Keeps-bind (Keeps-changed _ _) λ _.
            Keeps-bind (Keeps-look_at _)
              λ info. Keeps-bind (Keeps-changed _ _) λ _. Keeps-copy_runtime stage commit names

  Keeps-choose_images :
      (commit : Text) (services pins : Fields) → Keeps P (choose_images M root commit pins services)
  unfolding choose_images is_compose_move str text_beq
  Keeps-choose_images commit end pins = Keeps-pure _
  Keeps-choose_images commit (field name spec services) pins = Keeps-bind (Keeps-lift _) λ build.
      Keeps-bind
        (Keeps-if _ (Keeps-pure _) (
          Keeps-bind (Keeps-lift _)
            λ image. Keeps-bind (Keeps-docker kept M root true _ root refl) λ _. Keeps-pure _))
        λ image. Keeps-choose_images commit services _

  Keeps-identify : (pins images : Fields) → Keeps P (identify M root images pins)
  unfolding identify is_compose_move str text_beq
  Keeps-identify end images = Keeps-pure _
  Keeps-identify (field name pin pins) images =
      Keeps-bind (Keeps-lift _)
        λ image. Keeps-bind (Keeps-docker kept M root false _ root refl) λ id. Keeps-identify pins _

  Keeps-supports : (stage : Text) → Keeps P (supports_update M root stage)
  unfolding supports_update
  Keeps-supports stage = search keep_rules depth 12

  Keeps-check :
      (stage script : Text)
      → Keeps P (execute_visible M true (M.executable ∷ script ∷ str "check" ∷ []) stage)
  unfolding switches switches_command is_checkout is_restart is_compose_move moves_containers
      compose_action text_beq str
  Keeps-check stage script = Keeps-execute kept M true _ stage (ground arith)

  Keeps-build_file : (v : Value) → Keeps P (atomic_json M build_json v)
  unfolding switches
  Keeps-build_file v = Keeps-build kept M v refl

  pub Keeps-candidate :
      (stage : Text) (project : Value) (commit : Text) (previous : Fields) (names : List Text)
      → Keeps P (candidate M root stage project commit previous names)
  unfolding candidate is_compose_move moves_containers compose_action str text_beq
  Keeps-candidate stage project commit previous names =
      Keeps-bind (Keeps-git kept M root (str "worktree") _ refl) λ _.
        Keeps-bind (Keeps-supports stage) λ _.
          Keeps-bind (Keeps-copy_runtime stage commit names) λ _.
            Keeps-bind (Keeps-check stage _) λ _.
              Keeps-bind (Keeps-docker kept M root false _ stage refl) λ rendered.
                Keeps-bind (Keeps-lift _) λ config. Keeps-bind (Keeps-lift _) λ services.
                  Keeps-bind (Keeps-fail_if _ _) λ _.
                    Keeps-bind (Keeps-choose_images commit services end) λ pins.
                      Keeps-bind (Keeps-build_file _) λ _.
                        Keeps-bind (Keeps-docker kept M root true _ stage refl) λ _.
                          Keeps-bind (Keeps-identify pins end)
                            λ images. Keeps-pin_images kept M root project images

  pub Keeps-check_checkout : (words : Text → List Text) → Keeps P (check_checkout M root words)
  unfolding check_checkout
  Keeps-check_checkout words = Keeps-bind (Keeps-clean_checkout kept M root) λ _.
      Keeps-bind (Keeps-fail_if _ _) λ _. Keeps-bind (Keeps-look _) λ overridden.
        Keeps-bind (Keeps-fail_if _ _) λ _. Keeps-bind (Keeps-look _) λ installed.
          Keeps-bind (Keeps-fail_if _ _) λ _. Keeps-bind (Keeps-look_at _) λ unit. Keeps-fail_if _ _

  Keeps-config :
      (pinned : List Text) (override : Option Value)
      → override_arguments M root override ≡ ok pinned
      → Keeps P
          (run_command M (compose_command M root pinned (str "config" ∷ str "--quiet" ∷ [])) root)
  unfolding switches switches_command is_compose_move moves_containers compose_action str text_beq
  Keeps-config pinned override h = Keeps-run_command kept M _ root (
      ap moves_containers
        (compose_action-override M root override pinned (str "config" ∷ str "--quiet" ∷ []) h))

  Keeps-compose_config : Keeps P (run_compose_command M root (str "config" ∷ str "--quiet" ∷ []))
  unfolding run_compose_command override_now
  Keeps-compose_config =
      Ensures-bind (Ensures-look_at _)
        λ pinned. record { run = λ w h. (Keeps-config pinned w.images h.1).run w h.0 }

  Keeps-settings : (parsers : Parsers) → Keeps P (settings_now M parsers root)
  unfolding settings_now
  Keeps-settings parsers = record {
    run = λ w p. Meets-give P (load_settings M parsers root w.trace) w p;
  }

  Keeps-load : (parsers : Parsers) → Keeps P (load_and_validate M parsers root)
  unfolding load_and_validate
  Keeps-load parsers = Keeps-bind (Keeps-settings parsers) λ loaded.
      Keeps-bind Keeps-compose_config λ result. Keeps-bind (Keeps-fail_if _ _) λ _. Keeps-pure _

  module _ (words : Text → List Text) (parsers : Parsers) (args : Args) where
    Keeps-config_in :
        (project directory : Text)
        → Keeps P (
            execute_visible M false
              (str "docker"
                ∷ str "compose"
                ∷ str "--project-name"
                ∷ project
                ∷ str "config"
                ∷ str "--format"
                ∷ str "json"
                ∷ [])
              directory)
    unfolding is_compose_move moves_containers compose_action str text_beq
    Keeps-config_in project directory = Keeps-docker kept M root false _ directory refl

    Keeps-config_of :
        (project file directory : Text)
        → Keeps P (
            execute_visible M false
              (str "docker"
                ∷ str "compose"
                ∷ str "--project-name"
                ∷ project
                ∷ str "-f"
                ∷ file
                ∷ str "config"
                ∷ str "--format"
                ∷ str "json"
                ∷ [])
              directory)
    unfolding is_compose_move moves_containers compose_action str text_beq
    Keeps-config_of project file directory = Keeps-docker kept M root false _ directory refl

    pub Keeps-check_layout :
        (stage : Text) (p : Plan) → Keeps P (check_layout M root words parsers args stage p)
    unfolding check_layout
    Keeps-check_layout stage p = search (keep_rules, Keeps-config_in, Keeps-config_of) depth 24

    pub Keeps-make_plan : Keeps P (make_plan M root words parsers args)
    unfolding make_plan str text_beq
    Keeps-make_plan = Keeps-bind (Keeps-load parsers) λ loaded. Keeps-bind (Keeps-fail_if _ _) λ _.
        Keeps-bind (Keeps-health kept M root args.timeout none) λ _.
          Keeps-bind (Keeps-current_installation kept M root words) λ installed.
            Keeps-bind (Keeps-git kept M root (str "rev-parse") _ refl) λ previous.
              Keeps-bind (Keeps-fail_if _ _) λ _.
                Keeps-bind (Keeps-git kept M root (str "fetch") _ refl) λ _.
                  Keeps-bind (Keeps-git kept M root (str "rev-parse") _ refl) λ target.
                    Keeps-if _ (Keeps-pure _) (
                      Keeps-bind (Keeps-runtime_fingerprint kept M root _) λ baseline.
                        Keeps-bind (Keeps-pin_images kept M root _ _) λ retained. Keeps-pure _)

    pub Keeps-make_stage : Keeps P (make_stage M root words parsers args)
    unfolding make_stage
    Keeps-make_stage = search (keep_rules, Keeps-changed) depth 8

    pub Keeps-remove_stage : (stage : Text) → Keeps P (remove_stage M root words parsers args stage)
    unfolding remove_stage str text_beq
    Keeps-remove_stage stage =
        Keeps-catch _ _ _
          (Keeps-bind (Keeps-git kept M root (str "worktree") _ refl) λ _. Keeps-pure _)
          (λ e. Keeps-pure _)
