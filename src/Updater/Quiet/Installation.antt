-- ===== src/Updater/Quiet/Installation.antt =====
-- The steps of scripts/tg_update.py that ask the installation for its images switch nothing.
use transparent_gateway.Prelude.{
  refl, false, Option, none, some, List, [], ◌∷◌, Text, str, text_eq, text_beq,
}
use transparent_gateway.Python.{Value, Fields, end, field}
use transparent_gateway.Host.{Machine, execute_visible, Task, pure}
use transparent_gateway.Host.Ensures.{Cond, Keeps}
use transparent_gateway.Host.Ensures.Kept.{
  IsKeptBy, Keeps-bind, Keeps-pure, Keeps-fail, Keeps-lift, Keeps-if, Keeps-catch, keep_rules,
}
use transparent_gateway.Updater.Commands.{run_compose}
use transparent_gateway.Updater.Images.{
  Manifest, inspect, match_reference, matching, match_local, search_images, container_image,
  read_row, read_rows, current_installation, pin_each, pin_images,
}
use transparent_gateway.Updater.Quiet.{
  switches, moves_containers, compose_action, is_compose_move, Keeps-docker, Keeps-run_compose,
}

module _ {P : Cond} (kept : IsKeptBy P switches) (M : Machine) (root : Text) where
  -- `container_image` and what it calls
  Keeps-inspect :
      (reference : Text) (platform : List Text) → Keeps P (inspect M root reference platform)
  unfolding inspect is_compose_move str text_beq
  Keeps-inspect reference platform =
      Keeps-bind (Keeps-docker kept M root false _ root refl) (λ output. Keeps-lift _)

  Keeps-match : (m : Manifest) (reference : Text) → Keeps P (match_reference M root m reference)
  unfolding match_reference
  Keeps-match m reference = search (keep_rules, Keeps-inspect)

  Keeps-matching :
      (m : Manifest) (checked : List Text) (reference : Text)
      → Keeps P (matching M root m checked reference)
  unfolding matching
  Keeps-matching m checked reference =
      Keeps-if _ (Keeps-pure _) (Keeps-catch _ _ _ (Keeps-match m reference) (λ e. Keeps-pure _))

  Keeps-found :
      (found : Option Text) {rest : Task Text}
      → Keeps P rest
      → Keeps P (elim found [ some id ↦ pure id | none ↦ rest ])
  Keeps-found none h = h
  Keeps-found (some id) h = Keeps-pure _

  Keeps-match_local :
      (m : Manifest) (checked references : List Text)
      → Keeps P (match_local M root m checked references)
  unfolding match_local
  Keeps-match_local m checked [] = Keeps-fail _
  Keeps-match_local m checked (reference ∷ references) =
      Keeps-bind (Keeps-matching m checked reference)
        (λ found. Keeps-found found (Keeps-match_local m (reference ∷ checked) references))

  Keeps-search :
      (words : Text → List Text) (row : Value) (m : Manifest)
      → Keeps P (search_images M root words row m)
  unfolding search_images is_compose_move str text_beq
  Keeps-search words row m =
      Keeps-if _
        (Keeps-bind (Keeps-lift _) λ config. Keeps-bind (Keeps-lift _) λ named.
          Keeps-bind (Keeps-lift _) λ reference. Keeps-bind (Keeps-matching m [] reference) λ found.
            Keeps-found found (
              Keeps-bind (Keeps-docker kept M root false _ root refl)
                (λ output. Keeps-match_local m (reference ∷ []) (words output))))
        (Keeps-fail _)

  Keeps-container_image :
      (words : Text → List Text) (row : Value) → Keeps P (container_image M root words row)
  unfolding container_image
  Keeps-container_image words row = Keeps-bind (Keeps-lift _) λ label.
      Keeps-bind (Keeps-lift _)
        λ m. Keeps-catch _ _ _ (search (keep_rules, Keeps-inspect)) (λ e. Keeps-search words row m)

  Keeps-row :
      (words : Text → List Text) (services volumes : Fields) (row : Value) (rows : List Value)
      (found : Option Text)
      → ((services volumes : Fields) → Keeps P (read_rows M root words services volumes rows))
      → Keeps P (
          read_row M root words services volumes row found (λ s v. read_rows M root words s v rows))
  unfolding read_row
  Keeps-row words services volumes row rows none rest = rest services volumes
  Keeps-row words services volumes row rows (some name) rest =
      search (keep_rules, Keeps-container_image, rest) depth 16

  Keeps-read_rows :
      (words : Text → List Text) (services volumes : Fields) (rows : List Value)
      → Keeps P (read_rows M root words services volumes rows)
  unfolding read_rows
  Keeps-read_rows words services volumes [] = Keeps-pure _
  Keeps-read_rows words services volumes (row ∷ rows) = Keeps-bind (Keeps-lift _) λ found.
      Keeps-row words services volumes row rows found (λ s v. Keeps-read_rows words s v rows)

  Keeps-inspect_all :
      (identifiers : List Text)
      → Keeps P (execute_visible M false (str "docker" ∷ str "inspect" ∷ identifiers) root)
  unfolding is_compose_move str text_beq
  Keeps-inspect_all identifiers =
      Keeps-docker kept M root false (str "inspect" ∷ identifiers) root refl

  Keeps-config : Keeps P (run_compose M root (str "config" ∷ str "--format" ∷ str "json" ∷ []))
  unfolding moves_containers compose_action str text_beq
  Keeps-config =
      Keeps-run_compose kept M root (str "config" ∷ str "--format" ∷ str "json" ∷ []) refl

  Keeps-ps : Keeps P (run_compose M root (str "ps" ∷ str "--all" ∷ str "--quiet" ∷ []))
  unfolding moves_containers compose_action str text_beq
  Keeps-ps = Keeps-run_compose kept M root (str "ps" ∷ str "--all" ∷ str "--quiet" ∷ []) refl

  pub Keeps-current_installation :
      (words : Text → List Text) → Keeps P (current_installation M root words)
  unfolding current_installation
  Keeps-current_installation words =
      search (keep_rules, Keeps-config, Keeps-ps, Keeps-inspect_all, Keeps-read_rows) depth 24

  Keeps-pin_each : (images pins : Fields) → Keeps P (pin_each M root pins images)
  unfolding pin_each is_compose_move str text_beq
  Keeps-pin_each end pins = Keeps-pure _
  Keeps-pin_each (field name image images) pins = Keeps-bind (Keeps-lift _) λ identifier.
      Keeps-bind (Keeps-docker kept M root false _ root refl) λ _. Keeps-pin_each images _

  pub Keeps-pin_images :
      (project : Value) (images : Fields) → Keeps P (pin_images M root project images)
  unfolding pin_images
  Keeps-pin_images project images = search (keep_rules, Keeps-pin_each)
