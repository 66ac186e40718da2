-- ===== src/Updater/Candidate.antt =====
-- `candidate` and `volume_layout` of scripts/tg_update.py.
use transparent_gateway.Prelude.{
  Bool, not, ◌&&◌, ◌||◌, List, [], ◌∷◌, ◌++◌, Text, str, ◌==◌, text_eq, if◌then◌else◌,
}
use transparent_gateway.Python.{
  Result, ok, err, type_error, json_error, Value, text, arr, nil, obj, of_items, Fields, end, field,
  put, truthy, text_lt, strip, startswith, to_str, subscript, method_get, method_get_default,
  elements, expect_text, expect_dict, has_key, same_keys, value_eq, or_raise,
}
use transparent_gateway.Python as Py
use transparent_gateway.Host.{
  Machine, Task, update_failure, build_json, ◌>>=◌, ◌>>◌, pure, lift, look, look_at, fail_if,
  execute, execute_shown, change, atomic_json,
}
use transparent_gateway.Tool.Settings.{has_part}
use transparent_gateway.Updater.Commands.{git}
use transparent_gateway.Updater.Images.{root_prefix, pin_images}

module _ (M : Machine) (root : Text) where
  -- The loop of `candidate` over the runtime files: none is tracked, and each is copied.
  unfoldable pub copy_runtime : (stage commit : Text) → List Text → Task (Unit {0})
  copy_runtime stage commit [] = pure tt
  copy_runtime stage commit (name ∷ names) = do
    tracked ← git M root (str "ls-tree" ∷ str "--name-only" ∷ commit ∷ str "--" ∷ name ∷ [])
    fail_if (not (tracked == [])) update_failure
    change M (str "mkdir") (stage ++ str "/" ++ name)
    change M (str "copy2") (stage ++ str "/" ++ name)
    _ ← look_at (λ w. M.stat w.trace (root ++ str "/" ++ name))
    change M (str "chown") (stage ++ str "/" ++ name)
    copy_runtime stage commit names

  -- The loop of `candidate` over the services: the image of each, pulled if it is not built.
  unfoldable pub choose_images : (commit : Text) → Fields → Fields → Task Fields
  choose_images commit pins end = pure pins
  choose_images commit pins (field name spec services) = do
    build ← lift (method_get spec (str "build"))
    image ←
        if truthy build
        then pure
            (text (str "tg-release-" ++ root_prefix M root ++ str "-" ++ name ++ str ":" ++ commit))
        else (do
          image ← lift (subscript spec (str "image"))
          execute_shown M (str "docker" ∷ str "pull" ∷ to_str M.runtime image ∷ []) root
          pure image)
    choose_images commit (put pins name (obj (field (str "image") image end))) services

  -- The loop of `candidate` over the images that were built or pulled: their identifiers.
  unfoldable pub identify : Fields → Fields → Task Fields
  identify images end = pure images
  identify images (field name pin pins) = do
    image ← lift (subscript pin (str "image"))
    id ←
        execute M
          (str "docker"
            ∷ str "image"
            ∷ str "inspect"
            ∷ str "--format"
            ∷ str "{{.Id}}"
            ∷ to_str M.runtime image
            ∷ [])
          root
    identify (put images name (text (strip id))) pins

  -- The guard on the script of the version to come.
  unfoldable pub supports_update : (stage : Text) → Task (Unit {0})
  supports_update stage = do
    found ← look (λ w. M.exists w.trace (stage ++ str "/scripts/tgctl.py"))
    fail_if (not found) update_failure
    script ← look_at (λ w. M.read_text w.trace (stage ++ str "/scripts/tgctl.py"))
    fail_if (not (has_part (str "UPDATE_API_VERSION = 1") script)) update_failure

  -- `candidate`
  unfoldable pub candidate :
      (stage : Text) (project : Value) (commit : Text) (previous : Fields)
      (runtime_names : List Text)
      → Task Value
  candidate stage project commit previous runtime_names = do
    git M root (str "worktree" ∷ str "add" ∷ str "--detach" ∷ stage ∷ commit ∷ [])
    supports_update stage
    copy_runtime stage commit runtime_names
    execute_shown M (M.executable ∷ (stage ++ str "/scripts/tgctl.py") ∷ str "check" ∷ []) stage
    let command =
        str "docker" ∷ str "compose" ∷ str "--project-name" ∷ to_str M.runtime project ∷ []
    rendered ← execute M (command ++ str "config" ∷ str "--format" ∷ str "json" ∷ []) stage
    config ← lift (or_raise (M.loads rendered) json_error)
    services ← lift (Py.◌>>=◌ (subscript config (str "services")) expect_dict)
    fail_if (not (same_keys services previous)) update_failure
    pins ← choose_images commit end services
    atomic_json M build_json (obj (field (str "services") (obj pins) end))
    execute_shown M
        (command
          ++ str "-f"
            ∷ (stage ++ str "/docker-compose.yml")
            ∷ str "-f"
            ∷ (stage ++ str "/update-build.json")
            ∷ str "build"
            ∷ [])
        stage
    images ← identify end pins
    pin_images M root project images

  is_kind : Value → Text → Bool
  is_kind v kind = value_eq M.runtime.eq M.int_float_eq v (text kind)

  -- The pair of a source and a target, in its place among sorted pairs.
  insert_pair : Text × Text → List (Text × Text) → List (Text × Text)
  insert_pair p [] = p ∷ []
  insert_pair p (q ∷ qs) =
      if text_lt p.0 q.0 || (p.0 == q.0 && text_lt p.1 q.1)
      then p ∷ q ∷ qs
      else q ∷ insert_pair p qs

  -- The named volumes of a service, sorted.
  unfoldable pub volume_pairs : List Value → Result (List (Text × Text))
  unfolding is_kind insert_pair
  volume_pairs [] = ok []
  volume_pairs (v ∷ vs) = Py.◌>>=◌ (subscript v (str "type")) λ kind.
      Py.◌>>=◌ (volume_pairs vs) λ pairs.
        if is_kind kind (str "volume")
        then Py.◌>>=◌ (Py.◌>>=◌ (subscript v (str "source")) expect_text) (λ source.
          Py.◌>>=◌ (Py.◌>>=◌ (subscript v (str "target")) expect_text)
            λ target. ok (insert_pair (source, target) pairs))
        else ok pairs

  pair_value : Text × Text → Value
  pair_value p = arr (of_items (text p.0 ∷ text p.1 ∷ []))

  pair_values : List (Text × Text) → List Value
  unfolding pair_value
  pair_values [] = []
  pair_values (p ∷ ps) = pair_value p ∷ pair_values ps

  unfoldable pub layout_from : Fields → Result Fields
  unfolding pair_values
  layout_from end = ok end
  layout_from (field name spec services) =
      Py.◌>>=◌ (Py.◌>>=◌ (method_get_default spec (str "volumes") (arr nil)) elements) λ volumes.
        Py.◌>>=◌ (volume_pairs volumes) λ pairs.
          Py.◌>>=◌ (layout_from services)
            λ rest. ok (field name (arr (of_items (pair_values pairs))) rest)

  -- `volume_layout`
  unfoldable pub volume_layout : Value → Result Fields
  volume_layout config =
      Py.◌>>=◌ (Py.◌>>=◌ (subscript config (str "services")) expect_dict) layout_from
