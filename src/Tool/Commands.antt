-- ===== src/Tool/Commands.antt =====
-- `compose_command`, `run`, `require_root` and `load_and_validate` of scripts/tgctl.py.
use transparent_gateway.Prelude.{
  ℕ, not, Option, none, some, List, [], ◌∷◌, ◌++◌, Text, str, ◌==◌, nat_eq, text_eq,
}
use transparent_gateway.Python.{
  Result, ok, err, Exception, key_error, index_error, type_error, attribute_error, json_error,
  value_error, is_value_error, Value, null, bool, int, float, text, arr, obj, items, Fields, end,
  field, of_items, truthy, get, has_key, method_get, elements, subscript, value_eq, parse_int,
  startswith, or_raise, as_list,
}
use transparent_gateway.Python as Py
use transparent_gateway.Host.{
  Machine, World, Task, Event, Failure, exception, fault, user_error, refused, Outcome, done,
  failed, lift, look_at, look, fail_if, pure, run_command,
}
use transparent_gateway.Host as Host
use transparent_gateway.Tool.Env.{Checked, fine, bad}
use transparent_gateway.Tool.Settings.{Loaded, Parsers, load_settings}

abbrev pub give : {A : Type 0} → Checked A → Outcome A
give (fine a) = done a
give (bad e) = failed e

-- `require_root`
unfoldable pub require_root : Machine → Task (Unit {0})
require_root M = fail_if (not (M.euid == 0)) (user_error refused)

module _ (M : Machine) (root : Text) where
  -- The override file of `compose_command`, once images are pinned.
  unfoldable pub override_arguments : Option Value → Result (List Text)
  override_arguments none = ok []
  override_arguments (some override) = Py.◌>>=◌ (subscript override (str "name")) λ project. ok (
      str "--project-name"
      ∷ Py.to_str M.runtime project
      ∷ str "-f"
      ∷ (root ++ str "/docker-compose.yml")
      ∷ str "-f"
      ∷ (root ++ str "/runtime/update/images.json")
      ∷ [])

  -- `compose_command`, given what it adds
  abbrev pub compose_command : (pinned arguments : List Text) → List Text
  compose_command pinned arguments = str "docker" ∷ str "compose" ∷ (pinned ++ arguments)

  -- What `compose_command` adds, by the override file as it is now.
  unfoldable pub override_now : Task (List Text)
  override_now = look_at (λ w. override_arguments w.images)

  -- `run(["docker", "compose", …])`
  unfoldable pub run_compose_command : List Text → Task (ℕ × Text)
  run_compose_command arguments =
      Host.◌>>=◌ override_now λ pinned. run_command M (compose_command pinned arguments) root

module _ (M : Machine) (parsers : Parsers) (root : Text) where
  unfoldable pub settings_now : Task Loaded
  settings_now w = (give (load_settings M parsers root w.trace), w)

  -- `load_and_validate`
  unfoldable pub load_and_validate : Task Loaded
  load_and_validate = Host.◌>>=◌ settings_now λ loaded.
      Host.◌>>=◌ (run_compose_command M root (str "config" ∷ str "--quiet" ∷ []))
        λ result. Host.◌>>◌ (fail_if (not (result.0 == 0)) (user_error refused)) (pure loaded)
