-- ===== src/Updater/Commands.antt =====
-- The commands of scripts/tg_update.py and what it asks of the checkout.
use transparent_gateway.Prelude.{
  not, Option, none, some, List, [], ◌∷◌, ◌++◌, Text, str, ◌==◌, text_eq,
}
use transparent_gateway.Prelude.Int.{ℤ, pos}
use transparent_gateway.Python.{
  Result, ok, err, Float, Value, int, float, text, arr, obj, of_items, end, field, subscript,
  to_str, print_int, strip, put, Fields,
}
use transparent_gateway.Python as Py
use transparent_gateway.Host.{
  Machine, Task, Event, update_failure, ◌>>=◌, pure, look_at, fail_if, execute, execute_shown,
}

-- `root / "runtime/update/images.json"`
unfoldable pub override_path : Text → Text
override_path root = root ++ str "/runtime/update/images.json"

module _ (M : Machine) (root : Text) where
  -- `git`
  unfoldable pub git : List Text → Task Text
  git arguments = do
    output ← execute M (str "git" ∷ str "-c" ∷ (str "safe.directory=" ++ root) ∷ arguments) root
    pure (strip output)

  -- `clean_checkout`
  unfoldable pub clean_checkout : Task (Unit {0})
  clean_checkout = do
    changes ← git (str "status" ∷ str "--porcelain" ∷ str "--untracked-files=no" ∷ [])
    fail_if (not (changes == [])) update_failure

  -- `runtime_fingerprint` of one file: the hash, the user, the group and the mode
  unfoldable pub fingerprint_of : List Event → Text → Result Value
  fingerprint_of trace name = Py.◌>>=◌ (M.stat trace (root ++ str "/" ++ name)) λ info.
      Py.◌>>=◌ (M.read_text trace (root ++ str "/" ++ name)) λ content. ok (
        arr (
          of_items (
            text (M.sha256 content) ∷ int (pos info.0) ∷ int (pos info.1) ∷ int (pos info.2) ∷ [])))

  unfoldable pub fingerprint_from : List Event → Fields → List Text → Result Value
  fingerprint_from trace found [] = ok (obj found)
  fingerprint_from trace found (name ∷ names) =
      Py.◌>>=◌ (fingerprint_of trace name) λ v. fingerprint_from trace (put found name v) names

  -- `runtime_fingerprint`
  unfoldable pub runtime_fingerprint : List Text → Task Value
  runtime_fingerprint names = look_at (λ w. fingerprint_from w.trace end names)

  -- The project and the override file that `compose` adds once images are pinned.
  unfoldable pub pinned_arguments : Option Value → Result (List Text)
  pinned_arguments none = ok []
  pinned_arguments (some override) = Py.◌>>=◌ (subscript override (str "name")) λ project. ok (
      str "--project-name"
      ∷ to_str M.runtime project
      ∷ str "-f"
      ∷ (root ++ str "/docker-compose.yml")
      ∷ str "-f"
      ∷ override_path root
      ∷ [])

  -- `compose`, given what it adds
  abbrev pub compose : (pinned arguments : List Text) → List Text
  compose pinned arguments = str "docker" ∷ str "compose" ∷ (pinned ++ arguments)

  -- What `compose` adds, by the override file as it is now.
  unfoldable pub pinned_now : Task (List Text)
  pinned_now = look_at (λ w. pinned_arguments w.images)

  -- `execute(compose(root, …), root)`, without and with its output shown
  unfoldable pub run_compose : List Text → Task Text
  run_compose arguments = do pinned ← pinned_now; execute M (compose pinned arguments) root

  unfoldable pub run_compose_shown : List Text → Task Text
  run_compose_shown arguments = do
    pinned ← pinned_now
    execute_shown M (compose pinned arguments) root

  -- `["--since", str(since)]`
  since_arguments : Option Float → List Text
  since_arguments none = []
  since_arguments (some since) = str "--since" ∷ to_str M.runtime (float since) ∷ []

  -- `health`
  unfoldable pub health : ℤ → Option Float → Task Text
  unfolding since_arguments
  health timeout since =
      execute_shown M
        (M.executable
          ∷ (root ++ str "/scripts/tgctl.py")
          ∷ str "ready"
          ∷ str "--timeout"
          ∷ to_str M.runtime (int timeout)
          ∷ since_arguments since)
        root

  -- `service`
  unfoldable pub service : Text → Task Text
  service action =
      execute M (str "systemctl" ∷ action ∷ str "transparent-gateway.service" ∷ []) root
