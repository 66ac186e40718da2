-- ===== src/Tool/Services.antt =====
-- `up`, `down`, `wait` and `active_snapshot` of scripts/tgctl.py.
pub mod Stopped
use transparent_gateway.Prelude.{
  ℕ, zero, suc, ◌≡◌, Bool, true, false, not, ◌||◌, Option, none, some, List, [], ◌∷◌, ◌++◌, Text,
  str, ◌==◌, nat_eq, text_eq, if◌then◌else◌,
}
use transparent_gateway.Prelude.Int.{ℤ}
use transparent_gateway.Python.{
  Result, ok, err, json_error, key_error, Value, Fields, arr, nil, cons, obj, get, subscript, strip,
  or_raise, as_dict, as_list, truthy,
}
use transparent_gateway.Python as Py
use transparent_gateway.Host.{
  Machine, World, Task, Outcome, done, Event, Failure, exception, user_error, refused, ◌>>=◌, ◌>>◌,
  pure, fail, lift, look, fail_if, change, run_command,
}
use transparent_gateway.Tool.Settings.{Parsers}
use transparent_gateway.Tool.Commands.{
  compose_command, override_now, run_compose_command, require_root, load_and_validate,
}
use transparent_gateway.Tool.Systemd.{install_service, unit_path}

module _ (M : Machine) (root : Text) where
  -- What `active_snapshot` makes of the text that Redis returns.
  unfoldable pub decode_active : Text → Result (Option Fields)
  decode_active output = Py.◌>>=◌ (or_raise (M.loads output) json_error) λ v. elim (as_dict v) [
    | none ↦ ok none
    | some d ↦ elim (as_list (get d (str "entries"))) [ none ↦ ok none | some _ ↦ ok (some d) ]
  ]

  -- `active_snapshot`
  unfoldable pub active_snapshot : Task (Option Fields)
  active_snapshot = do
    result ← run_compose_command M root (
        str "exec"
        ∷ str "-T"
        ∷ str "redis"
        ∷ str "redis-cli"
        ∷ str "--raw"
        ∷ str "GET"
        ∷ str "proxy_pool:active:v1"
        ∷ [])
    (if not (result.0 == 0) || strip result.1 == []
        then pure none
        else lift (decode_active result.1))

  -- `snapshot and snapshot["entries"]`
  unfoldable pub is_filled : Option Fields → Bool
  is_filled none = false
  is_filled (some d) = truthy (get d (str "entries"))

  -- A turn of `wait`: whether the pool is ready.
  unfoldable pub poll : Task Bool
  poll = do
    snapshot ← active_snapshot
    elim snapshot [
      | none ↦ pure false
      | some d ↦
          if is_filled (some d)
          then lift (Py.◌>>=◌ (subscript (obj d) (str "generated_at")) λ _. ok true)
          else pure false
    ]

  -- The loop of `wait`, with as many turns as the deadline leaves.
  unfoldable pub poll_loop : ℕ → Task (Unit {0})
  poll_loop zero = fail (user_error refused)
  poll_loop (suc turns) = do
    is_ready ← poll
    let rest = poll_loop turns
    elim is_ready [ true ↦ pure tt | false ↦ rest ]

  -- `wait`
  unfoldable pub wait : ℕ → Task (Unit {0})
  wait turns = do require_root M; poll_loop turns

  -- `down`: the service or the containers are stopped, and then nothing may be running.
  unfoldable pub down : (skip_service : Bool) → Task (Unit {0})
  down skip_service = do
    require_root M
    installed ← look (λ w. M.exists w.trace unit_path)
    stopped ←
        if installed
        then (if skip_service
            then run_compose_command M root (str "stop" ∷ str "--timeout" ∷ str "20" ∷ [])
            else run_command M
                (str "systemctl" ∷ str "stop" ∷ str "transparent-gateway.service" ∷ []) root)
        else run_compose_command M root (str "stop" ∷ str "--timeout" ∷ str "20" ∷ [])
    fail_if (not (stopped.0 == 0)) (user_error refused)
    running ←
        run_compose_command M root (str "ps" ∷ str "--status" ∷ str "running" ∷ str "--quiet" ∷ [])
    fail_if (not (running.0 == 0)) (user_error refused)
    fail_if (not (strip running.1 == [])) (user_error refused)

  -- `"--no-build" if args.no_build or images.exists() else "--build"`
  unfoldable pub build_flag : Bool → Option Value → Text
  build_flag no_build images =
      if no_build || elim images [ none ↦ false | some _ ↦ true ]
      then str "--no-build"
      else str "--build"

  -- `up`
  unfoldable pub up :
      (parsers : Parsers) (no_build skip_service : Bool) (timeout : ℤ) (turns : ℕ) → Task (Unit {0})
  up parsers no_build skip_service timeout turns = do
    require_root M
    _ ← load_and_validate M parsers root
    pinned ← override_now M root
    flag ← look (λ w. build_flag no_build w.images)
    result ←
        run_command M (compose_command M root pinned (str "up" ∷ str "--detach" ∷ flag ∷ [])) root
    fail_if (not (result.0 == 0)) (user_error refused)
    wait turns
    if skip_service then pure tt else install_service M root timeout
