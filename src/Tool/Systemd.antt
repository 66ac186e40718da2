-- ===== src/Tool/Systemd.antt =====
-- The systemd unit of scripts/tgctl.py: `systemd_unit`, `write_systemd_unit`, `prepare_service` and
-- `install_service`.
use transparent_gateway.Prelude.{
  ◌+◌, ◌-◌, leb, Bool, not, ◌||◌, List, [], ◌∷◌, ◌++◌, Text, str, ◌==◌, nat_eq, any, if◌then◌else◌,
}
use transparent_gateway.Prelude.Int.{ℤ, pos, negsuc}
use transparent_gateway.Python.{is_space, print_int}
use transparent_gateway.Host.{
  Machine, Task, user_error, refused, ◌>>=◌, ◌>>◌, pure, fail_if, change, run_command, finally,
}

unfoldable pub unit_path : Text
unit_path = str "/etc/systemd/system/transparent-gateway.service"

-- `timeout + 60`
plus_minute : ℤ → ℤ
plus_minute (pos n) = pos (n + 60)
plus_minute (negsuc n) = if leb 60 n then negsuc (n - 60) else pos (59 - n)

-- A line of the unit.
line : Text → Text
line s = s ++ 10 ∷ []

-- What `systemd_unit` returns for a path that it accepts.
unfoldable pub unit_text : (root : Text) (timeout : ℤ) → Text
unfolding line plus_minute
unit_text root timeout =
    let script = root ++ str "/scripts/tgctl.py" in
    line (str "[Unit]")
    ++ line (str "Description=Transparent Gateway")
    ++ line (str "Wants=network-online.target")
    ++ line (str "Requires=docker.service")
    ++ line (str "After=network-online.target docker.service")
    ++ line []
    ++ line (str "[Service]")
    ++ line (str "Type=oneshot")
    ++ line (str "RemainAfterExit=yes")
    ++ line (str "WorkingDirectory=" ++ root)
    ++ line (
        str "ExecStart=/usr/bin/python3 "
        ++ script
        ++ str " up --timeout "
        ++ print_int timeout
        ++ str " --no-build --skip-service")
    ++ line (str "ExecStop=/usr/bin/python3 " ++ script ++ str " down --skip-service")
    ++ line (str "TimeoutStartSec=" ++ print_int (plus_minute timeout))
    ++ line (str "TimeoutStopSec=60")
    ++ line []
    ++ line (str "[Install]")
    ++ line (str "WantedBy=multi-user.target")

-- `any(char.isspace() or char == "%" for char in root + script)`
unfoldable pub is_unsafe_path : Text → Bool
is_unsafe_path root = any (λ c. is_space c || c == b'%') (root ++ root ++ str "/scripts/tgctl.py")

module _ (M : Machine) where
  -- The part of `write_systemd_unit` in its `try`: the file is made, written, given to root, and
  -- put in the unit's place.
  unfoldable pub replace_unit : Text → Task (Unit {0})
  replace_unit content = do
    change M (str "create") (unit_path ++ str ".tmp")
    change M (str "write " ++ content) (unit_path ++ str ".tmp")
    change M (str "chown") (unit_path ++ str ".tmp")
    change M (str "replace") unit_path

  -- `write_systemd_unit`; the `unlink` takes a missing file as well.
  unfoldable pub write_systemd_unit : Text → Task (Unit {0})
  write_systemd_unit content =
      finally (replace_unit content) (change M (str "unlink") (unit_path ++ str ".tmp"))

  -- A loop over commands, each of which must succeed.
  unfoldable pub run_all : Text → List (List Text) → Task (Unit {0})
  run_all root [] = pure tt
  run_all root (command ∷ commands) = do
    result ← run_command M command root
    fail_if (not (result.0 == 0)) (user_error refused)
    run_all root commands

  unfoldable pub prepare_commands : List (List Text)
  prepare_commands =
      (str "systemd-analyze" ∷ str "verify" ∷ unit_path ∷ [])
      ∷ (str "systemctl" ∷ str "daemon-reload" ∷ [])
      ∷ (str "systemctl" ∷ str "enable" ∷ str "transparent-gateway.service" ∷ [])
      ∷ []

  unfoldable pub install_commands : List (List Text)
  install_commands =
      (str "systemctl" ∷ str "restart" ∷ str "transparent-gateway.service" ∷ [])
      ∷ (str "systemctl" ∷ str "is-active" ∷ str "transparent-gateway.service" ∷ [])
      ∷ (str "systemctl" ∷ str "is-enabled" ∷ str "transparent-gateway.service" ∷ [])
      ∷ []

  -- `prepare_service`
  unfoldable pub prepare_service : (root : Text) (timeout : ℤ) → Task (Unit {0})
  prepare_service root timeout = do
    fail_if (is_unsafe_path root) (user_error refused)
    write_systemd_unit (unit_text root timeout)
    run_all root prepare_commands

  -- `install_service`
  unfoldable pub install_service : (root : Text) (timeout : ℤ) → Task (Unit {0})
  install_service root timeout = do prepare_service root timeout; run_all root install_commands
