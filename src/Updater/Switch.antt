-- ===== src/Updater/Switch.antt =====
-- `restore` and `update` of scripts/tg_update.py.
use transparent_gateway.Prelude.{
  Bool, true, false, not, ◌||◌, Option, none, some, List, [], ◌∷◌, ◌++◌, map, Text, str, ◌==◌,
  text_eq, any, contains, if◌then◌else◌,
}
use transparent_gateway.Prelude.Int.{ℤ, pos, leb_ℤ}
use transparent_gateway.Python.{
  Result, ok, err, json_error, Float, Value, text, obj, Fields, end, field, put, to_str, strip,
  startswith, subscript, method_get_default, expect_dict, value_eq, or_raise,
}
use transparent_gateway.Python as Py
use transparent_gateway.Host.{
  Machine, Task, Failure, update_failure, timeout_expired, fault, user_error, refused, busy,
  unswitched, previous_restored, recovery_failed, transaction_json, images_json, ◌>>=◌, ◌>>◌, pure,
  fail, lift, look, look_at, fail_if, execute, change, atomic_json, catch, finally,
}
use transparent_gateway.Sources.Connectors.{split_lines}
use transparent_gateway.Tool.Env.{Env, value_of}
use transparent_gateway.Tool.Settings.{Parsers, runtime_files, is_member}
use transparent_gateway.Tool.Commands.{load_and_validate, require_root}
use transparent_gateway.Tool.Systemd.{unit_path, prepare_service}
use transparent_gateway.Updater.Commands.{
  git, clean_checkout, runtime_fingerprint, run_compose, run_compose_shown, health, service,
}
use transparent_gateway.Updater.Images.{current_installation, pin_images}
use transparent_gateway.Updater.Candidate.{candidate, volume_layout}

pub record Args : Type 0 where
  pub revision : Text
  pub timeout : ℤ
  pub recover : Bool

-- What the update knows before it prepares the new version.
pub record Plan : Type 0 where
  pub project : Value
  pub images : Fields
  pub volumes : Fields
  pub previous : Text
  pub target : Text
  pub baseline : Value
  pub retained : Value

-- The journal that is written before the switch.
unfoldable pub journal_of : Plan → Fields
journal_of p = field (str "phase") (text (str "switching")) (
    field (str "previous_commit") (text p.previous) (
      field (str "target_commit") (text p.target)
        (field (str "previous_images") p.retained (field (str "volumes") (obj p.volumes) end))))

unfoldable pub with_phase : Text → Fields → Value
with_phase phase journal = obj (put journal (str "phase") (text phase))

-- `values.get(name)` as a condition
unfoldable pub is_given : Env → Text → Bool
is_given values name = elim (value_of name values) [ none ↦ false | some v ↦ not (v == []) ]

-- `old["phase"] not in {"complete", "rolled_back"}`
unfoldable pub is_interrupted : Value → Result Bool
is_interrupted old = Py.◌>>=◌ (subscript old (str "phase")) λ phase.
    Py.◌>>=◌ (is_member phase (contains (str "complete" ∷ str "rolled_back" ∷ [])))
      λ finished. ok (not finished)

-- A journal, if it is one of an interrupted update.
unfoldable pub interrupted_journal : Value → Result (Option Fields)
interrupted_journal old =
    Py.◌>>=◌ (is_interrupted old)
      λ interrupted. if interrupted then Py.◌>>=◌ (expect_dict old) (λ d. ok (some d)) else ok none

unfoldable pub any_failure : Failure → Bool
any_failure _ = true

-- The failures of the removal of a worktree that are passed over.
unfoldable pub is_cleanup_failure : Failure → Bool
is_cleanup_failure update_failure = true
is_cleanup_failure (fault timeout_expired) = true
is_cleanup_failure _ = false

-- The handler of the update while nothing is switched: `UserError` with the error's text.
unfoldable pub handled : {A : Type 0} → Task A → Task A
handled m = catch any_failure m (λ _. fail (user_error unswitched))

abbrev pub up_arguments : List Text
up_arguments = str "up" ∷ str "--detach" ∷ str "--no-build" ∷ str "--pull" ∷ str "never" ∷ []

module _ (M : Machine) (root : Text) (words : Text → List Text) where
  -- Whether two dicts of volumes are equal.
  abbrev pub same_volumes : Fields → Value → Bool
  same_volumes volumes v = value_eq M.runtime.eq M.int_float_eq (obj volumes) v

  -- The containers, stopped and started by Compose and by systemd.
  unfoldable pub restart : ℤ → Task (Unit {0})
  restart timeout = do
    since ← look (λ w. M.now w.trace)
    run_compose_shown M root up_arguments
    service M root (str "start")
    health M root timeout (some since)
    pure tt

  -- `restore`, behind the saving of the images
  unfoldable pub restore_rest : ℤ → Fields → Task (Unit {0})
  restore_rest timeout journal = do
    restart timeout
    found ← current_installation M root words
    volumes ← lift (subscript (obj journal) (str "volumes"))
    fail_if (not (same_volumes found.2 volumes)) update_failure
    atomic_json M transaction_json (with_phase (str "rolled_back") journal)

  -- `restore`
  unfoldable pub restore : ℤ → Fields → Task (Unit {0})
  restore timeout journal = do
    run_compose M root (str "stop" ∷ str "--timeout" ∷ str "20" ∷ [])
    service M root (str "stop")
    previous ← lift (subscript (obj journal) (str "previous_commit"))
    git M root (str "checkout" ∷ str "--detach" ∷ to_str M.runtime previous ∷ [])
    images ← lift (subscript (obj journal) (str "previous_images"))
    atomic_json M images_json images
    restore_rest timeout journal

  -- `any((root / name).exists() for name in (…))`
  unfoldable pub override_names : List Text
  override_names =
      str "compose.override.yml"
      ∷ str "compose.override.yaml"
      ∷ str "docker-compose.override.yml"
      ∷ str "docker-compose.override.yaml"
      ∷ []

  unfoldable pub compose_names : List Text
  compose_names = str "COMPOSE_FILE" ∷ str "COMPOSE_PROFILES" ∷ []

  -- The guards of `update` on the checkout, the environment and the unit; `root` is resolved.
  unfoldable pub check_checkout : Task (Unit {0})
  check_checkout = do
    clean_checkout M root
    fail_if (any (λ name. not (M.environ name == [])) compose_names) update_failure
    overridden ← look (λ w. any (λ name. M.exists w.trace (root ++ str "/" ++ name)) override_names)
    fail_if overridden update_failure
    installed ← look (λ w. M.exists w.trace unit_path)
    fail_if (not installed) update_failure
    unit ← look_at (λ w. M.read_text w.trace unit_path)
    fail_if (not (contains (split_lines unit) (str "WorkingDirectory=" ++ root))) update_failure

  -- The journal of an update that was interrupted.
  unfoldable pub pending_of : Option Value → Task (Option Fields)
  pending_of none = pure none
  pending_of (some old) = lift (interrupted_journal old)

  unfoldable pub pending : Task (Option Fields)
  pending = do found ← look (λ w. w.transaction); pending_of found

  -- The names of `ctl.RUNTIME_FILES`.
  abbrev pub runtime_names : List Text
  runtime_names = map (λ file. file.0) runtime_files

  module _ (parsers : Parsers) (args : Args) where
    -- `update` once no interrupted update is found, up to the images that it keeps; `none` if the
    -- target is what runs.
    unfoldable pub make_plan : Task (Option Plan)
    make_plan = do
      loaded ← load_and_validate M parsers root
      fail_if (any (is_given loaded.values) compose_names) update_failure
      health M root args.timeout none
      installed ← current_installation M root words
      previous ← git M root (str "rev-parse" ∷ str "HEAD" ∷ [])
      fail_if (startswith args.revision (str "-") || strip args.revision == []) update_failure
      git M root (str "fetch" ∷ str "--no-tags" ∷ str "origin" ∷ args.revision ∷ [])
      target ← git M root (str "rev-parse" ∷ str "--verify" ∷ str "FETCH_HEAD^{commit}" ∷ [])
      (if target == previous then pure none else (do
        baseline ← runtime_fingerprint M root runtime_names
        retained ← pin_images M root installed.0 installed.1
        pure (
            some (record {
              project = installed.0;
              images = installed.1;
              volumes = installed.2;
              previous = previous;
              target = target;
              baseline = baseline;
              retained = retained;
            }))))

    -- The update with the journal of an interrupted one, or without: a recovery ends it.
    unfoldable pub begin_with : Option Fields → Task (Option Plan)
    begin_with (some old) = do
      fail_if (not args.recover) update_failure
      restore args.timeout old
      pure none
    begin_with none = do fail_if args.recover update_failure; make_plan

    -- `update` up to the preparation of the new version
    unfoldable pub begin : Task (Option Plan)
    begin = do check_checkout; interrupted ← pending; begin_with interrupted

    -- `docker compose config` of the old and of the new version, with the volumes and Redis equal
    unfoldable pub same_layout : Value → Value → Result Bool
    same_layout old new = Py.◌>>=◌ (method_get_default old (str "volumes") (obj end)) λ old_volumes.
        Py.◌>>=◌ (method_get_default new (str "volumes") (obj end)) λ new_volumes.
          if not (value_eq M.runtime.eq M.int_float_eq old_volumes new_volumes)
          then ok false
          else (Py.◌>>=◌ (volume_layout M root old) λ old_layout.
              Py.◌>>=◌ (volume_layout M root new)
                λ new_layout. ok (same_volumes old_layout (obj new_layout)))

    redis_of : Value → Result Value
    redis_of config =
        Py.◌>>=◌ (subscript config (str "services")) λ services. subscript services (str "redis")

    unfoldable pub same_redis : Value → Value → Result Bool
    unfolding redis_of
    same_redis old new = Py.◌>>=◌ (redis_of old) λ old_redis.
        Py.◌>>=◌ (redis_of new)
          λ new_redis. ok (value_eq M.runtime.eq M.int_float_eq old_redis new_redis)

    -- The guards between the preparation and the switch: nothing moved, and no migration is needed.
    unfoldable pub check_layout : (stage : Text) → Plan → Task (Unit {0})
    check_layout stage p = do
      let command =
          str "docker" ∷ str "compose" ∷ str "--project-name" ∷ to_str M.runtime p.project ∷ []
      old_text ←
          execute M
            (command
              ++ str "-f"
                ∷ (root ++ str "/docker-compose.yml")
                ∷ str "config"
                ∷ str "--format"
                ∷ str "json"
                ∷ [])
            root
      old ← lift (or_raise (M.loads old_text) json_error)
      new_text ← execute M (command ++ str "config" ∷ str "--format" ∷ str "json" ∷ []) stage
      new ← lift (or_raise (M.loads new_text) json_error)
      layout ← lift (same_layout old new)
      fail_if (not layout) update_failure
      redis ← lift (same_redis old new)
      fail_if (not redis) update_failure

    -- From the worktree to the journal: the images of the new version.
    unfoldable pub prepare : (stage : Text) → Plan → Task Value
    prepare stage p = do
      change M (str "rmdir") stage
      pins ← candidate M root stage p.project p.target p.images runtime_names
      clean_checkout M root
      fingerprint ← runtime_fingerprint M root runtime_names
      fail_if (not (value_eq M.runtime.eq M.int_float_eq fingerprint p.baseline)) update_failure
      check_layout stage p
      atomic_json M transaction_json (obj (journal_of p))
      pure pins

    -- The switch, behind the saving of the images.
    unfoldable pub switch_rest : Plan → Task (Unit {0})
    switch_rest p = do
      restart args.timeout
      after ← current_installation M root words
      fail_if (not (same_volumes after.2 (obj p.volumes))) update_failure
      fingerprint ← runtime_fingerprint M root runtime_names
      fail_if (not (value_eq M.runtime.eq M.int_float_eq fingerprint p.baseline)) update_failure
      atomic_json M transaction_json (with_phase (str "complete") (journal_of p))

    -- The switch, from the journal to its end.
    unfoldable pub switch : Plan → (pins : Value) → Task (Unit {0})
    switch p pins = do
      prepare_service M root args.timeout
      service M root (str "stop")
      git M root (str "checkout" ∷ str "--detach" ∷ p.target ∷ [])
      atomic_json M images_json pins
      switch_rest p

    -- The handler of the update once it has switched.
    unfoldable pub recover_switch : Plan → Failure → Task (Unit {0})
    recover_switch p e = do
      catch any_failure (restore args.timeout (journal_of p))
          (λ _. fail (user_error recovery_failed))
      fail (user_error previous_restored)

    -- `git worktree remove` in the `finally` of the update.
    unfoldable pub remove_stage : (stage : Text) → Task (Unit {0})
    remove_stage stage =
        catch is_cleanup_failure
          (do git M root (str "worktree" ∷ str "remove" ∷ str "--force" ∷ stage ∷ []); pure tt)
          (λ _. pure tt)

    -- The update with its worktree.
    unfoldable pub staged : (stage : Text) → Plan → Task (Unit {0})
    staged stage p =
        finally
          (do
            pins ← handled (prepare stage p)
            catch any_failure (switch p pins) (recover_switch p))
          (remove_stage stage)

    -- `tempfile.mkdtemp`
    unfoldable pub make_stage : Task Text
    make_stage = do
      stage ← look (λ w. root ++ str "/runtime/update/candidate-" ++ M.made_up w.trace)
      change M (str "mkdtemp") stage
      pure stage

    -- What follows `begin`: nothing, or the update by the plan.
    unfoldable pub go_on : Option Plan → Task (Unit {0})
    go_on none = pure tt
    go_on (some p) = do stage ← handled make_stage; staged stage p

    -- The update with its lock.
    unfoldable pub locked : Task (Unit {0})
    locked = do found ← handled begin; go_on found

    -- `update` of scripts/tg_update.py, with the lock or without it
    unfoldable pub update : (is_free : Bool) → Task (Unit {0})
    update is_free = do
      fail_if (leb_ℤ args.timeout (pos 0)) (user_error refused)
      change M (str "mkdir") (root ++ str "/runtime/update")
      change M (str "chmod") (root ++ str "/runtime/update")
      change M (str "open") (root ++ str "/runtime/update/lock")
      fail_if (not is_free) (user_error busy)
      locked

    -- `update` of scripts/tgctl.py
    unfoldable pub update_command : (is_free : Bool) → Task (Unit {0})
    update_command is_free = do require_root M; update is_free
