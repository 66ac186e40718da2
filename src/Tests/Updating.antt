-- ===== src/Tests/Updating.antt =====
-- An update that was interrupted: with `--recover` it is rolled back, without it is refused.
use transparent_gateway.Prelude.{
  ◌≡◌, refl, true, false, some, List, [], ◌∷◌, Text, str, ◌==◌, text_eq, text_beq, if◌then◌else◌,
}
use transparent_gateway.Prelude.Int.{pos}
use transparent_gateway.Python.{
  ok, Value, text, obj, Fields, field, end, subscript, strip, lstrip, rstrip, is_space, lookup,
  expect_dict, elements, same_keys, keys_within, value_eq, size, to_str, put, print_nat,
}
use transparent_gateway.Host.{
  Machine, returned, run_command, World, done, ◌>>=◌, fail_if, change, catch, execute_visible, pure,
  look, look_at, lift, atomic_json,
}
use transparent_gateway.Host.Ensures.{Meets}
use transparent_gateway.Host.Ensures.Seen.{Anything}
use transparent_gateway.Tool.Settings.{is_member}
use transparent_gateway.Tool.Services.{down}
use transparent_gateway.Tool.Commands.{
  run_compose_command, override_now, override_arguments, require_root,
}
use transparent_gateway.Tool.Services.Stopped.{SeesNone, down_stopped}
use transparent_gateway.Updater.Switch.{
  Args, is_interrupted, with_phase, update, locked, handled, begin, begin_with, check_checkout,
  compose_names, override_names, pending, pending_of, interrupted_journal, restore, restore_rest,
  restart, go_on, any_failure,
}
use transparent_gateway.Updater.Journal.Ends.{Run, Settled, Ends, Untouched}
use transparent_gateway.Updater.Journal.Run.{update-Ends}
use transparent_gateway.Updater.Journal.Refusal.{update_refused}
use transparent_gateway.Updater.Commands.{
  clean_checkout, git, run_compose, run_compose_shown, pinned_now, pinned_arguments, service,
  health, override_path,
}
use transparent_gateway.Updater.Images.{current_installation, read_rows}
use transparent_gateway.Tool.Systemd.{unit_path}
use transparent_gateway.Sources.Connectors.{split_lines, split_lines_from, is_break}
use transparent_gateway.Tests.Machines.{host}
use transparent_gateway.Tests.Sample.{sample_parsers}

abbrev pub one_word : Text → List Text
one_word s = if s == [] then [] else s ∷ []

abbrev pub old_images : Value
old_images = obj (field (str "name") (text (str "before")) end)

abbrev pub old_journal : Fields
old_journal = field (str "phase") (text (str "switching")) (
    field (str "previous_commit") (text (str "a1"))
      (field (str "previous_images") old_images (field (str "volumes") (obj end) end)))

abbrev pub interrupted_world : World
interrupted_world = record {
  transaction = some (obj old_journal);
  images = some (obj (field (str "name") (text (str "gateway")) end));
  trace = [];
}

abbrev pub recovering : Args
recovering = record { revision = str "main"; timeout = pos 300; recover = true }

abbrev pub updating : Args
updating = record { revision = str "main"; timeout = pos 300; recover = false }

-- The update returns, the images are the previous ones, and the journal is closed.
recovers : update host (str "/g") one_word sample_parsers recovering true interrupted_world ≡ (
  done tt,
  record {
    transaction = some (with_phase (str "rolled_back") old_journal);
    images = some old_images;
    trace =
        (update host (str "/g") one_word sample_parsers recovering true interrupted_world).1.trace;
  },
)
unfolding ◌>>=◌ fail_if change catch execute_visible pure look look_at lift atomic_json update
    locked handled begin begin_with check_checkout compose_names override_names pending pending_of
    interrupted_journal is_interrupted restore restore_rest restart go_on with_phase any_failure
    clean_checkout git run_compose run_compose_shown pinned_now pinned_arguments service health
    override_path current_installation read_rows strip lstrip rstrip is_space subscript lookup
    expect_dict elements same_keys keys_within value_eq size to_str put print_nat unit_path
    is_member split_lines split_lines_from is_break str text_beq
recovers = refl

abbrev recovery : Run
recovery = record {
  machine = host;
  start = interrupted_world;
  root = str "/g";
  words = one_word;
  parsers = sample_parsers;
  args = recovering;
}

update-Ends_example :
    Meets
      (λ _. Settled recovery)
      (Ends recovery)
      (update host (str "/g") one_word sample_parsers recovering true interrupted_world)
update-Ends_example = update-Ends recovery true refl

is_interrupted_old : is_interrupted (obj old_journal) ≡ ok true
unfolding is_interrupted subscript text_beq str is_member
is_interrupted_old = refl

update_refused_example :
    Meets
      (λ _ _. ⊥)
      (λ _. Untouched interrupted_world)
      (update host (str "/g") one_word sample_parsers updating true interrupted_world)
update_refused_example =
    update_refused host (str "/g") one_word sample_parsers updating true interrupted_world
      old_journal refl refl refl is_interrupted_old

-- A host on which every command succeeds and prints nothing.
abbrev silent : Machine
silent = record host { reply = λ _. returned 0 [] }

stops : (down silent (str "/g") true interrupted_world).0 ≡ done tt
unfolding down ◌>>=◌ fail_if look look_at run_compose_command override_now override_arguments
    require_root run_command strip lstrip rstrip unit_path subscript lookup to_str str text_beq
stops = refl

down_stopped_example :
    Meets
      (λ _. SeesNone silent (str "/g"))
      (λ _. Anything)
      (down silent (str "/g") true interrupted_world)
down_stopped_example = down_stopped silent (str "/g") true interrupted_world
