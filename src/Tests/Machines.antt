-- ===== src/Tests/Machines.antt =====
-- A host that answers every command, with an installation of no services.
use transparent_gateway.Prelude.{
  false, Option, some, List, [], ◌∷◌, Text, str, ◌==◌, text_eq, if◌then◌else◌,
}
use transparent_gateway.Python.{ok, err, os_error, Value, bits, text, arr, nil, obj, field, end}
use transparent_gateway.Host.{Machine, Event, ran, Reply, returned}
use transparent_gateway.Tool.Systemd.{unit_path}
use transparent_gateway.Tests.Sample.{sample}

-- The answer to a command is its second word, and to git nothing.
abbrev pub answer : List Event → Reply
answer (ran (program ∷ word ∷ _) _ ∷ _) = returned 0 (if program == str "git" then [] else word)
answer _ = returned 0 []

abbrev pub no_services : Value
no_services = obj (field (str "name") (text (str "gateway")) (field (str "services") (obj end) end))

abbrev pub loads_answer : Text → Option Value
loads_answer s = if s == str "compose" then some no_services else some (arr nil)

abbrev pub host : Machine
host = record {
  reply = answer;
  replaced = λ _. false;
  exists = λ _ path. path == unit_path;
  read_text = λ _ _. ok (str "WorkingDirectory=/g");
  stat = λ _ _. err os_error;
  lstat = λ _ _. err os_error;
  environ = λ _. [];
  loads = loads_answer;
  sha256 = λ s. s;
  euid = 0;
  executable = str "python3";
  now = λ _. bits 0;
  made_up = λ _. str "x";
  runtime = sample;
  int_float_eq = λ _ _. false;
}
