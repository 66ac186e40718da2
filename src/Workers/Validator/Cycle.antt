-- ===== src/Workers/Validator/Cycle.antt =====
-- `cycle` of validator/validator.py. The credential store is read by the candidates in their order,
-- which is the order in which the semaphore lets them in; of several exceptions the first in that
-- order stands for the first in time.
pub mod Streaks
pub mod Probed
pub mod Published
use transparent_gateway.Prelude.{
  ℕ, suc, ◌+◌, ◌≡◌, refl, Bool, true, false, not, ◌&&◌, ◌||◌, Option, none, some, List, [], ◌∷◌,
  ◌++◌, map, Text, str, ◌==◌, nat_eq, text_eq, length, if◌then◌else◌,
}
use transparent_gateway.Prelude.Int.{ℤ, pos, ltb_ℤ}
use transparent_gateway.Python.{
  value_error, type_error, Result, ok, err, raise_if, or_raise, Value, Fields, null, text, int, obj,
  arr, of_items, end, field, get, get_default, put, lookup, as_dict, as_list, Runtime, to_str,
  to_int, strip, split_all, parse_int, subscript,
}
use transparent_gateway.Python as Py
use transparent_gateway.Wire.{Conn}
use transparent_gateway.Credentials.{CredentialStore, new_store}
use transparent_gateway.Sources.Candidate.{ProxyCandidate}
use transparent_gateway.Storage.{
  Action, ◌>>=◌, ◌>>◌, give, raw_key, validated_key, read_snapshot, publish_snapshot, set_key,
}
use transparent_gateway.Asn.{Reader, AsnResolver, resolver_from, enter}
use transparent_gateway.Probe.Anonymity.{CheckTarget, SplitUrl, EchoObservation, parse_target}
use transparent_gateway.Probe.Exchange.{direct_exchange}
use transparent_gateway.Workers.Ranker.{env_or, env_float}
use transparent_gateway.Workers.Fetcher.{read_candidates}
use transparent_gateway.Workers.Validator.{Encounter, next, probe}

-- The streak of an address; a new address has none.
unfoldable pub streak_of : Fields → Text → ℤ
streak_of streaks address = elim (lookup address streaks) [ some (int n) ↦ n | _ ↦ pos 0 ]

-- A target of the probes, with the identities that must not leak.
pub record Place : Type 0 where
  pub target : CheckTarget
  pub identities : List Text

-- Whether a candidate is the proxy of the lab.
unfoldable pub is_lab_proxy : ProxyCandidate → Bool
is_lab_proxy c =
    c.host == str "172.30.40.11"
    && c.port == 3128
    && elim c.credential_ref [ none ↦ false | some r ↦ r == str "lab-proxy" ]

unfoldable pub place_for : (lab : Option Place) (usual : Place) → ProxyCandidate → Place
place_for none usual c = usual
place_for (some lab) usual c = if is_lab_proxy c then lab else usual

-- The parts of `ANONYMITY_CLIENT_IPS` that are not blank.
unfoldable pub client_ips : List Text → List Text
client_ips [] = []
client_ips (part ∷ parts) =
    let rest = client_ips parts in if strip part == [] then rest else strip part ∷ rest

-- What a cycle meets: the environment, the connections to a target, the database of networks, what
-- the probe of the n-th candidate meets, two clock readings and two identifiers.
pub record Surroundings : Type 0 where
  pub getenv : Text → Option Text
  pub dial : CheckTarget → Result Conn
  pub available : CheckTarget → ℕ
  pub closing : CheckTarget → Result (Unit {0})
  -- the interval of the credential store, in the unit of its clock
  pub one_second : ℕ
  pub asn_now : ℕ
  pub asn_modified : Option ℕ
  pub asn_opened : Option Reader
  pub encounter : ℕ → Encounter
  pub completed_at : ℤ
  pub generated_at : ℤ
  pub cycle_id : Text
  pub uuid : Text

-- `cycle_state`
unfoldable pub cycle_state : Surroundings → (healthy checked : ℕ) → Fields
cycle_state s healthy checked = field (str "id") (text s.cycle_id) (
    field (str "completed_at") (int s.completed_at)
      (field (str "healthy") (int (pos healthy)) (field (str "checked") (int (pos checked)) end)))

-- `snapshot` of the cycle
unfoldable pub validated_snapshot :
    Surroundings → (raw : Fields) (checked : ℕ) → List Fields → Fields
validated_snapshot s raw checked entries =
    field (str "validator_cycle") (obj (cycle_state s (length entries) checked)) (
      field (str "generated_at") (int s.generated_at) (
        field (str "entries") (arr (of_items (map obj entries)))
          (field (str "source_generated_at") (get raw (str "generated_at")) end)))

unfoldable pub last_success_key : Text
last_success_key = str "validator:last_success:v1"

module _ (R : Runtime) where
  -- The loop of `previous_streaks` over the entries of the previous snapshot.
  unfoldable pub streaks_from : Fields → List Value → Result Fields
  streaks_from streaks [] = ok streaks
  streaks_from streaks (v ∷ vs) = elim (as_dict v) [
    | none ↦ streaks_from streaks vs
    | some entry ↦
        Py.◌>>=◌ (to_int R (get_default entry (str "success_streak") (int (pos 0))))
          λ n. streaks_from (put streaks (to_str R (get entry (str "address"))) (int n)) vs
  ]

  -- `previous_streaks`
  unfoldable pub previous_streaks : Option Fields → Result Fields
  previous_streaks none = ok end
  previous_streaks (some previous) =
      Py.◌>>=◌ (or_raise (as_list (get previous (str "entries"))) type_error) (streaks_from end)

  -- The loop over the checked candidates.
  unfoldable pub passed_entries : Fields → List (Option Fields) → Result (List Fields)
  passed_entries streaks [] = ok []
  passed_entries streaks (none ∷ checked) = passed_entries streaks checked
  passed_entries streaks (some result ∷ checked) =
      Py.◌>>=◌ (subscript (obj result) (str "address")) λ address.
        Py.◌>>=◌ (passed_entries streaks checked) λ entries. ok (
          put result (str "success_streak") (int (next (streak_of streaks (to_str R address))))
          ∷ entries)

  -- `VALIDATION_CONCURRENCY` and `PROXY_VALIDATION_TIMEOUT_SECONDS`, which must be positive
  unfoldable pub check_limits : (Text → Option Text) → Result (Unit {0})
  check_limits getenv =
      Py.◌>>=◌
        (or_raise (parse_int (env_or getenv (str "VALIDATION_CONCURRENCY") (str "100")))
          value_error)
        λ concurrency. Py.◌>>=◌ (raise_if (ltb_ℤ concurrency (pos 1)) value_error) λ _.
          Py.◌>>=◌ (env_float R getenv (str "PROXY_VALIDATION_TIMEOUT_SECONDS") (str "8"))
            λ timeout.
              raise_if (R.lt timeout (R.of_int (pos 0)) || R.eq timeout (R.of_int (pos 0)))
                value_error

module _ (R : Runtime) (urlsplit : Text → Result SplitUrl) (loads : Text → Option Value)
    (sha256 : Text → Text) (s : Surroundings) where
  -- `direct_observation` of a target
  abbrev pub direct_observation : CheckTarget → Result EchoObservation
  direct_observation target =
      direct_exchange R loads (s.available target) (s.closing target) target (s.dial target)

  -- `lab_target`
  unfoldable pub lab_target : Result (Option CheckTarget)
  lab_target =
      if env_or s.getenv (str "LAB_LOCAL_ECHO_ENABLED") [] == str "1"
      then (Py.◌>>=◌ (urlsplit (str "http://172.30.40.10:8000/"))
          λ url. Py.◌>>=◌ (parse_target url) λ target. ok (some target))
      else ok none

  -- The lab with its baseline.
  unfoldable pub lab_place : Option CheckTarget → Result (Option Place)
  lab_place none = ok none
  lab_place (some target) =
      Py.◌>>=◌ (direct_observation target)
        λ baseline. ok (some (record { target = target; identities = baseline.peer ∷ [] }))

  -- The target of the settings with its baseline and the clients' addresses.
  unfoldable pub usual_place : CheckTarget → Result Place
  usual_place target = Py.◌>>=◌ (direct_observation target) λ baseline. ok (record {
    target = target;
    identities =
        baseline.peer
        ∷ client_ips (split_all b',' (env_or s.getenv (str "ANONYMITY_CLIENT_IPS") []));
  })

  -- Both places, after the limits.
  unfoldable pub places : Result (Option Place × Place)
  places = Py.◌>>=◌ (check_limits R s.getenv) λ _.
      Py.◌>>=◌ (urlsplit (env_or s.getenv (str "ANONYMITY_CHECK_URL") [])) λ url.
        Py.◌>>=◌ (parse_target url) λ target. Py.◌>>=◌ lab_target λ lab.
          Py.◌>>=◌ (lab_place lab)
            λ lab_found. Py.◌>>=◌ (usual_place target) λ usual. ok (lab_found, usual)

  -- `AsnResolver.from_environment()`, entered
  unfoldable pub open_resolver : Result AsnResolver
  open_resolver =
      Py.◌>>=◌
        (resolver_from (s.getenv (str "ASN_MAX_DATABASE_AGE_SECONDS"))
          (s.getenv (str "ASN_DATABASE_PATH")))
        λ resolver. enter resolver s.asn_now s.asn_modified s.asn_opened

  -- The probes of the candidates, from the n-th on.
  unfoldable pub check_all :
      (lab : Option Place) (usual : Place)
      → AsnResolver
      → CredentialStore
      → ℕ
      → List ProxyCandidate
      → Result (List (Option Fields))
  check_all lab usual resolver store n [] = ok []
  check_all lab usual resolver store n (c ∷ cs) =
      let place = place_for lab usual c in
      let (result, store') =
        probe R loads sha256 store (s.encounter n) c place.target place.identities resolver in
      let rest = check_all lab usual resolver store' (suc n) cs in
      Py.◌>>=◌ result λ checked. Py.◌>>=◌ rest λ others. ok (checked ∷ others)

  -- The entries that the cycle publishes.
  unfoldable pub checked_entries : Option Fields → List ProxyCandidate → Result (List Fields)
  checked_entries previous candidates = Py.◌>>=◌ (previous_streaks R previous) λ streaks.
      Py.◌>>=◌ places λ (lab, usual). Py.◌>>=◌ open_resolver λ resolver.
        Py.◌>>=◌ (check_all lab usual resolver (new_store s.one_second) 0 candidates)
          λ checked. passed_entries R streaks checked

  -- `json.dumps` with the options of `publish_snapshot`, and without options
  module _ (dumps plain_dumps : Value → Text) where
    -- `if entries: await client.set("validator:last_success:v1", …)`
    unfoldable pub note_success : (checked : ℕ) → List Fields → Action (Unit {0})
    note_success checked [] = give (ok tt)
    note_success checked (entry ∷ entries) =
        set_key last_success_key
          (plain_dumps (obj (cycle_state s (length (entry ∷ entries)) checked)))

    -- The writes of a cycle, and its result.
    unfoldable pub publish_entries :
        (raw : Fields) (checked : ℕ) → List Fields → Action (Option (ℕ × ℕ))
    publish_entries raw checked entries = do
      publish_snapshot dumps s.uuid validated_key (validated_snapshot s raw checked entries)
      note_success checked entries
      give (ok (some (length entries, checked)))

    -- The part of `cycle` behind the raw entries.
    unfoldable pub validate : (raw : Fields) → List ProxyCandidate → Action (Option (ℕ × ℕ))
    validate raw candidates = do
      previous ← read_snapshot loads validated_key
      entries ← give (checked_entries previous candidates)
      publish_entries raw (length candidates) entries

    -- The part of `cycle` behind the reading of the raw snapshot.
    unfoldable pub validate_raw : Option Fields → Action (Option (ℕ × ℕ))
    validate_raw none = give (ok none)
    validate_raw (some raw) = do
      values ← give (or_raise (as_list (get raw (str "entries"))) type_error)
      candidates ← give (read_candidates R values)
      validate raw candidates

    -- `cycle`
    unfoldable pub cycle : Action (Option (ℕ × ℕ))
    cycle = do raw ← read_snapshot loads raw_key; validate_raw raw
