-- ===== src/Workers/Validator/Cycle/Published.antt =====
-- What a cycle of validator/validator.py leaves in Redis if no command fails.
use transparent_gateway.Prelude.{
  ℕ, suc, ap, map, ◌≡◌, refl, sym, subst, ◌∙◌, false, Option, none, some, List, [], ◌∷◌, Text, str,
  text_eq, text_beq, eq_self, length, nat_eq,
}
use transparent_gateway.Python.{
  Exception, ok_injective, end, type_error, Result, ok, err, >>=-eq-ok, or_raise, Value, Fields,
  obj, get, lookup, Runtime, as_list,
}
use transparent_gateway.Prelude.Int.{pos}
use transparent_gateway.Credentials.{new_store}
use transparent_gateway.Asn.{AsnResolver}
use transparent_gateway.Storage.{
  Redis, Action, ◌>>=◌, give, value_of, set_key, set_value, command, obey, next_fate, later_fates,
  temporary_key, raw_key, validated_key, read_snapshot, decode_snapshot,
}
use transparent_gateway.Storage.Atomic.{
  published, publish_snapshot-published, value_of-published, value_of-set_value,
}
use transparent_gateway.Sources.Candidate.{ProxyCandidate}
use transparent_gateway.Probe.Anonymity.{SplitUrl}
use transparent_gateway.Workers.Fetcher.{read_candidates}
use transparent_gateway.Workers.Validator.Cycle.{
  Place, streak_of, Surroundings, cycle_state, validated_snapshot, last_success_key,
  previous_streaks, places, open_resolver, check_all, checked_entries, note_success,
  publish_entries, validate, validate_raw, cycle,
}
use transparent_gateway.Workers.Validator.Cycle.Probed.{ArePassed, check_all-ArePassed}
use transparent_gateway.Workers.Validator.Cycle.Streaks.{
  somes, last_streak, continued, streaks_from_lem, passed_entries_lem,
}

keys_apart : text_beq validated_key last_success_key ≡ false
unfolding validated_key last_success_key str text_beq
keys_apart = refl

keys_apart' : text_beq last_success_key validated_key ≡ false
unfolding validated_key last_success_key str text_beq
keys_apart' = refl

temporary_apart :
    (uuid : Text) → text_beq (temporary_key validated_key uuid) last_success_key ≡ false
unfolding validated_key last_success_key temporary_key str text_beq
temporary_apart uuid = refl

-- A new text if there is an entry, and otherwise what stood there.
abbrev pub if_any : List Fields → Text → Option Text → Option Text
if_any [] new old = old
if_any (_ ∷ _) new old = some new

if_any-map :
    (f : Fields → Fields) (xs : List Fields) (new : Text) (old : Option Text)
    → if_any (map f xs) new old ≡ if_any xs new old
if_any-map f [] new old = refl
if_any-map f (x ∷ xs) new old = refl

length-map : (f : Fields → Fields) (xs : List Fields) → length xs ≡ length (map f xs)
length-map f [] = refl
length-map f (x ∷ xs) = ap suc (length-map f xs)

or_raise-eq-ok :
    {A : Type 0} (o : Option A) (e : Exception) {a : A} → or_raise o e ≡ ok a → o ≡ some a
or_raise-eq-ok none e h = cc
or_raise-eq-ok (some b) e h = ap some (ok_injective h)

module _ (R : Runtime) (urlsplit : Text → Result SplitUrl) (loads : Text → Option Value)
    (sha256 : Text → Text) (s : Surroundings) (dumps plain_dumps : Value → Text)
    (content : List (Text × Text)) where
  abbrev pub before : Redis
  before = record { content = content; fates = [] }

  -- The candidates of a raw snapshot, as the loop of the cycle reads them.
  abbrev pub AreRead : Fields → List ProxyCandidate → Type 0
  AreRead raw candidates =
      (values : List Value) × (as_list (get raw (str "entries")) ≡ some values)
      × (read_candidates R values ≡ ok candidates)

  -- The entries of the snapshot before; without one there are none.
  abbrev pub AreEntries : Option Fields → List Value → Type 0
  AreEntries none values = values ≡ []
  AreEntries (some previous) values = as_list (get previous (str "entries")) ≡ some values

  -- What the probes give for the candidates, in their order, at the two places of the settings and
  -- with the database of networks.
  abbrev pub AreProbed : List ProxyCandidate → List (Option Fields) → Type 0
  AreProbed candidates checked =
      (both : Option Place × Place) × (resolver : AsnResolver) × (places R urlsplit loads sha256 s
        ≡ ok both)
      × (open_resolver R urlsplit loads sha256 s ≡ ok resolver)
      × ArePassed R urlsplit loads sha256 s both.0 both.1 resolver (new_store s.one_second) 0
          candidates checked

  -- The content behind a cycle that publishes.
  pub record Published (healthy checked : ℕ) (final : List (Text × Text)) : Type 0 where
    pub raw : Fields
    pub candidates : List ProxyCandidate
    pub previous : Option Fields
    pub before_entries : List Value
    pub checked_candidates : List (Option Fields)
    -- the two snapshots that Redis held, and the candidates of the one
    pub found_raw : decode_snapshot loads (value_of content raw_key) ≡ ok (some raw)
    pub found_previous : decode_snapshot loads (value_of content validated_key) ≡ ok previous
    pub found_candidates : AreRead raw candidates
    pub found_entries : AreEntries previous before_entries
    -- the candidates as they are probed
    pub probed : AreProbed candidates checked_candidates
    -- the new snapshot
    pub stored :
        value_of final validated_key
        ≡ some (
            dumps (
              obj (
                validated_snapshot s raw checked
                  (map (continued R before_entries) (somes checked_candidates)))))
    pub entries_count : length (somes checked_candidates) ≡ healthy
    pub candidates_count : length candidates ≡ checked
    pub noted :
        value_of final last_success_key
        ≡ if_any
            (somes checked_candidates)
            (plain_dumps (obj (cycle_state s healthy checked)))
            (value_of content last_success_key)

  -- How a cycle ends: published, or with the content as it was.
  abbrev pub Ended : Result (Option (ℕ × ℕ)) × Redis → Type 0
  Ended (err e, final) = final.content ≡ content
  Ended (ok none, final) = final.content ≡ content
  Ended (ok (some (healthy, checked)), final) = Published healthy checked final.content

  give-Ended :
      {A : Type 0} (r : Result A) (f : A → Action (Option (ℕ × ℕ)))
      → ((a : A) → r ≡ ok a → Ended (f a before))
      → Ended ((give r >>= f) before)
  give-Ended (ok a) f h = h a refl
  give-Ended (err e) f h = refl

  read-Ended :
      (key : Text) (f : Option Fields → Action (Option (ℕ × ℕ)))
      → ((o : Option Fields)
          → decode_snapshot loads (value_of content key) ≡ ok o
          → Ended (f o before))
      → Ended ((read_snapshot loads key >>= f) before)
  unfolding read_snapshot command obey next_fate later_fates
  read-Ended key f h = give-Ended (decode_snapshot loads (value_of content key)) f h

  streaks_of_previous :
      (previous : Option Fields) (streaks : Fields)
      → previous_streaks R previous ≡ ok streaks
      → (values : List Value) × AreEntries previous values
        × ((address : Text) → streak_of streaks address ≡ last_streak R address values (pos 0))
  unfolding previous_streaks last_streak streak_of lookup
  streaks_of_previous none streaks h =
      ([], refl, λ address. subst (λ d. streak_of d address ≡ pos 0) (ok_injective h) refl)
  streaks_of_previous (some previous) streaks h =
      let (values, found, h₁) =
        >>=-eq-ok (or_raise (as_list (get previous (str "entries"))) type_error) _ h in
      (
        values,
        or_raise-eq-ok (as_list (get previous (str "entries"))) type_error found,
        λ address. streaks_from_lem R end values streaks address h₁,
      )

  -- What is published of the candidates.
  abbrev Checked : Option Fields → List ProxyCandidate → List Fields → Type 0
  Checked previous candidates entries =
      (values : List Value) × (checked : List (Option Fields)) × AreEntries previous values
      × AreProbed candidates checked
      × (entries ≡ map (continued R values) (somes checked))

  checked_entries-Checked :
      (previous : Option Fields) (candidates : List ProxyCandidate) (entries : List Fields)
      → checked_entries R urlsplit loads sha256 s previous candidates ≡ ok entries
      → Checked previous candidates entries
  unfolding checked_entries
  checked_entries-Checked previous candidates entries h =
      let (streaks, found, h₁) = >>=-eq-ok (previous_streaks R previous) _ h in
      let (both, placed, h₂) = >>=-eq-ok (places R urlsplit loads sha256 s) _ h₁ in
      let (resolver, opened, h₃) = >>=-eq-ok (open_resolver R urlsplit loads sha256 s) _ h₂ in
      let (checked, probed, h₄) =
        >>=-eq-ok
          (check_all R urlsplit loads sha256 s both.0 both.1 resolver (new_store s.one_second) 0
            candidates)
          _ h₃ in
      let (values, are_entries, known) = streaks_of_previous previous streaks found in
      (
        values,
        checked,
        are_entries,
        (
          both,
          resolver,
          placed,
          opened,
          check_all-ArePassed R urlsplit loads sha256 s both.0 both.1 resolver
              (new_store s.one_second) 0 candidates checked probed,
        ),
        passed_entries_lem R streaks values checked entries known h₄,
      )

  module _ (raw : Fields) (candidates : List ProxyCandidate) where
    abbrev snapshot_of : List Fields → Fields
    snapshot_of = validated_snapshot s raw (length candidates)

    after_snapshot : List Fields → List (Text × Text)
    after_snapshot entries = published dumps s.uuid validated_key (snapshot_of entries) content

    final_of : List Fields → List (Text × Text)
    unfolding after_snapshot
    final_of [] = after_snapshot []
    final_of (entry ∷ entries) =
        set_value last_success_key
          (plain_dumps (obj (cycle_state s (length (entry ∷ entries)) (length candidates))))
          (after_snapshot (entry ∷ entries))

    publish_entries-final :
        (entries : List Fields)
        → publish_entries R urlsplit loads sha256 s dumps plain_dumps raw
            (length candidates)
            entries
            before
          ≡ (
            ok (some (length entries, length candidates)),
            record { content = final_of entries; fates = [] },
          )
    unfolding publish_entries note_success set_key command obey next_fate later_fates final_of
        after_snapshot
    publish_entries-final [] =
        rw (publish_snapshot-published dumps s.uuid validated_key (snapshot_of []) content) refl
    publish_entries-final (entry ∷ entries) =
        rw
          (publish_snapshot-published dumps s.uuid validated_key (snapshot_of (entry ∷ entries))
            content)
          refl

    stored_lem :
        (entries : List Fields)
        → value_of (final_of entries) validated_key ≡ some (dumps (obj (snapshot_of entries)))
    unfolding final_of after_snapshot
    stored_lem [] =
        value_of-published dumps s.uuid validated_key (snapshot_of []) content validated_key
        ∙ rw (eq_self validated_key) refl
    stored_lem (entry ∷ entries) =
        value_of-set_value _ last_success_key _ validated_key
        ∙ rw
            (
              keys_apart',
              value_of-published dumps s.uuid validated_key (snapshot_of (entry ∷ entries)) content
                  validated_key,
              eq_self validated_key,
            )
            refl

    noted_lem :
        (entries : List Fields)
        → value_of (final_of entries) last_success_key
          ≡ if_any entries
              (plain_dumps (obj (cycle_state s (length entries) (length candidates))))
              (value_of content last_success_key)
    unfolding final_of after_snapshot
    noted_lem [] =
        value_of-published dumps s.uuid validated_key (snapshot_of []) content last_success_key
        ∙ rw (keys_apart, temporary_apart s.uuid) refl
    noted_lem (entry ∷ entries) =
        value_of-set_value _ last_success_key _ last_success_key
        ∙ rw (eq_self last_success_key) refl

    published_lem :
        (previous : Option Fields) (entries : List Fields)
        → decode_snapshot loads (value_of content raw_key) ≡ ok (some raw)
        → decode_snapshot loads (value_of content validated_key) ≡ ok previous
        → AreRead raw candidates
        → Checked previous candidates entries
        → Ended (
            publish_entries R urlsplit loads sha256 s dumps plain_dumps raw
              (length candidates)
              entries
              before)
    published_lem previous entries found_raw found_previous read
          (values, checked, are_entries, probed, same) =
        let new = map (continued R values) (somes checked) in
        subst
          (λ es. Ended (
            publish_entries R urlsplit loads sha256 s dumps plain_dumps raw (length candidates) es
              before))
          (sym same)
          (subst Ended (sym (publish_entries-final new)) (record {
            raw = raw;
            candidates = candidates;
            previous = previous;
            before_entries = values;
            checked_candidates = checked;
            found_raw = found_raw;
            found_previous = found_previous;
            found_candidates = read;
            found_entries = are_entries;
            probed = probed;
            stored = stored_lem new;
            entries_count = length-map (continued R values) (somes checked);
            candidates_count = refl;
            noted = noted_lem new ∙ if_any-map (continued R values) (somes checked) _ _;
          }))

  validate_raw-Ended :
      (o : Option Fields)
      → decode_snapshot loads (value_of content raw_key) ≡ ok o
      → Ended (validate_raw R urlsplit loads sha256 s dumps plain_dumps o before)
  unfolding validate_raw validate
  validate_raw-Ended none found = refl
  validate_raw-Ended (some raw) found =
      give-Ended (or_raise (as_list (get raw (str "entries"))) type_error) _ λ values listed.
        give-Ended (read_candidates R values) _ λ candidates read.
          read-Ended validated_key _ λ previous found_previous.
            give-Ended (checked_entries R urlsplit loads sha256 s previous candidates) _
              λ entries h.
                published_lem raw candidates previous entries found found_previous
                  (
                    values,
                    or_raise-eq-ok (as_list (get raw (str "entries"))) type_error listed,
                    read,
                  )
                  (checked_entries-Checked previous candidates entries h)

  -- A cycle whose commands do not fail either leaves Redis as it was, as every exception and a missing
  -- raw snapshot do, or publishes: then the validated snapshot is the new one. It has an entry for each
  -- candidate of the raw snapshot whose probe passed, in their order and no other, as many as the
  -- result says, each with a streak one more than the last entry of its address had in the snapshot
  -- before, or 1 if there was none. The last success is noted if there is an entry and left alone if
  -- there is none.
  pub cycle-Ended : Ended (cycle R urlsplit loads sha256 s dumps plain_dumps before)
  unfolding cycle
  cycle-Ended = read-Ended raw_key _ validate_raw-Ended
