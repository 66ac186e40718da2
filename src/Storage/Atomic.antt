-- ===== src/Storage/Atomic.antt =====
-- What a reader of Redis may see while validator/storage.py publishes a snapshot.
use transparent_gateway.Prelude.{
  ◌≡◌, ◌≢◌, ◌⊎◌, refl, ap, ◌∙◌, Option, none, some, List, [], ◌∷◌, ◌++◌, arith, Text, str, ◌==◌,
  text_eq, text_beq_iff, eq_self, length, length-append, inl, inr, if◌then◌else◌,
}
use transparent_gateway.Python.{Result, ok, err, Value, Fields, obj}
use transparent_gateway.Storage.{
  Redis, value_of, without, set_value, moved, renamed, obey, of_renamed, after, command, set_key,
  rename_key, temporary_key, publish_snapshot,
}

value_of-without :
    (kvs : List (Text × Text)) (key k : Text)
    → value_of (without kvs key) k ≡ (if key == k then none else value_of kvs k)
unfolding value_of without
value_of-without [] key k = ground arith
value_of-without ((j, v) ∷ kvs) key k =
    ground
      (arith, value_of-without kvs key k, text_beq_iff j key, text_beq_iff j k, text_beq_iff key k)

pub value_of-set_value :
    (kvs : List (Text × Text)) (key value k : Text)
    → value_of (set_value key value kvs) k ≡ (if key == k then some value else value_of kvs k)
unfolding value_of set_value
value_of-set_value kvs key value k = ground (arith, value_of-without kvs key k)

temporary_key-ne : (key uuid : Text) → temporary_key key uuid ≢ key
unfolding temporary_key str
temporary_key-ne key uuid h =
    let longer : length (key ++ str ":tmp:" ++ uuid) ≡ length key = ap length h in
    let parts = length-append (key ++ str ":tmp:") uuid in
    let start = length-append key (str ":tmp:") in omega arith

module _ (dumps : Value → Text) (uuid key : Text) (snapshot : Fields) where
  abbrev pub new_text : Text
  new_text = dumps (obj snapshot)

  -- Redis when the first of the two commands was given.
  abbrev pub between : Redis → Redis
  between redis = (set_key (temporary_key key uuid) new_text redis).1

  obey_set :
      (r : Result (Unit {0})) (fates : List (Result (Unit {0}))) (kvs : List (Text × Text))
      → value_of
          (obey r fates kvs (ok tt, set_value (temporary_key key uuid) new_text kvs)).1.content
          key
        ≡ value_of kvs key
  unfolding obey
  obey_set (err e) fates kvs = refl
  obey_set (ok _) fates kvs =
      value_of-set_value kvs (temporary_key key uuid) new_text key
      ∙ ground (arith, text_beq_iff (temporary_key key uuid) key, temporary_key-ne key uuid)

  between-old : (redis : Redis) → value_of (between redis).content key ≡ value_of redis.content key
  unfolding set_key command
  between-old redis = obey_set _ _ redis.content

  abbrev pub OldOrNew : List (Text × Text) → Option Text → Type 0
  OldOrNew kvs seen = (seen ≡ value_of kvs key) ⊎ (seen ≡ some new_text)

  renamed_lem :
      (kvs : List (Text × Text))
      → renamed (temporary_key key uuid) key (set_value (temporary_key key uuid) new_text kvs)
        ≡ some (
            set_value key new_text
              (without (set_value (temporary_key key uuid) new_text kvs) (temporary_key key uuid)))
  unfolding renamed
  renamed_lem kvs =
      let tmp = temporary_key key uuid in
      ap (moved key (without (set_value tmp new_text kvs) tmp)) (
        value_of-set_value kvs tmp new_text tmp
        ∙ ap (λ b. if b then some new_text else value_of kvs tmp) (eq_self tmp))

  obey_rename :
      (r : Result (Unit {0})) (fates : List (Result (Unit {0}))) (kvs : List (Text × Text))
      → OldOrNew kvs (
          value_of
            (obey r fates (set_value (temporary_key key uuid) new_text kvs) (
              of_renamed (set_value (temporary_key key uuid) new_text kvs) (
                renamed
                  (temporary_key key uuid)
                  key
                  (set_value (temporary_key key uuid) new_text kvs)))).1.content
            key)
  unfolding obey
  obey_rename (err e) fates kvs = inl (obey_set (ok tt) fates kvs)
  obey_rename (ok _) fates kvs =
      rw (renamed_lem kvs) (inr (value_of-set_value _ key new_text key ∙ rw (eq_self key) refl))

  publish_obey :
      (r : Result (Unit {0})) (fates : List (Result (Unit {0}))) (kvs : List (Text × Text))
      → OldOrNew kvs (
          value_of
            (after
              (obey r fates kvs (ok tt, set_value (temporary_key key uuid) new_text kvs)).0
              (λ _. rename_key (temporary_key key uuid) key)
              (obey r fates kvs
                (ok tt, set_value (temporary_key key uuid) new_text kvs)).1).1.content
            key)
  unfolding obey rename_key command
  publish_obey (err e) fates kvs = inl refl
  publish_obey (ok _) fates kvs = obey_rename _ _ kvs

  -- Whatever command fails, a reader of the key sees the old text when the first command was given,
  -- and the old text or the whole new one when both were.
  pub publish_snapshot-OldOrNew :
      (redis : Redis)
      → (value_of (between redis).content key ≡ value_of redis.content key)
        × OldOrNew redis.content
            (value_of (publish_snapshot dumps uuid key snapshot redis).1.content key)
  unfolding publish_snapshot set_key command
  publish_snapshot-OldOrNew redis = (obey_set _ _ redis.content, publish_obey _ _ redis.content)

  -- The content after both commands.
  pub published : List (Text × Text) → List (Text × Text)
  published kvs =
      set_value key new_text
        (without (set_value (temporary_key key uuid) new_text kvs) (temporary_key key uuid))

  pub publish_snapshot-published :
      (content : List (Text × Text))
      → publish_snapshot dumps uuid key snapshot (record { content = content; fates = [] })
        ≡ (ok tt, record { content = published content; fates = [] })
  unfolding publish_snapshot set_key rename_key command obey published
  publish_snapshot-published content = rw (renamed_lem content) refl

  pub value_of-published :
      (content : List (Text × Text)) (k : Text)
      → value_of (published content) k ≡ (
          if key == k
          then some new_text
          else if temporary_key key uuid == k
          then none
          else value_of content k)
  unfolding published
  value_of-published content k =
      let tmp = temporary_key key uuid in
      value_of-set_value (without (set_value tmp new_text content) tmp) key new_text k
      ∙ ground (
        arith,
        value_of-without (set_value tmp new_text content) tmp k,
        value_of-set_value content tmp new_text k,
      )

  -- If no command fails, the key holds the new text, the temporary key is gone, and every other key
  -- holds what it held.
  pub publish_snapshot_lem :
      (content : List (Text × Text)) (k : Text)
      → value_of
          (publish_snapshot dumps uuid key snapshot
            (record { content = content; fates = [] })).1.content
          k
        ≡ (if key == k
            then some new_text
            else if temporary_key key uuid == k
            then none
            else value_of content k)
  publish_snapshot_lem content k =
      ap (λ r. value_of r.1.content k) (publish_snapshot-published content)
      ∙ value_of-published content k
