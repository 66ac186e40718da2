-- ===== src/Credentials/Reload.antt =====
-- What the digest test of common/credentials.py saves is never seen by its callers.
use transparent_gateway.Prelude.{
  ◌≡◌, ◌≢◌, refl, sym, ap, ◌∙◌, subst, true, false, Option, none, some, arith, Text, text_eq,
  text_beq_iff, Bool-cases, if-cases, inl, inr,
}
use transparent_gateway.Python.{
  Result, ok, err, >>=-eq-ok, ok_injective, Value, Fields, is_null, null, text, arr, obj, bool, int,
  float,
}
use transparent_gateway.Credentials.{
  CredentialStore, Reading, Auth, pair_of, read_item, find_item, read_reference, is_due,
  same_digest, replaced, replace, reload, refresh, answer, get_credential,
}

module _ (sha256 : Text → Text) (loads : Text → Option Value) where
  -- The values of the store are those of a file with the noted digest.
  abbrev pub IsLoaded : CredentialStore → Type 0
  IsLoaded store =
      (d : Text)
      → store.digest ≡ some d
      → (c : Text) × (sha256 c ≡ d) × (loads c ≡ some (obj store.values))

  replaced-eq-ok :
      (store fresh : CredentialStore) (d : Text) (o : Option Value)
      → replaced store d o ≡ ok fresh
      → (o ≡ some (obj fresh.values)) × (fresh.digest ≡ some d)
  unfolding replaced
  replaced-eq-ok store fresh d (some (obj fields)) h = ground arith
  replaced-eq-ok store fresh d none h = cc
  replaced-eq-ok store fresh d (some null) h = cc
  replaced-eq-ok store fresh d (some (bool _)) h = cc
  replaced-eq-ok store fresh d (some (int _)) h = cc
  replaced-eq-ok store fresh d (some (float _)) h = cc
  replaced-eq-ok store fresh d (some (text _)) h = cc
  replaced-eq-ok store fresh d (some (arr _)) h = cc

  same_digest_lem : (o : Option Text) (d : Text) → same_digest o d ≡ true → o ≡ some d
  unfolding same_digest
  same_digest_lem none d h = cc
  same_digest_lem (some e) d h = ap some ((text_beq_iff e d).0 h)

  reload-IsLoaded :
      (store fresh : CredentialStore) (content : Option Text)
      → IsLoaded store
      → reload sha256 loads store content ≡ ok fresh
      → IsLoaded fresh
  unfolding reload replace
  reload-IsLoaded store fresh none loaded h = cc
  reload-IsLoaded store fresh (some content) loaded h =
      elim (if-cases (same_digest store.digest (sha256 content)) h) [
        | inl (_, kept) ↦ subst IsLoaded (ok_injective kept) loaded
        | inr (_, new) ↦
            let (file, noted) = replaced-eq-ok store fresh (sha256 content) (loads content) new in
            λ d e. (content, cc, file)
      ]

  refresh-IsLoaded :
      (store fresh : CredentialStore) (r : Reading)
      → IsLoaded store
      → refresh sha256 loads store r ≡ ok fresh
      → IsLoaded fresh
  unfolding refresh
  refresh-IsLoaded store fresh r loaded h = elim (if-cases (is_due store r.now) h) [
    | inl (_, due) ↦
        let (mid, reloaded, noted) = >>=-eq-ok (reload sha256 loads store r.content) _ due in
        subst IsLoaded (ok_injective noted) (reload-IsLoaded store mid r.content loaded reloaded)
    | inr (_, kept) ↦ subst IsLoaded (ok_injective kept) loaded
  ]

  answer-IsLoaded :
      (store : CredentialStore) (reference : Value) (f : Result CredentialStore)
      → IsLoaded store
      → ((fresh : CredentialStore) → f ≡ ok fresh → IsLoaded fresh)
      → IsLoaded (answer sha256 loads store f reference).1
  unfolding answer
  answer-IsLoaded store reference (ok fresh) loaded next = next fresh refl
  answer-IsLoaded store reference (err e) loaded next = loaded

  -- Whatever the file holds, the values of the store stay those of a file with the noted digest.
  pub get_credential-IsLoaded :
      (store : CredentialStore) (r : Reading) (reference : Value)
      → IsLoaded store
      → IsLoaded (get_credential sha256 loads store r reference).1
  unfolding get_credential
  get_credential-IsLoaded store r reference loaded =
      let next =
        answer-IsLoaded store reference (refresh sha256 loads store r) loaded
          (λ fresh h. refresh-IsLoaded store fresh r loaded h) in
      elim (Bool-cases (is_null reference)) [ inl h ↦ rw h loaded | inr h ↦ rw h next ]

  module _ (collision_free : (a b : Text) → sha256 a ≡ sha256 b → a ≡ b) where
    same_file :
        (store : CredentialStore) (content : Text) (d : Fields)
        → IsLoaded store
        → loads content ≡ some (obj d)
        → same_digest store.digest (sha256 content) ≡ true
        → store.values ≡ d
    same_file store content d loaded h same =
        let (c, digest, values) =
          loaded (sha256 content) (same_digest_lem store.digest (sha256 content) same) in
        let parsed : some (obj store.values) ≡ some (obj d) =
          sym values ∙ ap loads (collision_free c content digest) ∙ h in
        cc

    reload-current :
        (store : CredentialStore) (content : Text) (d : Fields)
        → IsLoaded store
        → loads content ≡ some (obj d)
        → (fresh : CredentialStore) × (reload sha256 loads store (some content) ≡ ok fresh)
          × (fresh.values ≡ d)
    unfolding reload replace replaced
    reload-current store content d loaded h =
        elim (Bool-cases (same_digest store.digest (sha256 content))) [
          | inl same ↦ (store, rw same, same_file store content d loaded h same)
          | inr other ↦ rw (other, h) (_, refl, refl)
        ]

    -- If the store is due for a look at its file, the file is an object and no two files share a
    -- digest, a reference gets what the file now holds for it, whether or not the digest changed.
    pub get_credential-current :
        (store : CredentialStore) (r : Reading) (content : Text) (d : Fields) (reference : Value)
        → IsLoaded store
        → is_due store r.now ≡ true
        → r.content ≡ some content
        → loads content ≡ some (obj d)
        → is_null reference ≡ false
        → (get_credential sha256 loads store r reference).0 ≡ read_reference d reference
    unfolding get_credential refresh answer
    get_credential-current store r content d reference loaded due file parsed given =
        let (fresh, reloaded, values) = reload-current store content d loaded parsed in
        rw (given, due, file, reloaded, values) refl

pair_of-ne-none :
    (username password : Option Text) (auth : Auth)
    → pair_of username password ≡ ok auth
    → auth ≢ none
pair_of-ne-none (some u) (some p) auth h = λ e. cc
pair_of-ne-none (some u) none auth h = cc
pair_of-ne-none none p auth h = cc

read_item-ne-none : (item : Value) (auth : Auth) → read_item item ≡ ok auth → auth ≢ none
unfolding read_item
read_item-ne-none (obj d) auth h = pair_of-ne-none _ _ auth h
read_item-ne-none null auth h = cc
read_item-ne-none (bool _) auth h = cc
read_item-ne-none (int _) auth h = cc
read_item-ne-none (float _) auth h = cc
read_item-ne-none (text _) auth h = cc
read_item-ne-none (arr _) auth h = cc

module _ (sha256 : Text → Text) (loads : Text → Option Value) where
  answer-ne-none :
      (store : CredentialStore) (f : Result CredentialStore) (reference : Value) (auth : Auth)
      → (answer sha256 loads store f reference).0 ≡ ok auth
      → auth ≢ none
  unfolding answer read_reference
  answer-ne-none store (err e) reference auth h = cc
  answer-ne-none store (ok fresh) reference auth h =
      let (item, _, read) = >>=-eq-ok (find_item fresh.values reference) read_item h in
      read_item-ne-none item auth read

  -- A reference that is not `None` gets no `None`: where it has no user name and password, `get`
  -- raises, so that no handshake is made without them.
  pub get_credential-ne-none :
      (store : CredentialStore) (r : Reading) (reference : Value) (auth : Auth)
      → is_null reference ≡ false
      → (get_credential sha256 loads store r reference).0 ≡ ok auth
      → auth ≢ none
  unfolding get_credential
  get_credential-ne-none store r reference auth given =
      rw given (answer-ne-none store (refresh sha256 loads store r) reference auth)
