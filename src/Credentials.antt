-- ===== src/Credentials.antt =====
-- `class CredentialStore` of common/credentials.py. A reading of the file is its bytes, or `none`
-- where the reading raises an OSError; clock readings are whole numbers of one unit.
pub mod Reload
use transparent_gateway.Prelude.{
  ℕ, ◌+◌, ◌≡◌, refl, Bool, true, false, not, Option, none, some, Text, str, leb, ◌==◌, text_eq,
  if◌then◌else◌,
}
use transparent_gateway.Python.{
  Result, ok, err, value_error, type_error, os_error, ◌>>=◌, Value, Fields, is_null, null, text,
  arr, obj, lookup, get, truthy, as_dict, as_text,
}

pub record CredentialStore : Type 0 where
  pub reload_interval : ℕ
  -- `none` is `float("-inf")`
  pub last_checked : Option ℕ
  pub digest : Option Text
  pub values : Fields

-- `CredentialStore(path, reload_interval_seconds=…)`
unfoldable pub new_store : ℕ → CredentialStore
new_store interval = record {
  reload_interval = interval;
  last_checked = none;
  digest = none;
  values = Fields.end;
}

-- What a call of `get` meets: the clock and the file.
pub record Reading : Type 0 where
  pub now : ℕ
  pub content : Option Text

-- A user name and a password, or `None`.
abbrev pub Auth : Type 0
Auth = Option (Text × Text)

-- `isinstance(username, str)` and `isinstance(password, str)`
abbrev pub pair_of : Option Text → Option Text → Result Auth
pair_of (some username) (some password) = ok (some (username, password))
pair_of none _ = err value_error
pair_of (some _) none = err value_error

-- The user name and the password of an item.
unfoldable pub read_item : Value → Result Auth
read_item item = elim (as_dict item) [
  | none ↦ err value_error
  | some d ↦ pair_of (as_text (get d (str "username"))) (as_text (get d (str "password")))
]

-- `self.values.get(reference)`; a list or a dict cannot be a key.
unfoldable pub find_item : Fields → Value → Result Value
find_item values (text r) = ok (get values r)
find_item values (arr _) = err type_error
find_item values (obj _) = err type_error
find_item values _ = ok null

unfoldable pub read_reference : Fields → Value → Result Auth
unfolding find_item
read_reference values reference = find_item values reference >>= read_item

-- `now - self.last_checked >= self.reload_interval_seconds`
unfoldable pub is_due : CredentialStore → ℕ → Bool
is_due store now = elim store.last_checked [
  | none ↦ true
  | some t ↦ leb (t + store.reload_interval) now
]

same_digest : Option Text → Text → Bool
same_digest none d = false
same_digest (some e) d = e == d

-- `ca_file` of an item: the file to load, if there is one and it is the approved one.
unfoldable pub ca_of : Value → Result Bool
ca_of item = elim (as_dict item) [
  | none ↦ err value_error
  | some d ↦
      if truthy (get d (str "ca_file"))
      then elim (as_text (get d (str "ca_file"))) [
        | none ↦ err value_error
        | some path ↦
            if path == str "/run/secrets/upstream-ca.crt" then ok true else err value_error
      ]
      else ok false
]

-- Whether the approved file is loaded, with what loading it does.
load_ca : Result (Unit {0}) → Bool → Result Bool
load_ca loaded true = loaded >>= λ _. ok true
load_ca loaded false = ok false

-- The part of `_reload` behind the test of the digest: the values are those of the file.
unfoldable pub replaced : CredentialStore → Text → Option Value → Result CredentialStore
replaced store d (some (obj fields)) = ok (record store { values = fields; digest = some d })
replaced store d _ = err value_error

module _ (sha256 : Text → Text) (loads : Text → Option Value) where
  unfoldable pub replace : CredentialStore → Text → Result CredentialStore
  unfolding replaced
  replace store content = replaced store (sha256 content) (loads content)

  -- `CredentialStore._reload`
  unfoldable pub reload : CredentialStore → Option Text → Result CredentialStore
  unfolding replace same_digest
  reload store none = err value_error
  reload store (some content) =
      if same_digest store.digest (sha256 content) then ok store else replace store content

  -- The lines of `get` from the reading of the clock to the lookup.
  unfoldable pub refresh : CredentialStore → Reading → Result CredentialStore
  refresh store r =
      if is_due store r.now
      then (reload store r.content >>= λ fresh. ok (record fresh { last_checked = some r.now }))
      else ok store

  -- The rest of `get`. A store whose reading failed is as it was.
  answer : CredentialStore → Result CredentialStore → Value → Result Auth × CredentialStore
  answer store (err e) reference = (err e, store)
  answer store (ok fresh) reference = (read_reference fresh.values reference, fresh)

  -- `CredentialStore.get`
  unfoldable pub get_credential : CredentialStore → Reading → Value → Result Auth × CredentialStore
  unfolding answer
  get_credential store r reference =
      if is_null reference then (ok none, store) else answer store (refresh store r) reference

  -- `CredentialStore.tls_context`: whether the context trusts the approved file besides the
  -- default ones. `loaded` is what `load_verify_locations` does.
  unfoldable pub tls_context :
      Result (Unit {0}) → CredentialStore → Reading → Value → Result Bool × CredentialStore
  unfolding load_ca
  tls_context loaded store r reference =
      let (auth, fresh) = get_credential store r reference in
      let trusted : Result Bool = auth >>= λ _.
      find_item fresh.values reference >>= λ item. ca_of item >>= λ ca. load_ca loaded ca in
      if is_null reference then (ok false, store) else (trusted, fresh)
