-- ===== src/Asn/Updater.antt =====
-- validator/asn_updater.py: `update_once`. The two downloads and the hash are arguments; the database
-- and the temporary file are state, and every step on them may fail.
pub mod Installed
use transparent_gateway.Prelude.{
  ℕ, suc, ◌≡◌, Bool, true, false, not, ◌&&◌, ◌||◌, Option, none, some, List, [], ◌∷◌, Text, str,
  ltb, leb, ◌==◌, nat_eq, text_eq, length, take, all, if◌then◌else◌,
}
use transparent_gateway.Python.{
  value_error, index_error, Result, ok, err, raise_if, or_raise, is_space, is_digit, lstrip, lower,
  ascii,
}
use transparent_gateway.Python as Py

-- `MAX_DATABASE_BYTES`
abbrev pub max_database_bytes : ℕ
max_database_bytes = 0x4000000

-- The database, the temporary file, and the fates of the steps to come; a step without one succeeds.
pub record Disk : Type 0 where
  pub destination : Option Text
  pub temporary : Option Text
  pub fates : List (Result (Unit {0}))

abbrev pub Action : Type 0 → Type 0
Action A = Disk → Result A × Disk

module _ {A B : Type 0} where
  abbrev pub after : Result A → (A → Action B) → Action B
  after (ok a) next disk = next a disk
  after (err e) next disk = (err e, disk)

  infixl 5 ◌>>=◌ ◌>>◌
  abbrev pub ◌>>=◌ : Action A → (A → Action B) → Action B
  (m >>= next) disk = let (r, disk') = m disk in after r next disk'

  abbrev pub ◌>>◌ : Action A → Action B → Action B
  m >> n = m >>= λ _. n

abbrev pub give : {A : Type 0} → Result A → Action A
give r disk = (r, disk)

abbrev pub with_fates : List (Result (Unit {0})) → Disk → Disk
with_fates fates disk = record disk { fates = fates }

-- A step that does one thing to the disk if it succeeds and another if it raises.
abbrev pub obey : List (Result (Unit {0})) → (done failed : Disk → Disk) → Action (Unit {0})
obey [] done failed disk = (ok tt, done disk)
obey (ok _ ∷ fates) done failed disk = (ok tt, done (with_fates fates disk))
obey (err e ∷ fates) done failed disk = (err e, failed (with_fates fates disk))

unfoldable pub step : (done failed : Disk → Disk) → Action (Unit {0})
step done failed disk = obey disk.fates done failed disk

abbrev pub same : Disk → Disk
same disk = disk

-- `try: m finally: cleanup`; what the cleanup raises replaces what `m` gives.
abbrev pub after_cleanup : Result (Unit {0}) → Result (Unit {0}) × Disk → Result (Unit {0}) × Disk
after_cleanup r (ok _, disk) = (r, disk)
after_cleanup r (err e, disk) = (err e, disk)

-- `_read_url`, of what the address gives; no more than one byte over the limit is read.
unfoldable pub read_url : Result Text → (limit : ℕ) → Result Text
read_url content limit = Py.◌>>=◌ content λ bytes.
    let body = take (suc limit) bytes in
    if ltb limit (length body) then err value_error else ok body

-- `s.split()[0]` of a text of ASCII
unfoldable pub until_space : Text → Text
until_space [] = []
until_space (c ∷ s) = let rest = until_space s in if is_space c then [] else c ∷ rest

unfoldable pub first_word : Text → Result Text
first_word s = elim (lstrip s) [ [] ↦ err index_error | c ∷ rest ↦ ok (until_space (c ∷ rest)) ]

-- `char in "0123456789abcdef"`
unfoldable pub is_hex : ℕ → Bool
is_hex c = is_digit c || (leb b'a' c && leb c b'f')

-- The hash that the checksum file names.
unfoldable pub read_checksum : Result Text → Result Text
read_checksum content = Py.◌>>=◌ (read_url content 4096) λ bytes. Py.◌>>=◌ (ascii bytes) λ s.
    Py.◌>>=◌ (first_word s) λ word.
      let expected = lower word in
      if not (length expected == 64) || not (all is_hex expected)
      then err value_error
      else ok expected

module _ (sha256 : Text → Text) where
  -- The database that is downloaded, if it has this hash.
  unfoldable pub read_database : Result Text → (expected : Text) → Result Text
  read_database content expected =
      Py.◌>>=◌ (read_url content max_database_bytes)
        λ body. if sha256 body == expected then ok body else err value_error

  -- Whether the database is there already; a file that exists is read.
  unfoldable pub is_current : (actual : Text) → Option Text → Action Bool
  is_current actual none = give (ok false)
  is_current actual (some content) = do step same same; give (ok (sha256 content == actual))

  -- The temporary file is made, written and flushed; `written` bytes of it are there if the writing
  -- fails.
  unfoldable pub write_temporary : (written : ℕ) → Text → Action (Unit {0})
  write_temporary written body = do
    step (λ disk. record disk { temporary = some [] }) same
    step (λ disk. record disk { temporary = some body })
        (λ disk. record disk { temporary = some (take written body) })
    step same same

  -- `os.chmod` and `os.replace`
  unfoldable pub install : Action (Unit {0})
  install = do
    step same same
    step (λ disk. record disk { destination = disk.temporary; temporary = none }) same

  -- `os.unlink`
  unfoldable pub unlink : Action (Unit {0})
  unlink = step (λ disk. record disk { temporary = none }) same

  -- `finally`, with the name of the temporary file known
  unfoldable pub settle : Result (Unit {0}) × Disk → Result (Unit {0}) × Disk
  settle (ok _, disk) = (ok tt, disk)
  settle (err e, disk) = after_cleanup (err e) (unlink disk)

  -- The `try`: the name is known once the file is written.
  unfoldable pub replace_database : (written : ℕ) → Text → Action (Unit {0})
  replace_database written body = do write_temporary written body; λ disk. settle (install disk)

  -- What follows the test of the database.
  unfoldable pub store : (written : ℕ) (body : Text) (current : Bool) → Action Bool
  store written body true = do step same same; give (ok false)
  store written body false = do step same same; replace_database written body; give (ok true)

  -- `update_once`
  unfoldable pub update_once : (written : ℕ) (checksum database : Result Text) → Action Bool
  update_once written checksum database = do
    expected ← give (read_checksum checksum)
    body ← give (read_database database expected)
    current ← λ disk. is_current expected disk.destination disk
    store written body current
