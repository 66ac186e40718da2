-- ===== src/Asn/Updater/Installed.antt =====
-- What `update_once` of validator/asn_updater.py leaves on the disk, whichever step fails.
use transparent_gateway.Prelude.{
  ℕ, zero, suc, ap, ◌∙◌, ◌<◌, ◌≡◌, ◌≤◌, refl, sym, subst, Bool, true, false, Option, none, some,
  List, [], ◌∷◌, arith, Bool-cases, inl, inr, take, text_beq, Text, text_eq, text_beq_iff, length,
}
use transparent_gateway.Python.{Exception, Result, ok, err, >>=-eq-ok}
use transparent_gateway.Asn.Updater.{
  max_database_bytes, Disk, Action, after, obey, with_fates, step, same, after_cleanup, read_url,
  read_checksum, read_database, is_current, write_temporary, install, unlink, settle,
  replace_database, store, update_once,
}

module _ (sha256 : Text → Text) (before : Option Text) where
  -- The database is the one from before.
  abbrev pub IsKept : Disk → Type 0
  IsKept disk = disk.destination ≡ before

  -- What a step leaves: a condition on what it returns and on the disk, or the database of before if
  -- it raises.
  abbrev pub Leaves : {A : Type 0} → (A → Disk → Type 0) → Result A × Disk → Type 0
  Leaves Q (ok a, disk) = Q a disk
  Leaves Q (err e, disk) = IsKept disk

  bind-Leaves :
      {A B : Type 0} (P : A → Disk → Type 0) (Q : B → Disk → Type 0) (x : Result A × Disk)
      (next : A → Action B)
      → Leaves P x
      → ((a : A) (disk : Disk) → P a disk → Leaves Q (next a disk))
      → Leaves Q (after x.0 next x.1)
  bind-Leaves P Q (ok a, disk) next h k = k a disk h
  bind-Leaves P Q (err e, disk) next h k = h

  weaken_lem :
      {A : Type 0} (P Q : A → Disk → Type 0) (x : Result A × Disk)
      → Leaves P x
      → ((a : A) (disk : Disk) → P a disk → Q a disk)
      → Leaves Q x
  weaken_lem P Q (ok a, disk) h k = k a disk h
  weaken_lem P Q (err e, disk) h k = h

  give-Leaves :
      {A B : Type 0} (Q : B → Disk → Type 0) (r : Result A) (next : A → Action B) (disk : Disk)
      → IsKept disk
      → ((a : A) → r ≡ ok a → Leaves Q (next a disk))
      → Leaves Q (after r next disk)
  give-Leaves Q (ok a) next disk h k = k a refl
  give-Leaves Q (err e) next disk h k = h

  obey-Leaves :
      (Q : Unit {0} → Disk → Type 0) (fates : List (Result (Unit {0}))) (done failed : Disk → Disk)
      (disk : Disk)
      → ((fs : List (Result (Unit {0}))) → Q tt (done (with_fates fs disk)))
      → ((fs : List (Result (Unit {0}))) → IsKept (failed (with_fates fs disk)))
      → Leaves Q (obey fates done failed disk)
  obey-Leaves Q [] done failed disk q e = q disk.fates
  obey-Leaves Q (ok _ ∷ fates) done failed disk q e = q fates
  obey-Leaves Q (err _ ∷ fates) done failed disk q e = e fates

  step-Leaves :
      (Q : Unit {0} → Disk → Type 0) (done failed : Disk → Disk) (disk : Disk)
      → ((fs : List (Result (Unit {0}))) → Q tt (done (with_fates fs disk)))
      → ((fs : List (Result (Unit {0}))) → IsKept (failed (with_fates fs disk)))
      → Leaves Q (step done failed disk)
  unfolding step
  step-Leaves Q done failed disk = obey-Leaves Q disk.fates done failed disk

  abbrev Kept : {A : Type 0} → A → Disk → Type 0
  Kept _ = IsKept

  touch-Leaves : (disk : Disk) → IsKept disk → Leaves Kept (step same same disk)
  touch-Leaves disk kept = step-Leaves Kept same same disk (λ _. kept) (λ _. kept)

  -- The database from before is there and has this hash.
  abbrev pub HasHash : (expected : Text) → Type 0
  HasHash expected = (content : Text) × (before ≡ some content) × (sha256 content ≡ expected)

  abbrev IsTested : (expected : Text) → Bool → Disk → Type 0
  IsTested expected current disk = (current ≡ true → HasHash expected) × IsKept disk

  cleanup_lem :
      (Q : Unit {0} → Disk → Type 0) (e : Exception) (x : Result (Unit {0}) × Disk)
      → Leaves Kept x
      → Leaves Q (after_cleanup (err e) x)
  cleanup_lem Q e (ok _, disk) h = h
  cleanup_lem Q e (err _, disk) h = h

  is_current-Leaves :
      (expected : Text) (o : Option Text) (disk : Disk)
      → o ≡ before
      → IsKept disk
      → Leaves (IsTested expected) (is_current sha256 expected o disk)
  unfolding is_current
  is_current-Leaves expected none disk same_as kept = (λ e. cc, kept)
  is_current-Leaves expected (some content) disk same_as kept =
      bind-Leaves Kept (IsTested expected) _ _ (touch-Leaves disk kept) λ _ read kept'.
        (λ e. (content, sym same_as, (text_beq_iff (sha256 content) expected).0 e), kept')

  module _ (body : Text) where
    -- The temporary file is whole, and the database is not touched yet.
    abbrev IsReady : Unit {0} → Disk → Type 0
    IsReady _ disk = (disk.temporary ≡ some body) × IsKept disk

    abbrev IsInstalled : Disk → Type 0
    IsInstalled disk = (disk.destination ≡ some body) × (disk.temporary ≡ none)

    abbrev Installed : Unit {0} → Disk → Type 0
    Installed _ = IsInstalled

    write_temporary-Leaves :
        (written : ℕ) (disk : Disk)
        → IsKept disk
        → Leaves IsReady (write_temporary sha256 written body disk)
    unfolding write_temporary
    write_temporary-Leaves written disk kept =
        bind-Leaves Kept IsReady _ _ (step-Leaves Kept _ _ disk (λ _. kept) (λ _. kept))
          λ _ made kept'.
            bind-Leaves IsReady IsReady _ _
              (step-Leaves IsReady _ _ made (λ _. (refl, kept')) (λ _. kept'))
              λ _ full ready. step-Leaves IsReady _ _ full (λ _. ready) (λ _. ready.1)

    install-Leaves :
        (disk : Disk)
        → (disk.temporary ≡ some body) × IsKept disk
        → Leaves Installed (install sha256 disk)
    unfolding install
    install-Leaves disk ready =
        bind-Leaves IsReady Installed _ _ (step-Leaves IsReady _ _ disk (λ _. ready) (λ _. ready.1))
          λ _ changed ready'.
            step-Leaves Installed _ _ changed (λ _. (ready'.0, refl)) (λ _. ready'.1)

    settle-Leaves :
        (x : Result (Unit {0}) × Disk) → Leaves Installed x → Leaves Installed (settle sha256 x)
    unfolding settle unlink
    settle-Leaves (ok _, disk) h = h
    settle-Leaves (err e, disk) h =
        cleanup_lem Installed e (step _ _ disk) (step-Leaves Kept _ _ disk (λ _. h) (λ _. h))

    replace_database-Leaves :
        (written : ℕ) (disk : Disk)
        → IsKept disk
        → Leaves Installed (replace_database sha256 written body disk)
    unfolding replace_database
    replace_database-Leaves written disk kept =
        bind-Leaves IsReady Installed _ _ (write_temporary-Leaves written disk kept)
          λ _ full ready. settle-Leaves (install sha256 full) (install-Leaves full ready)

    -- The database that was found has this hash, or the body is installed.
    abbrev pub IsStored : (expected : Text) → Bool → Disk → Type 0
    IsStored expected false disk = HasHash expected × IsKept disk
    IsStored expected true disk = IsInstalled disk

    store-Leaves :
        (written : ℕ) (expected : Text) (current : Bool) (disk : Disk)
        → (current ≡ true → HasHash expected)
        → IsKept disk
        → Leaves (IsStored expected) (store sha256 written body current disk)
    unfolding store
    store-Leaves written expected true disk found kept =
        bind-Leaves Kept (IsStored expected) _ _ (touch-Leaves disk kept)
          λ _ touched kept'. (found refl, kept')
    store-Leaves written expected false disk found kept =
        bind-Leaves Kept (IsStored expected) _ _ (touch-Leaves disk kept) λ _ made kept'.
          bind-Leaves Installed (IsStored expected) _ _ (replace_database-Leaves written made kept')
            λ _ stored h. h

  -- An update that returns knows the hash of the checksum file, and then either has installed a
  -- database of at most 64 MiB with that hash, whole, with no temporary file left, or has found one
  -- with that hash and left it.
  pub record IsUpdated (checksum database : Result Text) (changed : Bool) (disk : Disk)
      : Type 0 where
    pub expected : Text
    pub body : Text
    pub named : read_checksum checksum ≡ ok expected
    pub downloaded : database ≡ ok body
    pub small : length body ≤ max_database_bytes
    pub verified : sha256 body ≡ expected
    pub stored : IsStored body expected changed disk

take_short : (n : ℕ) (xs : Text) → length (take n xs) < n → take n xs ≡ xs
take_short zero xs h = absurd (ground (arith, h))
take_short (suc n) [] h = refl
take_short (suc n) (x ∷ xs) h = ap (λ t. x ∷ t) (take_short n xs (omega (arith, h)))

-- A body within the limit is the whole content.
read_url_whole :
    (content : Result Text) (limit : ℕ) (body : Text)
    → read_url content limit ≡ ok body
    → (length body ≤ limit) × (content ≡ ok body)
unfolding read_url
read_url_whole (err e) limit body h = cc
read_url_whole (ok bytes) limit body h =
    let small : length body ≤ limit = ground (arith, h) in
    let taken : take (suc limit) bytes ≡ body = ground (arith, h) in
    let short : length (take (suc limit) bytes) < suc limit = rw taken (omega (arith, small)) in
    (small, ap ok (sym (take_short (suc limit) bytes short) ∙ taken))

module _ (sha256 : Text → Text) where
  read_database_lem :
      (content : Result Text) (expected body : Text)
      → read_database sha256 content expected ≡ ok body
      → (length body ≤ max_database_bytes) × (content ≡ ok body) × (sha256 body ≡ expected)
  unfolding read_database
  read_database_lem content expected body h =
      let (bytes, found, h₁) = >>=-eq-ok (read_url content max_database_bytes) _ h in
      let (small, whole) = read_url_whole content max_database_bytes bytes found in
      elim (Bool-cases (text_beq (sha256 bytes) expected)) [
        | inl alike ↦
            let same_body : bytes ≡ body = ground (arith, h₁, alike) in
            subst (λ b. (length b ≤ max_database_bytes) × (content ≡ ok b) × (sha256 b ≡ expected))
              same_body (small, whole, (text_beq_iff (sha256 bytes) expected).0 alike)
        | inr other ↦ ground (arith, h₁, other)
      ]

  -- Whatever step of an update fails, the database is the one from before if the update raises. If it
  -- returns, the checksum file names a hash, and what the database's address gives is at most 64 MiB
  -- long and has that hash: it is in place, whole, with no temporary file left, if the update says that
  -- it changed something, and otherwise the database from before has that hash and is left in place.
  pub update_once-Leaves :
      (written : ℕ) (checksum database : Result Text) (disk : Disk)
      → Leaves sha256 disk.destination
          (IsUpdated sha256 disk.destination checksum database)
          (update_once sha256 written checksum database disk)
  unfolding update_once
  update_once-Leaves written checksum database disk =
      let before = disk.destination in
      let Q = IsUpdated sha256 before checksum database in
      give-Leaves sha256 before Q (read_checksum checksum) _ disk refl λ expected named.
        give-Leaves sha256 before Q (read_database sha256 database expected) _ disk refl
          λ body read.
            let (small, downloaded, verified) = read_database_lem database expected body read in
            bind-Leaves sha256 before (IsTested sha256 before expected) Q _ _
              (is_current-Leaves sha256 before expected before disk refl refl)
              λ current tested h.
                weaken_lem sha256 before (IsStored sha256 before body expected) Q _
                  (store-Leaves sha256 before body written expected current tested h.0 h.1)
                  (λ changed after stored. record {
                    expected = expected;
                    body = body;
                    named = named;
                    downloaded = downloaded;
                    small = small;
                    verified = verified;
                    stored = stored;
                  })
