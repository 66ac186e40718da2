-- ===== src/Tests/Databases.antt =====
-- Updates of the ASN database: one that succeeds, one whose writing fails, and an empty checksum.
use transparent_gateway.Prelude.{◌≡◌, refl, true, none, some, [], ◌∷◌, ◌++◌, Text, str, text_beq}
use transparent_gateway.Python.{
  Result, ok, err, os_error, index_error, lstrip, is_space, is_digit, lower, ascii,
}
use transparent_gateway.Asn.Updater.{
  Disk, update_once, store, replace_database, write_temporary, install, settle, step, is_current,
  read_checksum, read_database, read_url, first_word, until_space, is_hex,
}
use transparent_gateway.Asn.Updater.Installed.{Leaves, IsUpdated, update_once-Leaves}

abbrev hash : Text
hash = str "0123456789abcdef0123456789abcdef0123456789abcdef0123456789abcdef"

abbrev sum_of : Text → Text
sum_of s = hash

abbrev old_disk : Disk
old_disk = record { destination = some (str "old"); temporary = none; fates = [] }

abbrev checksum_file : Result Text
checksum_file = ok (hash ++ str "  origin-asn.mmdb")

-- A database that does not exist yet is installed.
installs :
    update_once sum_of 0 checksum_file (ok (str "new")) (record old_disk { destination = none })
    ≡ (ok true, record old_disk { destination = some (str "new") })
unfolding update_once read_checksum read_url first_word lstrip until_space is_space is_hex is_digit
    lower ascii str read_database text_beq is_current store step replace_database write_temporary
    install settle
installs = refl

-- A writing that fails leaves the temporary file behind.
left_behind :
    update_once sum_of 2 checksum_file
      (ok (str "new"))
      (record { destination = none; temporary = none; fates = ok tt ∷ ok tt ∷ err os_error ∷ [] })
    ≡ (err os_error, record { destination = none; temporary = some (str "ne"); fates = [] })
unfolding update_once read_checksum read_url first_word lstrip until_space is_space is_hex is_digit
    lower ascii str read_database text_beq is_current store step replace_database write_temporary
    install settle
left_behind = refl

-- An empty checksum file raises an IndexError.
blank_checksum : read_checksum (ok []) ≡ err index_error
unfolding read_checksum read_url first_word lstrip ascii
blank_checksum = refl

update_once-Leaves_example :
    Leaves sum_of none
      (IsUpdated sum_of none checksum_file (ok (str "new")))
      (update_once sum_of 0 checksum_file (ok (str "new")) (record old_disk { destination = none }))
update_once-Leaves_example =
    update_once-Leaves sum_of 0 checksum_file (ok (str "new"))
      (record old_disk { destination = none })
