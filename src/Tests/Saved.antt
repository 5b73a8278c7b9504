-- ===== src/Tests/Saved.antt =====
-- Witnesses for backups, in a format for entries that hold the data of one login.
use passbubble.Prelude.{
  Bool, true, false, Option, some, none, List, [], ◌∷◌, ◌==◌, if◌then◌else◌, ◌≡◌, refl, arith,
  Option-cases, inl, inr,
}
use passbubble.Texts.{Text, text}
use passbubble.Sealing.{EntryData}
use passbubble.Backups.{
  BackedUp, File, Source, Disk, create, written, read_entries, add_entry, create_found, create_from,
  write_private,
}
use passbubble.Backups.Restoring.{Leaves, create-Leaves}
use passbubble.Tests.Sealed.{anns, is_anns, anns_only}
use passbubble.Tests.Files.{write_rows, read_rows, read-rows}

abbrev is_login : Option EntryData → Bool
is_login none = false
is_login (some d) = is_anns d

abbrev rows_of : List BackedUp → Option (List (List Text))
rows_of [] = some []
rows_of (e ∷ es) =
    let rest = rows_of es in
    if is_login e.content
    then elim rest [ none ↦ none | some rows ↦ some ((e.name ∷ e.entry_type ∷ e.url ∷ []) ∷ rows) ]
    else none

abbrev entries_of : List (List Text) → List BackedUp
entries_of ((n ∷ t ∷ u ∷ []) ∷ rows) =
    record { name = n; entry_type = t; url = u; content = some anns } ∷ entries_of rows
entries_of rows = []

abbrev encode_rows : Text → Text → Option (List (List Text)) → Option Text
encode_rows server email none = none
encode_rows server email (some rows) = some (write_rows ((server ∷ email ∷ []) ∷ rows))

abbrev encode_file : File → Option Text
encode_file f = encode_rows f.server f.email (rows_of f.entries)

abbrev file_of : Option (List (List Text)) → Option File
file_of (some ((s ∷ m ∷ []) ∷ rows)) =
    some record { server = s; email = m; entries = entries_of rows }
file_of o = none

abbrev decode_file : Text → Option File
decode_file t = file_of (read_rows t)

login_only : (o : Option EntryData) → is_login o ≡ true → o ≡ some anns
login_only none h = absurd (ground arith)
login_only (some d) h = ground (arith, anns_only d (1 ∷ []) (ground arith))

entries_back :
    (es : List BackedUp) (rows : List (List Text)) → rows_of es ≡ some rows → entries_of rows ≡ es
entries_back [] rows h = ground arith
entries_back (e ∷ es) rows h = elim (Option-cases (rows_of es)) [
  | inl f ↦ absurd (ground (arith, f))
  | inr (rest, f) ↦
      let data_known : is_login e.content ≡ true = ground (arith, f) in
      ground (arith, f, login_only e.content data_known, entries_back es rest f)
]

decode-encode_file : (f : File) (t : Text) → encode_file f ≡ some t → decode_file t ≡ some f
decode-encode_file f t h = elim (Option-cases (rows_of f.entries)) [
  | inl e ↦ absurd (ground (arith, e))
  | inr (rows, e) ↦
      ground (arith, e, read-rows ((f.server ∷ f.email ∷ []) ∷ rows), entries_back f.entries rows e)
]

-- A login that is read, and an entry without data.
abbrev two_entries : Source
two_entries = record {
  list_entries = some ((1, text "mail") ∷ (2, text "gone") ∷ []);
  get_entry = λ id.
      if id == 1
      then some
          record { name = text "mail"; entry_type = text "password"; url = []; content = some anns }
      else none;
}

abbrev sound_disk : Disk
sound_disk = record {
  create_temp_fails = false;
  write_fails = false;
  close_fails = false;
  rename_fails = false;
}

create-Leaves_example :
    Leaves encode_file decode_file
      (λ n. true)
      two_entries
      ((1, text "mail") ∷ (2, text "gone") ∷ [])
      (text "b.json")
      (text "s")
      (text "m")
      (λ p. none)
      (create encode_file decode_file two_entries sound_disk
        (text "b.json")
        (text "s")
        (text "m")
        (λ p. none)).0
      (create encode_file decode_file two_entries sound_disk
        (text "b.json")
        (text "s")
        (text "m")
        (λ p. none)).1
create-Leaves_example =
    create-Leaves encode_file decode_file (λ n. true) decode-encode_file (λ n. refl) two_entries
      ((1, text "mail") ∷ (2, text "gone") ∷ []) sound_disk (text "b.json") (text "s") (text "m")
      (λ p. none) refl

-- One of the two is saved.
one_saved :
    (create encode_file decode_file two_entries sound_disk
      (text "b.json")
      (text "s")
      (text "m")
      (λ p. none)).1
    ≡ written 1 2 (2 ∷ [])
unfolding create create_found create_from write_private read_entries add_entry text
one_saved = refl
