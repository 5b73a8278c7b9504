-- ===== src/Csv/RoundTrip.antt =====
-- ParseCSV of backend/pkg/importers/csv.go reads what ExportCSV of backend/pkg/exporters/csv.go
-- wrote.
use passbubble.Prelude.{
  ◌≤◌, length, ℕ, suc, false, some, List, [], ◌∷◌, ◌++◌, map, ◌≡◌, refl, arith, All,
}
use passbubble.Texts.{Text, text, has_char, has_char-append, is_blank, join}
use passbubble.Csv.{
  ExportedRecord, ImportedRecord, Format, blank_record, generic, cell, read_columns,
  convert_csv_row, read_tags, convert_rows, parse_rows, parse_csv, csv_header, csv_row, export_csv,
}
use passbubble.Csv.Separated.{IsTrimmed, trim-IsTrimmed, IsTag, split_tags-join}
use passbubble.Csv.Header.{KeepsLetters, tags_column-csv_header}

-- No carriage return: encoding/csv reads one before a line feed as the line feed alone.
abbrev pub IsLine : Text → Type 0
IsLine t = has_char 13 t ≡ false

-- A row of as many cells, two at least: encoding/csv skips a line without any, and takes the number
-- of cells from the first row.
abbrev pub IsRow : ℕ → List Text → Type 0
IsRow n row = (length row ≡ n) × All IsLine row

-- encoding/csv reads back the rows that it wrote, where all have as many cells.
pub record ReadsBack (csv : Format) : Type 0 where
  pub read-write :
      (n : ℕ) (rows : List (List Text))
      → 2 ≤ n
      → All (IsRow n) rows
      → csv.read_all (csv.write_all rows) ≡ some rows

-- A record that a CSV file can hold: its texts are trimmed, its name is not blank, and its tags have
-- no comma.
pub record IsPlain (rec : ExportedRecord) : Type 0 where
  pub named : is_blank rec.name ≡ false
  pub name : IsTrimmed rec.name
  pub url : IsTrimmed rec.url
  pub username : IsTrimmed rec.username
  pub password : IsTrimmed rec.password
  pub notes : IsTrimmed rec.notes
  pub tags : All IsTag rec.tags
  pub lines : All IsLine (rec.name ∷ rec.url ∷ rec.username ∷ rec.password ∷ rec.notes ∷ [])
  pub tag_lines : All IsLine rec.tags

-- The record that the import makes of it: a password entry with the same columns.
abbrev pub imported : ExportedRecord → ImportedRecord
imported rec = record blank_record {
  name = rec.name;
  url = rec.url;
  entry_type = text "password";
  username = rec.username;
  password = rec.password;
  notes = rec.notes;
  tags = rec.tags;
}

join-IsLine : (tags : List Text) → All IsLine tags → IsLine (join (text ", ") tags)
unfolding join text has_char
join-IsLine [] h = refl
join-IsLine (t ∷ []) h = h.0
join-IsLine (t ∷ u ∷ ts) h = ground (
  arith,
  h.0,
  has_char-append t (44 ∷ 32 ∷ []) 13,
  has_char-append (t ++ 44 ∷ 32 ∷ []) (join (44 ∷ 32 ∷ []) (u ∷ ts)) 13,
  join-IsLine (u ∷ ts) h.1,
)

csv_row-IsRow : (rec : ExportedRecord) → IsPlain rec → IsRow 6 (csv_row rec)
csv_row-IsRow rec h =
    let (a, (b, (c, (d, (e, _))))) = h.lines in
    (refl, (a, (b, (c, (d, (e, (join-IsLine rec.tags h.tag_lines, tt)))))))

map-IsRow : (recs : List ExportedRecord) → All IsPlain recs → All (IsRow 6) (map csv_row recs)
map-IsRow [] h = tt
map-IsRow (rec ∷ recs) h = (csv_row-IsRow rec h.0, map-IsRow recs h.1)

csv_header-IsRow : IsRow 6 csv_header
unfolding csv_header text has_char
csv_header-IsRow = (refl, (refl, (refl, (refl, (refl, (refl, (refl, tt)))))))

module _ (lower : Text → Text) where
  row_back :
      (rec : ExportedRecord)
      → IsPlain rec
      → convert_csv_row lower generic (csv_row rec) ≡ some (record (imported rec) { tags = [] })
  unfolding convert_csv_row read_columns cell
  row_back rec h =
      rw
        (
          trim-IsTrimmed rec.name h.name,
          trim-IsTrimmed rec.url h.url,
          trim-IsTrimmed rec.username h.username,
          trim-IsTrimmed rec.password h.password,
          trim-IsTrimmed rec.notes h.notes,
          h.named,
          h.named,
        )
        refl

  rows_back :
      (line : ℕ) (recs : List ExportedRecord)
      → All IsPlain recs
      → convert_rows lower generic (some 5) line (map csv_row recs)
        ≡ record { records = map imported recs; skipped = 0; warnings = [] }
  unfolding convert_rows read_tags
  rows_back line [] h = refl
  rows_back line (rec ∷ recs) h =
      ground
        (arith, row_back rec h.0, split_tags-join rec.tags h.0.tags, rows_back (suc line) recs h.1)

-- If encoding/csv reads back the rows that it wrote where all have as many cells, and folding the
-- case leaves the letters of ASCII alone, then an export of entries whose texts are trimmed,
-- whose names are not blank and whose tags have no comma, none with a carriage return, is
-- imported without a line skipped as as many password entries with the same name, URL, username,
-- password, notes and tags.
pub parse_csv-export_csv :
    (fold : ℕ → ℕ) (lower : Text → Text) (csv : Format)
    → KeepsLetters fold
    → ReadsBack csv
    → (recs : List ExportedRecord) → All IsPlain recs
    → parse_csv fold lower csv (export_csv csv recs) generic
      ≡ some record { records = map imported recs; skipped = 0; warnings = [] }
unfolding parse_csv export_csv parse_rows
parse_csv-export_csv fold lower csv keeps back recs h = ground (
  arith,
  back.read-write 6 (csv_header ∷ map csv_row recs) (omega arith)
      (csv_header-IsRow, map-IsRow recs h),
  tags_column-csv_header fold keeps,
  rows_back lower 2 recs h,
)
