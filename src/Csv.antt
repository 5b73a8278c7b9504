-- ===== src/Csv.antt =====
-- Import and export of CSV files: backend/pkg/importers/csv.go and types.go, backend/pkg/exporters
-- with csv.go and fields.go.
--
-- encoding/csv is the parameter `Format`, its reader with LazyQuotes and TrimLeadingSpace;
-- strings.ToLower is `lower`, and `fold` maps the code points that strings.EqualFold takes for one
-- to one of them.
pub mod Separated
pub mod Header
pub mod RoundTrip
use passbubble.Prelude.{
  ℕ, suc, ◌+◌, Bool, true, false, not, ◌&&◌, ◌||◌, Option, none, some, List, [], ◌∷◌, ◌++◌,
  if◌then◌else◌, map, length, String, zero, ltb,
}
use passbubble.Texts.{Text, text, text_eq, is_blank, has_char, join, trim}

-- The columns that a CSV file may have.
pub data CsvFormat : Type 0 where
  generic : CsvFormat
  chrome : CsvFormat
  last_pass : CsvFormat
  one_password : CsvFormat

-- The part of importers.EntryRecord that a CSV file fills.
pub record ImportedRecord : Type 0 where
  pub name : Text
  pub url : Text
  pub entry_type : Text
  pub username : Text
  pub password : Text
  pub totp_secret : Text
  pub notes : Text
  pub tags : List Text

-- ImportResult: the lines that were skipped make the warnings.
pub record ImportResult : Type 0 where
  pub records : List ImportedRecord
  pub skipped : ℕ
  pub warnings : List ℕ

-- The part of exporters.EntryRecord that matters: the fields that have a column, and the keyed
-- fields, custom fields and unknown fields that have none.
pub record ExportedRecord : Type 0 where
  pub name : Text
  pub url : Text
  pub username : Text
  pub password : Text
  pub notes : Text
  pub tags : List Text
  pub keyed : List Text
  pub custom_fields : List Text
  pub unknown_fields : List Text

-- strings.FieldsFunc: the piece in front, and the pieces behind it that are not empty.
abbrev pub add_piece : Text → List Text → List Text
add_piece [] rest = rest
add_piece (c ∷ cs) rest = (c ∷ cs) ∷ rest

unfoldable pub pieces : Text → Text → Text × List Text
pieces separators [] = ([], [])
pieces separators (c ∷ cs) =
    let (first, rest) = pieces separators cs in
    if has_char c separators then ([], add_piece first rest) else (c ∷ first, rest)

unfoldable pub trim_pieces : List Text → List Text
trim_pieces [] = []
trim_pieces (p ∷ ps) =
    let rest = trim_pieces ps in if is_blank (trim p) then rest else trim p ∷ rest

-- splitTags
unfoldable pub split_tags : Text → Text → List Text
split_tags s separators =
    let (first, rest) = pieces separators s in trim_pieces (add_piece first rest)

-- The cell of a row, trimmed, or a blank one where the row is short.
unfoldable pub cell : List Text → ℕ → Text
cell [] i = []
cell (c ∷ cs) zero = trim c
cell (c ∷ cs) (suc i) = cell cs i

-- row[i]
abbrev pub raw_cell : List Text → ℕ → Option Text
raw_cell [] i = none
raw_cell (c ∷ cs) zero = some c
raw_cell (c ∷ cs) (suc i) = raw_cell cs i

abbrev pub blank_record : ImportedRecord
blank_record = record {
  name = [];
  url = [];
  entry_type = [];
  username = [];
  password = [];
  totp_secret = [];
  notes = [];
  tags = [];
}

-- settleLoginType
unfoldable pub settle_login_type : ImportedRecord → ImportedRecord
settle_login_type r =
    if text_eq r.entry_type (text "password") && not (is_blank r.totp_secret) && is_blank r.password
    then record r { entry_type = text "totp" }
    else r

module _ (lower : Text → Text) where
  -- mapOnePasswordType
  unfoldable pub map_one_password_type : Text → Text
  map_one_password_type t =
      if text_eq (lower t) (text "login")
      then text "password"
      else if text_eq (lower t) (text "secure note") || text_eq (lower t) (text "note")
      then text "note"
      else if text_eq (lower t) (text "credit card")
      then text "credit-card"
      else if text_eq (lower t) (text "identity")
      then text "identity"
      else text "password"

  -- The switch of convertCSVRow.
  unfoldable pub read_columns : CsvFormat → List Text → ImportedRecord
  read_columns chrome row = record blank_record {
    entry_type = text "password";
    name = cell row 0;
    url = cell row 1;
    username = cell row 2;
    password = cell row 3;
  }
  read_columns last_pass row = settle_login_type (record blank_record {
    entry_type = text "password";
    url = cell row 0;
    username = cell row 1;
    password = cell row 2;
    totp_secret = cell row 3;
    notes = cell row 4;
    name = cell row 5;
  })
  read_columns one_password row = record blank_record {
    entry_type =
        if is_blank (cell row 5) then text "password" else map_one_password_type (cell row 5);
    name = cell row 0;
    username = cell row 1;
    password = cell row 2;
    url = cell row 3;
    notes = cell row 4;
  }
  read_columns generic row = record blank_record {
    entry_type = text "password";
    name = cell row 0;
    url = cell row 1;
    username = cell row 2;
    password = cell row 3;
    notes = cell row 4;
  }

  -- convertCSVRow
  unfoldable pub convert_csv_row : CsvFormat → List Text → Option ImportedRecord
  convert_csv_row format row =
      let rec = read_columns format row in
      let named = if is_blank rec.name then record rec { name = rec.url } else rec in
      if is_blank named.name then none else some named

  -- The tags of a row, where the file has a column for them.
  unfoldable pub read_tags : Option ℕ → List Text → ImportedRecord → ImportedRecord
  read_tags none row rec = rec
  read_tags (some i) row rec = elim (raw_cell row i) [
    | none ↦ rec
    | some tags ↦ record rec { tags = split_tags tags (text ",") }
  ]

  -- The loop of ParseCSV over the rows, from a line on.
  unfoldable pub convert_rows : CsvFormat → Option ℕ → ℕ → List (List Text) → ImportResult
  convert_rows format tags_col line [] = record { records = []; skipped = 0; warnings = [] }
  convert_rows format tags_col line (row ∷ rows) =
      let rest = convert_rows format tags_col (suc line) rows in
      elim (convert_csv_row format row) [
        | none ↦ record rest { skipped = suc rest.skipped; warnings = line ∷ rest.warnings }
        | some rec ↦ record rest { records = read_tags tags_col row rec ∷ rest.records }
      ]

abbrev pub has_tags_column : CsvFormat → Bool
has_tags_column generic = true
has_tags_column chrome = false
has_tags_column last_pass = false
has_tags_column one_password = true

-- What encoding/csv reads and writes.
pub record Format : Type 0 where
  pub read_all : Text → Option (List (List Text))
  pub write_all : List (List Text) → Text

module _ (fold : ℕ → ℕ) where
  -- strings.EqualFold
  abbrev pub equal_fold : Text → Text → Bool
  equal_fold s t = text_eq (map fold s) (map fold t)

  unfoldable pub tags_column_from : ℕ → List Text → Option ℕ
  tags_column_from i [] = none
  tags_column_from i (name ∷ rest) =
      let later = tags_column_from (suc i) rest in
      if equal_fold (trim name) (text "tags") then some i else later

  -- csvTagsColumn
  unfoldable pub csv_tags_column : List Text → CsvFormat → Option ℕ
  csv_tags_column header format = if has_tags_column format then tags_column_from 0 header else none

  module _ (lower : Text → Text) (csv : Format) where
    unfoldable pub parse_rows : CsvFormat → List (List Text) → ImportResult
    parse_rows format [] = record { records = []; skipped = 0; warnings = [] }
    parse_rows format (header ∷ rows) =
        convert_rows lower format (csv_tags_column header format) 2 rows

    -- ParseCSV
    unfoldable pub parse_csv : Text → CsvFormat → Option ImportResult
    parse_csv content format = elim (csv.read_all content) [
      | none ↦ none
      | some rows ↦ some (parse_rows format rows)
    ]

unfoldable pub csv_header : List Text
csv_header = map text ("name" ∷ "url" ∷ "username" ∷ "password" ∷ "notes" ∷ "tags" ∷ [])

abbrev pub csv_row : ExportedRecord → List Text
csv_row rec =
    rec.name ∷ rec.url ∷ rec.username ∷ rec.password ∷ rec.notes ∷ join (text ", ") rec.tags ∷ []

-- ExportCSV
unfoldable pub export_csv : Format → List ExportedRecord → Text
export_csv csv records = csv.write_all (csv_header ∷ map csv_row records)

abbrev pub count_filled : List Text → ℕ
count_filled [] = 0
count_filled (v ∷ vs) = if is_blank v then count_filled vs else suc (count_filled vs)

-- What of a record has no column; a keyed field counts where it has a value.
unfoldable pub left_out : ExportedRecord → ℕ
left_out rec = count_filled rec.keyed + length rec.custom_fields + length rec.unknown_fields

-- CSVLeftOut: the fields and the entries.
unfoldable pub csv_left_out : List ExportedRecord → ℕ × ℕ
csv_left_out [] = (0, 0)
csv_left_out (rec ∷ recs) =
    let (fields, entries) = csv_left_out recs in
    if ltb 0 (left_out rec) then (fields + left_out rec, suc entries) else (fields, entries)
