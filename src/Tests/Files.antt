-- ===== src/Tests/Files.antt =====
-- Witnesses for CSV files, with a stand-in for encoding/csv that marks what follows.
use passbubble.Prelude.{ℕ, Option, some, none, List, [], ◌∷◌, ◌==◌, if◌then◌else◌, ◌≡◌, refl, arith}
use passbubble.Texts.{Text, text, has_char, trim_left, trim_right, is_space}
use passbubble.Csv.{Format, ExportedRecord, generic, parse_csv, export_csv}
use passbubble.Csv.Header.{KeepsLetters}
use passbubble.Csv.RoundTrip.{ReadsBack, IsPlain, imported, parse_csv-export_csv}

-- 1 stands before a character, 2 for the end of a cell, 0 for the end of a row.
abbrev write_cell : Text → Text → Text
write_cell [] k = 2 ∷ k
write_cell (c ∷ cs) k = 1 ∷ c ∷ write_cell cs k

abbrev write_row : List Text → Text → Text
write_row [] k = 0 ∷ k
write_row (t ∷ ts) k = write_cell t (write_row ts k)

abbrev pub write_rows : List (List Text) → Text
write_rows [] = []
write_rows (r ∷ rs) = write_row r (write_rows rs)

abbrev add_char : ℕ → Option (List (List Text)) → Option (List (List Text))
add_char c (some ((t ∷ ts) ∷ rs)) = some (((c ∷ t) ∷ ts) ∷ rs)
add_char c o = none

abbrev add_cell : Option (List (List Text)) → Option (List (List Text))
add_cell (some (r ∷ rs)) = some (([] ∷ r) ∷ rs)
add_cell o = none

abbrev add_row : Option (List (List Text)) → Option (List (List Text))
add_row none = none
add_row (some rs) = some ([] ∷ rs)

abbrev pub read_rows : Text → Option (List (List Text))
read_rows [] = some []
read_rows (m ∷ []) = if m == 0 then some ([] ∷ []) else none
read_rows (m ∷ c ∷ k) =
    let inner = read_rows k in
    let next = read_rows (c ∷ k) in
    if m == 0 then add_row next else if m == 2 then add_cell next else add_char c inner

read-cell :
    (t k : Text) (r : List Text) (rs : List (List Text))
    → read_rows k ≡ some (r ∷ rs)
    → read_rows (write_cell t k) ≡ some ((t ∷ r) ∷ rs)
read-cell [] [] r rs h = absurd (ground arith)
read-cell [] (c ∷ k) r rs h = ground arith
read-cell (c ∷ cs) k r rs h = ground (arith, read-cell cs k r rs h)

read-row :
    (row : List Text) (k : Text) (rs : List (List Text))
    → read_rows k ≡ some rs
    → read_rows (write_row row k) ≡ some (row ∷ rs)
read-row [] [] rs h = ground arith
read-row [] (c ∷ k) rs h = ground arith
read-row (t ∷ ts) k rs h = read-cell t (write_row ts k) ts rs (read-row ts k rs h)

pub read-rows : (rows : List (List Text)) → read_rows (write_rows rows) ≡ some rows
read-rows [] = refl
read-rows (r ∷ rs) = read-row r (write_rows rs) rs (read-rows rs)

abbrev marked : Format
marked = record { read_all = read_rows; write_all = write_rows }

marked-ReadsBack : ReadsBack marked
marked-ReadsBack = record { read-write = λ n rows two h. read-rows rows }

same-KeepsLetters : KeepsLetters (λ c. c)
same-KeepsLetters = record { kept = λ c low high. refl }

-- A login with a space in its notes and two tags.
abbrev shop : ExportedRecord
shop = record {
  name = text "shop";
  url = text "a.org";
  username = text "ann";
  password = text "p,w";
  notes = text "two words";
  tags = text "web" ∷ text "old one" ∷ [];
  keyed = [];
  custom_fields = [];
  unknown_fields = [];
}

shop-IsPlain : IsPlain shop
unfolding text trim_left trim_right is_space has_char
shop-IsPlain = record {
  named = refl;
  name = record { left = refl; right = refl };
  url = record { left = refl; right = refl };
  username = record { left = refl; right = refl };
  password = record { left = refl; right = refl };
  notes = record { left = refl; right = refl };
  tags = (
    record { trimmed = record { left = refl; right = refl }; filled = refl; whole = refl },
    (record { trimmed = record { left = refl; right = refl }; filled = refl; whole = refl }, tt),
  );
  lines = (refl, (refl, (refl, (refl, (refl, tt)))));
  tag_lines = (refl, (refl, tt));
}

parse_csv-export_csv_example :
    parse_csv (λ c. c) (λ t. t) marked (export_csv marked (shop ∷ [])) generic
    ≡ some record { records = imported shop ∷ []; skipped = 0; warnings = [] }
parse_csv-export_csv_example =
    parse_csv-export_csv (λ c. c) (λ t. t) marked same-KeepsLetters marked-ReadsBack (shop ∷ [])
      (shop-IsPlain, tt)
