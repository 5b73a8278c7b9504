-- ===== src/Csv/Header.antt =====
-- The header that ExportCSV of backend/pkg/exporters/csv.go writes, as csvTagsColumn of
-- backend/pkg/importers/csv.go reads it.
use passbubble.Prelude.{ℕ, ◌≤◌, some, ◌≡◌, refl, arith}
use passbubble.Texts.{text, text_eq, trim_left, trim_right, is_space}
use passbubble.Csv.{generic, csv_tags_column, tags_column_from, csv_header}

-- Folding the case leaves the lower-case letters of ASCII alone.
pub record KeepsLetters (fold : ℕ → ℕ) : Type 0 where
  pub kept : (c : ℕ) → 97 ≤ c → c ≤ 122 → fold c ≡ c

module _ (fold : ℕ → ℕ) (keeps : KeepsLetters fold) where
  pub tags_column-csv_header : csv_tags_column fold csv_header generic ≡ some 5
  unfolding csv_tags_column tags_column_from csv_header text trim_left trim_right is_space text_eq
  tags_column-csv_header =
      rw
        (
          keeps.kept 97 (omega arith) (omega arith),
          keeps.kept 110 (omega arith) (omega arith),
          keeps.kept 116 (omega arith) (omega arith),
          keeps.kept 103 (omega arith) (omega arith),
          keeps.kept 115 (omega arith) (omega arith),
          keeps.kept 117 (omega arith) (omega arith),
          keeps.kept 112 (omega arith) (omega arith),
        )
        refl
