-- ===== src/Tests/Merges.antt =====
-- Witnesses for the import of a file into the vault.
use passbubble.Prelude.{pos, List, [], ◌∷◌, ◌≡◌, select_where}
use passbubble.Texts.{Text, text, text_eq}
use passbubble.Importing.{Field, password, CustomField, Content, merge_imported_data, put_value}
use passbubble.Importing.Merging.{has_label, overlay, merge_imported_data-overlay}

abbrev labelled : Text → Text → CustomField
labelled label value = record {
  label = label;
  value = value;
  kind = [];
  filename = [];
  mime_type = [];
  extra = [];
}

abbrev secret : Text → Field → Text
secret t password = t
secret t f = []

abbrev with_fields : Text → List CustomField → Content
with_fields t custom = record {
  fields = secret t;
  period = pos 0;
  digits = pos 0;
  algorithm = [];
  custom_fields = custom;
  tags = [];
  others = [];
}

abbrev stored : Content
stored = with_fields (text "old") (
    labelled (text "pin") (text "1")
    ∷ labelled (text "site") (text "a")
    ∷ labelled (text "pin") (text "2")
    ∷ [])

abbrev in_file : Content
in_file = with_fields (text "new") (
    labelled (text "pin") []
    ∷ labelled (text "pin") (text "3")
    ∷ labelled (text "pin") (text "4")
    ∷ [])

merge_imported_data-overlay_example :
    select_where
      (has_label (text "pin"))
      (merge_imported_data (λ t. t) stored in_file).custom_fields
    ≡ labelled (text "pin") (text "1")
      ∷ labelled (text "pin") (text "3")
      ∷ labelled (text "pin") (text "4")
      ∷ []
unfolding overlay put_value select_where text_eq text
merge_imported_data-overlay_example =
    merge_imported_data-overlay (λ t. t) stored in_file (text "pin")
