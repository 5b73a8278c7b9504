-- ===== src/Importing.antt =====
-- The import of a file into the vault: cli/internal/cli/importexport.go behind the parsers, with
-- FindDuplicates of cli/internal/vault/records.go and SameSecret of cli/pkg/totp/totp.go.
--
-- strings.ToUpper and EqualFold are parameters. The child modules hold the loop over the records
-- and what the merge of custom fields amounts to.
pub mod Loop
pub mod Merging
use passbubble.Prelude.{
  ℕ, ℤ, pos, Bool, true, false, not, ◌&&◌, ◌||◌, Option, none, some, List, [], ◌∷◌, ◌++◌, ◌==◌, ltb,
  if◌then◌else◌, length, map,
}
use passbubble.Texts.{Text, is_space, trim, trim_right, text_eq, text, is_blank, join}
use passbubble.Tags.{normalize_tag, normalize_tags, max_tag_length}

-- The text fields of vault.EntryData that an import can set.
pub data Field : Type 0 where
  username : Field
  password : Field
  totp_secret : Field
  notes : Field
  card_number : Field
  holder_name : Field
  expiry_month : Field
  expiry_year : Field
  cvv : Field
  title : Field
  first_name : Field
  last_name : Field
  company : Field
  email : Field
  phone : Field
  street : Field
  city : Field
  state : Field
  postal_code : Field
  country : Field
  license_key : Field
  product_name : Field

-- CustomField; `extra` holds the keys that the client does not model.
pub record CustomField : Type 0 where
  pub label : Text
  pub value : Text
  pub kind : Text
  pub filename : Text
  pub mime_type : Text
  pub extra : List (Text × Text)

-- EntryData; `others` are the fields that an import does not speak to, by their keys.
pub record Content : Type 0 where
  pub fields : Field → Text
  pub period : ℤ
  pub digits : ℤ
  pub algorithm : Text
  pub custom_fields : List CustomField
  pub tags : List Text
  pub others : List (Text × Text)

-- importers.EntryRecord, and its custom fields by label, value, type, file name and MIME type.
pub record FileField : Type 0 where
  pub label : Text
  pub value : Text
  pub kind : Text
  pub filename : Text
  pub mime_type : Text

pub record FileRecord : Type 0 where
  pub name : Text
  pub url : Text
  pub entry_type : Text
  pub match_patterns : List Text
  pub fields : Field → Text
  pub custom_fields : List FileField
  pub tags : List Text
  pub folder_path : List Text
  pub created_at : Text
  pub updated_at : Text

-- vault.EntryRecord, but for the folder.
pub record Existing : Type 0 where
  pub id : Text
  pub name : Text
  pub entry_type : Text
  pub content : Content

abbrev pub custom_field : FileField → CustomField
custom_field f = record {
  label = f.label;
  value = f.value;
  kind = f.kind;
  filename = f.filename;
  mime_type = f.mime_type;
  extra = [];
}

-- importerRecordToEntryData
unfoldable pub content_of : FileRecord → Content
content_of rec = record {
  fields = rec.fields;
  period = pos 0;
  digits = pos 0;
  algorithm = [];
  custom_fields = map custom_field rec.custom_fields;
  tags = rec.tags;
  others = [];
}

-- rec.TOTPSecret = ""
unfoldable pub without_secret : (Field → Text) → Field → Text
without_secret fields totp_secret = []
without_secret fields f = fields f

-- One turn of the loop of dropStrayTOTPSecrets.
unfoldable pub drop_stray_secret : FileRecord → FileRecord
drop_stray_secret rec =
    if not (is_blank (rec.fields totp_secret))
      && text_eq (rec.fields totp_secret) (rec.fields password)
    then record rec {
      fields = without_secret rec.fields;
      entry_type = if text_eq rec.entry_type (text "totp") then text "password" else rec.entry_type;
    }
    else rec

-- The tags that are not too long.
unfoldable pub short_tags : List Text → List Text
short_tags [] = []
short_tags (t ∷ ts) =
    let rest = short_tags ts in
    if ltb max_tag_length (length (normalize_tag t)) then rest else t ∷ rest

-- A field with this label that no field of the file has been paired with.
unfoldable pub is_free_slot : Text → CustomField × Bool → Bool
is_free_slot label (f, paired) = not paired && text_eq f.label label

-- A field of the file on top of the one that it is paired with.
unfoldable pub put_value : CustomField → CustomField → CustomField
put_value f g =
    if is_blank g.value
    then f
    else record f { value = g.value; kind = g.kind; filename = g.filename; mime_type = g.mime_type }

-- One turn of the loop of mergeCustomFields: the fields so far with whether they are paired.
unfoldable pub pair_field : CustomField → List (CustomField × Bool) → List (CustomField × Bool)
pair_field g [] = (g, true) ∷ []
pair_field g (slot ∷ slots) =
    let rest = pair_field g slots in
    if is_free_slot g.label slot then (put_value (slot.0) g, true) ∷ slots else slot ∷ rest

-- The loop of mergeCustomFields over the fields of the file.
unfoldable pub pair_fields :
    List CustomField → List (CustomField × Bool) → List (CustomField × Bool)
pair_fields [] slots = slots
pair_fields (g ∷ gs) slots = pair_fields gs (pair_field g slots)

abbrev pub unpaired : CustomField → CustomField × Bool
unpaired f = (f, false)

abbrev pub field_of : CustomField × Bool → CustomField
field_of (f, paired) = f

-- mergeCustomFields
unfoldable pub merge_custom_fields : List CustomField → List CustomField → List CustomField
merge_custom_fields existing imported = map field_of (pair_fields imported (map unpaired existing))

-- The loop of mergeImportedData.
unfoldable pub merge_known : (Field → Text) → (Field → Text) → Field → Text
merge_known existing imported f = if is_blank (imported f) then existing f else imported f

-- The spaces, hyphens and underscores that cleanSecret takes out.
unfoldable pub without_separators : Text → Text
without_separators [] = []
without_separators (c ∷ cs) =
    let rest = without_separators cs in if c == 32 || c == 45 || c == 95 then rest else c ∷ rest

module _ (upper : Text → Text) where
  -- cleanSecret
  unfoldable pub clean_secret : Text → Text
  clean_secret s = upper (without_separators (trim s))

  -- SameSecret
  unfoldable pub same_secret : Text → Text → Bool
  same_secret a b =
      text_eq (trim_right (λ c. c == 61) (clean_secret a))
        (trim_right (λ c. c == 61) (clean_secret b))

  -- The secret is a new one, so that the code options of the stored one do not fit it.
  unfoldable pub has_new_secret : Content → Content → Bool
  has_new_secret existing imported =
      not (is_blank (imported.fields totp_secret))
      && not (same_secret (imported.fields totp_secret) (existing.fields totp_secret))

  -- mergeImportedData
  unfoldable pub merge_imported_data : Content → Content → Content
  merge_imported_data existing imported =
      let source = if has_new_secret existing imported then imported else existing in
      record {
        fields = merge_known existing.fields imported.fields;
        period = source.period;
        digits = source.digits;
        algorithm = source.algorithm;
        custom_fields = merge_custom_fields existing.custom_fields imported.custom_fields;
        tags = elim imported.tags [ [] ↦ existing.tags | t ∷ ts ↦ t ∷ ts ];
        others = existing.others;
      }

-- isLogin of sameTypeFamily
unfoldable pub is_login : Text → Bool
is_login t = is_blank t || text_eq t (text "password") || text_eq t (text "totp")

-- sameTypeFamily
unfoldable pub same_type_family : Text → Text → Bool
same_type_family a b = text_eq a b || is_login a && is_login b

-- FindDuplicates
unfoldable pub find_duplicates :
    (Text → Text → Bool) → Text → Text → Text → List Existing → List Text
find_duplicates equal_fold name user entry_type [] = []
find_duplicates equal_fold name user entry_type (e ∷ es) =
    let rest = find_duplicates equal_fold name user entry_type es in
    if equal_fold e.name name
      && equal_fold (e.content.fields username) user
      && same_type_family e.entry_type entry_type
    then e.id ∷ rest
    else rest

-- normalizeImportedTags, but for the warnings.
unfoldable pub normalize_imported_tags : (ℕ → ℕ) → FileRecord → FileRecord
normalize_imported_tags lower rec = record rec {
  tags = elim (normalize_tags lower (short_tags rec.tags)) [ none ↦ [] | some ts ↦ ts ];
}
