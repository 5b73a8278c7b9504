-- ===== src/Importing/Merging.antt =====
-- What the merge of custom fields, mergeCustomFields of cli/internal/cli/importexport.go, amounts to
-- for the fields of one label.
use passbubble.Importing.{
  CustomField, Content, is_free_slot, put_value, pair_field, pair_fields, unpaired, field_of,
  merge_custom_fields, merge_imported_data,
}
use passbubble.Prelude.{
  ◌≡◌, refl, sym, ap, ◌∙◌, subst, arith, Bool, true, false, inl, inr, List, [], ◌∷◌, map,
  select_where, Bool-cases, All,
}
use passbubble.Texts.{text_eq_refl, text_eq-Same, Text, text_eq}

abbrev pub has_label : Text → CustomField → Bool
has_label label f = text_eq f.label label

abbrev labelled_slot : Text → CustomField × Bool → Bool
labelled_slot label slot = text_eq slot.0.label label

-- Two lists of fields paired off in order: the value of a field of the file goes on top of the one
-- that it meets, and what is left over on either side stays.
unfoldable pub overlay : List CustomField → List CustomField → List CustomField
overlay [] gs = gs
overlay (f ∷ fs) [] = f ∷ fs
overlay (f ∷ fs) (g ∷ gs) = put_value f g ∷ overlay fs gs

label-put_value : (f g : CustomField) → (put_value f g).label ≡ f.label
unfolding put_value
label-put_value f g = ground arith

-- A free slot for a field has the label of the field, before and after.
free_slot-labels :
    (label : Text) (f g : CustomField) (paired : Bool)
    → is_free_slot g.label (f, paired) ≡ true
    → (text_eq f.label label ≡ text_eq g.label label)
      × (text_eq ((put_value f g).label) label ≡ text_eq g.label label)
      × (paired ≡ false)
unfolding is_free_slot
free_slot-labels label f g paired free =
    let same : f.label ≡ g.label = text_eq-Same f.label g.label (ground arith) in
    let agree : text_eq f.label label ≡ text_eq g.label label = ap (λ k. text_eq k label) same in
    (agree, ap (λ k. text_eq k label) (label-put_value f g) ∙ agree, ground arith)

-- A field of another label leaves the slots of a label alone.
pair_field-other :
    (label : Text) (g : CustomField)
    → text_eq g.label label ≡ false
    → (slots : List (CustomField × Bool))
    → select_where (labelled_slot label) (pair_field g slots)
      ≡ select_where (labelled_slot label) slots
unfolding pair_field select_where is_free_slot
pair_field-other label g other [] = ground arith
pair_field-other label g other ((f, paired) ∷ slots) =
    ground (arith, pair_field-other label g other slots, free_slot-labels label f g paired)

-- A field of the label is paired among the slots of the label.
pair_field-own :
    (label : Text) (g : CustomField)
    → text_eq g.label label ≡ true
    → (slots : List (CustomField × Bool))
    → select_where (labelled_slot label) (pair_field g slots)
      ≡ pair_field g (select_where (labelled_slot label) slots)
unfolding pair_field select_where is_free_slot
pair_field-own label g own [] = ground arith
pair_field-own label g own ((f, paired) ∷ slots) =
    ground (arith, pair_field-own label g own slots, free_slot-labels label f g paired)

-- The loop, seen at one label.
select-pair_fields :
    (label : Text) (gs : List CustomField) (slots : List (CustomField × Bool))
    → select_where (labelled_slot label) (pair_fields gs slots)
      ≡ pair_fields (select_where (has_label label) gs) (select_where (labelled_slot label) slots)
unfolding pair_fields select_where
select-pair_fields label [] slots = refl
select-pair_fields label (g ∷ gs) slots = elim (Bool-cases (text_eq g.label label)) [
  | inl own ↦
      ground
        (arith, select-pair_fields label gs (pair_field g slots), pair_field-own label g own slots)
  | inr other ↦ ground (
    arith,
    select-pair_fields label gs (pair_field g slots),
    pair_field-other label g other slots,
  )
]

select-field_of :
    (label : Text) (slots : List (CustomField × Bool))
    → select_where (has_label label) (map field_of slots)
      ≡ map field_of (select_where (labelled_slot label) slots)
unfolding select_where
select-field_of label [] = refl
select-field_of label ((f, paired) ∷ slots) = ground (arith, select-field_of label slots)

select-unpaired :
    (label : Text) (fs : List CustomField)
    → select_where (labelled_slot label) (map unpaired fs)
      ≡ map unpaired (select_where (has_label label) fs)
unfolding select_where
select-unpaired label [] = refl
select-unpaired label (f ∷ fs) = ground (arith, select-unpaired label fs)

-- A slot that is paired stays as it is.
pair_fields-paired :
    (gs : List CustomField) (f : CustomField) (slots : List (CustomField × Bool))
    → pair_fields gs ((f, true) ∷ slots) ≡ (f, true) ∷ pair_fields gs slots
unfolding pair_fields pair_field is_free_slot
pair_fields-paired [] f slots = refl
pair_fields-paired (g ∷ gs) f slots = pair_fields-paired gs f (pair_field g slots)

fields_unpaired : (fs : List CustomField) → map field_of (map unpaired fs) ≡ overlay fs []
unfolding overlay
fields_unpaired [] = refl
fields_unpaired (f ∷ []) = refl
fields_unpaired (f ∷ g ∷ fs) = ap (λ hs. f ∷ hs) (fields_unpaired (g ∷ fs))

same_label :
    (label : Text) (f g : CustomField)
    → has_label label f ≡ true
    → has_label label g ≡ true
    → text_eq f.label g.label ≡ true
same_label label f g of_f of_g =
    let f_is : f.label ≡ label = text_eq-Same f.label label of_f in
    let g_is : g.label ≡ label = text_eq-Same g.label label of_g in
    subst (λ k. text_eq f.label k ≡ true) (f_is ∙ sym g_is) (text_eq_refl f.label)

select_where-All :
    (label : Text) (fs : List CustomField)
    → All (λ f. has_label label f ≡ true) (select_where (has_label label) fs)
unfolding select_where
select_where-All label [] = tt
select_where-All label (f ∷ fs) = elim (Bool-cases (has_label label f)) [
  | inl own ↦ rw own (own, select_where-All label fs)
  | inr other ↦ rw other (select_where-All label fs)
]

-- Fields of one label pair off in order.
pair_fields-overlay :
    (label : Text) (fs gs : List CustomField)
    → All (λ f. has_label label f ≡ true) fs
    → All (λ g. has_label label g ≡ true) gs
    → map field_of (pair_fields gs (map unpaired fs)) ≡ overlay fs gs
unfolding pair_fields pair_field is_free_slot overlay
pair_fields-overlay label fs [] of_fs of_gs = fields_unpaired fs
pair_fields-overlay label [] (g ∷ gs) of_fs of_gs =
    ap (map field_of) (pair_fields-paired gs g [])
    ∙ ap (λ hs. g ∷ hs) (pair_fields-overlay label [] gs tt of_gs.1)
pair_fields-overlay label (f ∷ fs) (g ∷ gs) of_fs of_gs = ground (
  arith,
  same_label label f g,
  pair_fields-paired gs (put_value f g) (map unpaired fs),
  pair_fields-overlay label fs gs,
)

-- The merge of what is stored with what a file holds keeps, for each label, its fields in order:
-- those of the file pair off with those that are stored, one by one, a value that is not blank going
-- on top of the stored one; the fields that are left over on either side stay.
pub merge_imported_data-overlay :
    (upper : Text → Text) (existing imported : Content) (label : Text)
    → select_where (has_label label) (merge_imported_data upper existing imported).custom_fields
      ≡ overlay
          (select_where (has_label label) existing.custom_fields)
          (select_where (has_label label) imported.custom_fields)
unfolding merge_imported_data merge_custom_fields
merge_imported_data-overlay upper existing imported label =
    let stored = select_where (has_label label) existing.custom_fields in
    let ours = select_where (has_label label) imported.custom_fields in
    rw
      (
        select-field_of label
            (pair_fields imported.custom_fields (map unpaired existing.custom_fields)),
        select-pair_fields label imported.custom_fields (map unpaired existing.custom_fields),
        select-unpaired label existing.custom_fields,
      )
      (pair_fields-overlay label stored ours (select_where-All label existing.custom_fields)
        (select_where-All label imported.custom_fields))
