-- ===== src/Backups/Writing.antt =====
-- What Create of cli/pkg/backup/backup.go leaves on the disk.
use passbubble.Prelude.{
  map, select_where, if◌then◌else◌, ℕ, ◌+◌, false, Option, none, some, List, [], ◌∷◌, length,
  is_some, ◌≡◌, refl, arith, All, Bool-cases, inl, inr,
}
use passbubble.Texts.{Text}
use passbubble.Backups.{BackedUp, Source, has_data, add_entry, read_entries}

-- Every listed entry is read or skipped, and those skipped have no data.
pub read_entries-size :
    (src : Source) (listed : List (ℕ × Text))
    → length (read_entries src listed).0 + length (read_entries src listed).1 ≡ length listed
unfolding read_entries add_entry
read_entries-size src [] = omega arith
read_entries-size src ((id, name) ∷ rest) = ground (arith, read_entries-size src rest)

add_entry-saved :
    (id : ℕ) (found : Option BackedUp) (st : List BackedUp × List ℕ)
    → map some (add_entry id found st).0
      ≡ (if has_data found then found ∷ map some st.0 else map some st.0)
unfolding add_entry
add_entry-saved id none (entries, skipped) = refl
add_entry-saved id (some e) (entries, skipped) = ground arith

-- The entries read are all those listed that have data, as they are, in their order,
pub read_entries-saved :
    (src : Source) (listed : List (ℕ × Text))
    → map some (read_entries src listed).0
      ≡ select_where has_data (map (λ l. src.get_entry l.0) listed)
unfolding read_entries select_where
read_entries-saved src [] = refl
read_entries-saved src ((id, name) ∷ rest) = ground (
  arith,
  read_entries-saved src rest,
  add_entry-saved id (src.get_entry id) (read_entries src rest),
)

add_entry-skipped :
    (src : Source) (id : ℕ) (found : Option BackedUp) (entries : List BackedUp) (skipped : List ℕ)
    → src.get_entry id ≡ found
    → All (λ i. has_data (src.get_entry i) ≡ false) skipped
    → All (λ i. has_data (src.get_entry i) ≡ false) (add_entry id found (entries, skipped)).1
unfolding add_entry
add_entry-skipped src id none entries skipped e h = (ground (arith, e), h)
add_entry-skipped src id (some full) entries skipped e h =
    elim (Bool-cases (is_some full.content)) [
      | inl f ↦ rw f h
      | inr f ↦ rw f (ground (arith, e, f), h)
    ]

pub read_entries-skipped :
    (src : Source) (listed : List (ℕ × Text))
    → All (λ id. has_data (src.get_entry id) ≡ false) (read_entries src listed).1
unfolding read_entries
read_entries-skipped src [] = tt
read_entries-skipped src ((id, name) ∷ rest) =
    add_entry-skipped src id (src.get_entry id) (read_entries src rest).0 (read_entries src rest).1
      refl (read_entries-skipped src rest)
