-- ===== src/Tests/Views.antt =====
-- Witnesses for what a caller is shown.
use passbubble.Prelude.{
  take_while, delivered, true, none, some, [], ◌∷◌, ◌≡◌, refl, find_where, exists_where,
  select_where, order_by, insert_by,
}
use passbubble.Store.{error, contains}
use passbubble.Entries.{delete_entry}
use passbubble.Entries.Access.{entry_perm}
use passbubble.Reading.{
  EntryResponse, get_entry, is_visible, is_listed, scanned, own_key, entry_response, list_entries,
  visible_entries,
}
use passbubble.Reading.Visibility.{
  IsAllowed, get_entry-IsAllowed, delete_entry-hides, IsListing, list_entries-IsListing,
}
use passbubble.Tests.Data.{world_at, owner, reader, entry_row, shared_db}

abbrev shown : EntryResponse
shown = record {
  entry = entry_row 10 none;
  encrypted_data = "";
  data_nonce = "";
  entry_key = some "";
}

get_entry-IsAllowed_example : IsAllowed (world_at 200 900) 2 10 shared_db shown
unfolding get_entry is_visible own_key entry_response find_where exists_where
get_entry-IsAllowed_example = get_entry-IsAllowed (world_at 200 900) reader 10 shared_db shown refl

delete_entry-hides_example :
    get_entry (world_at 300 910) reader 10 (delete_entry (world_at 200 900) owner 10 shared_db).0
    ≡ error 404 "entry not found"
unfolding delete_entry entry_perm contains exists_where
delete_entry-hides_example =
    delete_entry-hides (world_at 200 900) (world_at 300 910) owner reader 10 shared_db _ refl

list_entries-IsListing_example : IsListing (world_at 200 900) shared_db 2 (entry_row 10 none ∷ [])
unfolding list_entries visible_entries is_listed scanned take_while delivered select_where
    exists_where order_by insert_by
list_entries-IsListing_example =
    list_entries-IsListing (λ a b. true) (world_at 200 900) reader shared_db
      (entry_row 10 none ∷ []) refl
