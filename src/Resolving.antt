-- ===== src/Resolving.antt =====
-- The one entry that an argument of a command names: cli/internal/cli/resolve.go, with URLHost of
-- cli/internal/vault/vault.go. net/url's Parse is the parameter `parse_host`.
pub mod Choice
use passbubble.Prelude.{
  ℕ, Bool, true, false, Option, none, some, List, [], ◌∷◌, ◌++◌, if◌then◌else◌, map, not, ◌⊎◌, inl,
  inr, ◌&&◌, ◌||◌,
}
use passbubble.Texts.{Text, is_space, is_blank, trim_left, trim_right, text_eq, text, contains_text}

-- The part of vault.Entry that the choice reads.
pub record Entry : Type 0 where
  pub id : Text
  pub name : Text
  pub entry_type : Text
  pub url : Text

-- What GetEntry returns: an error, an entry without data, or the username in its data.
pub data Read : Type 0 where
  unreadable : Read
  no_data : Read
  with_username : Text → Read

-- The vault: what ListEntries and GetEntry return, whether it is unlocked, and whether unlocking it
-- works.
pub record Catalogue : Type 0 where
  pub entries : Option (List Entry)
  pub get_entry : Text → Read
  pub is_unlocked : Bool
  pub unlock_works : Bool

-- resolveOptions
pub record ResolveOptions : Type 0 where
  pub entry_type : Text
  pub username : Text

-- ambiguousRow
pub record AmbiguousRow : Type 0 where
  pub id : Text
  pub username : Text
  pub host : Text

-- What resolveEntry returns: an entry, or one of its errors.
pub data Resolved : Type 0 where
  found : Entry → Resolved
  list_failed : Resolved
  no_such_name : Resolved
  wrong_type : Resolved
  unlock_failed : Resolved
  entry_unreadable : Text → Resolved
  no_such_username : Resolved
  ambiguous : List AmbiguousRow → Resolved

-- The loop over all entries, with the matches so far: an id ends it and needs no username.
unfoldable pub collect : Text → List Entry → List Entry → List Entry × Bool
collect arg matches [] = (matches, false)
collect arg matches (e ∷ rest) =
    let others = collect arg matches rest in
    let more = collect arg (matches ++ e ∷ []) rest in
    if text_eq e.id arg then (e ∷ [], true) else if text_eq e.name arg then more else others

-- The loop that keeps the entries of the type.
unfoldable pub of_type : Text → List Entry → List Entry
of_type wanted [] = []
of_type wanted (e ∷ rest) =
    let others = of_type wanted rest in if text_eq e.entry_type wanted then e ∷ others else others

-- The username of an entry is the one wanted.
unfoldable pub has_username : Text → Read → Bool
has_username wanted unreadable = false
has_username wanted no_data = false
has_username wanted (with_username u) = text_eq u wanted

abbrev pub is_readable : Read → Bool
is_readable unreadable = false
is_readable no_data = true
is_readable (with_username u) = true

-- The loop of filterByUsername, with the entries so far.
unfoldable pub filter_usernames : Catalogue → Text → List Entry → List Entry → Resolved ⊎ List Entry
filter_usernames v wanted out [] = inr out
filter_usernames v wanted out (e ∷ rest) =
    let others = filter_usernames v wanted out rest in
    let more = filter_usernames v wanted (out ++ e ∷ []) rest in
    if not (is_readable (v.get_entry e.id))
    then inl (entry_unreadable e.id)
    else if has_username wanted (v.get_entry e.id)
    then more
    else others

-- filterByUsername
unfoldable pub filter_by_username : Catalogue → Text → List Entry → Resolved ⊎ List Entry
filter_by_username v wanted entries =
    if v.is_unlocked || v.unlock_works
    then filter_usernames v wanted [] entries
    else inl unlock_failed

module _ (parse_host : Text → Option Text) where
  -- URLHost
  unfoldable pub url_host : Text → Text
  url_host url =
      let raw = trim_left is_space (trim_right is_space url) in
      if is_blank raw
      then []
      else elim (parse_host
          (if contains_text (text "://") raw then raw else text "https://" ++ raw)) [
            | none ↦ []
            | some host ↦ host
          ]

  unfoldable pub row_username : Bool → Read → Text
  row_username false read = text "(locked)"
  row_username true unreadable = text "(unreadable)"
  row_username true no_data = text "(unreadable)"
  row_username true (with_username u) = u

  -- rowsWithUsernames
  unfoldable pub rows_with_usernames : Catalogue → List Entry → List AmbiguousRow
  rows_with_usernames v entries =
      map
        (λ e. record {
          id = e.id;
          username = row_username (v.is_unlocked || v.unlock_works) (v.get_entry e.id);
          host = url_host e.url;
        })
        entries

  -- The end of resolveEntry: one match, or several.
  unfoldable pub choose : Catalogue → List Entry → Resolved
  choose v [] = no_such_name
  choose v (e ∷ []) = found e
  choose v (e ∷ f ∷ rest) = ambiguous (rows_with_usernames v (e ∷ f ∷ rest))

  -- resolveEntry behind the type: the username, unless an id was given.
  unfoldable pub narrow : Catalogue → Text → List Entry → Resolved
  narrow v username matches =
      if is_blank username then choose v matches else elim (filter_by_username v username matches) [
        | inl error ↦ error
        | inr [] ↦ no_such_username
        | inr (e ∷ rest) ↦ choose v (e ∷ rest)
      ]

  -- resolveEntry behind the list, with the matches and whether an id made them.
  unfoldable pub resolve_among : Catalogue → ResolveOptions → List Entry × Bool → Resolved
  resolve_among v opts ([], by_id) = no_such_name
  resolve_among v opts (e ∷ rest, by_id) =
      let username = if by_id then [] else opts.username in
      if is_blank opts.entry_type
      then narrow v username (e ∷ rest)
      else elim (of_type opts.entry_type (e ∷ rest)) [
        | [] ↦ wrong_type
        | d ∷ ds ↦ narrow v username (d ∷ ds)
      ]

  -- resolveEntry
  unfoldable pub resolve_entry : Catalogue → Text → ResolveOptions → Resolved
  resolve_entry v arg opts = elim v.entries [
    | none ↦ list_failed
    | some entries ↦ resolve_among v opts (collect arg [] entries)
  ]
