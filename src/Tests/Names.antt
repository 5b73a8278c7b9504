-- ===== src/Tests/Names.antt =====
-- Witnesses for the choice of an entry by its name.
use passbubble.Prelude.{
  ℕ, true, false, Option, none, some, List, [], ◌∷◌, ◌≡◌, refl, find_where, tally, ◌⊎◌,
  if◌then◌else◌,
}
use passbubble.Texts.{
  Text, text, text_eq, is_space, has_char, contains_text, has_prefix, trim_left, trim_right,
}
use passbubble.Resolving.{
  Entry, Catalogue, ResolveOptions, resolve_entry, with_username, no_data, resolve_among, collect,
  of_type, narrow, choose, filter_by_username, filter_usernames, has_username, ambiguous,
  rows_with_usernames, row_username, url_host,
}
use passbubble.Resolving.Choice.{is_id, has_type, fits, resolve_entry-only}

abbrev mail : ℕ → Entry
mail n = record { id = n ∷ []; name = text "mail"; entry_type = text "login"; url = text " a.org" }

-- Two entries of one name, of which the second belongs to eve, behind another.
abbrev three_entries : List Entry
three_entries =
    record { id = 51 ∷ []; name = text "bank"; entry_type = text "card"; url = [] }
    ∷ mail 52
    ∷ mail 53
    ∷ []

abbrev locked_vault : Catalogue
locked_vault = record {
  entries = some three_entries;
  get_entry = λ id. if has_char 53 id then with_username (text "eve") else no_data;
  is_unlocked = false;
  unlock_works = true;
}

abbrev eves_login : ResolveOptions
eves_login = record { entry_type = text "login"; username = text "eve" }

abbrev hosts : Text → Option Text
hosts url = some url

resolve_entry-only_example :
    ((find_where (is_id (text "mail")) three_entries ≡ some (mail 53))
      × (has_type eves_login.entry_type (mail 53) ≡ true))
    ⊎ ((find_where (is_id (text "mail")) three_entries ≡ none)
        × (find_where (fits locked_vault (text "mail") eves_login) three_entries ≡ some (mail 53))
        × (tally (fits locked_vault (text "mail") eves_login) three_entries ≡ 1))
unfolding text text_eq has_char resolve_entry resolve_among collect of_type narrow choose
    filter_by_username filter_usernames has_username
resolve_entry-only_example =
    resolve_entry-only hosts locked_vault (text "mail") eves_login three_entries (mail 53) refl refl

-- Without the username the two are listed, the locked one by no name.
two_rows :
    resolve_entry hosts locked_vault (text "mail") record { entry_type = []; username = [] }
    ≡ ambiguous (
        record { id = 52 ∷ []; username = text "(unreadable)"; host = text "https://a.org" }
        ∷ record { id = 53 ∷ []; username = text "eve"; host = text "https://a.org" }
        ∷ [])
unfolding text text_eq has_char resolve_entry resolve_among collect narrow choose
    rows_with_usernames row_username url_host contains_text has_prefix trim_left trim_right is_space
two_rows = refl
