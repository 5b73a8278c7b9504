-- ===== src/Resolving/Choice.antt =====
-- resolveEntry of cli/internal/cli/resolve.go never guesses.
use passbubble.Prelude.{
  Bool, true, false, ◌&&◌, ◌||◌, Option, none, some, List, [], ◌∷◌, ◌++◌, if◌then◌else◌, ◌≡◌, ◌≢◌,
  refl, arith, Bool-cases, Option-cases, inl, inr, ◌⊎◌, select_where, find_where, tally, length,
  length-select, ◌∙◌, sym, ap,
}
use mathlib.Core.List.{append_assoc, append-nil}
use passbubble.Texts.{Text, text_eq, is_blank}
use passbubble.Resolving.{
  Entry, Catalogue, ResolveOptions, Resolved, found, collect, of_type, has_username,
  filter_usernames, filter_by_username, choose, narrow, resolve_among, resolve_entry,
  no_such_username, wrong_type, list_failed,
}

module _ {A : Type 0} where
  head? : List A → Option A
  head? [] = none
  head? (x ∷ xs) = some x

  find-select : (p : A → Bool) (xs : List A) → find_where p xs ≡ head? (select_where p xs)
  unfolding find_where select_where head?
  find-select p [] = refl
  find-select p (x ∷ xs) = ground (arith, find-select p xs)

  select-select :
      (p q : A → Bool) (xs : List A)
      → select_where q (select_where p xs) ≡ select_where (λ x. p x && q x) xs
  unfolding select_where
  select-select p q [] = refl
  select-select p q (x ∷ xs) = ground (arith, select-select p q xs)

  select-all : (p : A → Bool) (xs : List A) → ((x : A) → p x ≡ true) → select_where p xs ≡ xs
  unfolding select_where
  select-all p [] h = refl
  select-all p (x ∷ xs) h = ground (arith, h x, select-all p xs h)

  same_select :
      (p q : A → Bool) (xs : List A) → ((x : A) → p x ≡ q x) → select_where p xs ≡ select_where q xs
  unfolding select_where
  same_select p q [] h = refl
  same_select p q (x ∷ xs) h = ground (arith, h x, same_select p q xs h)

  -- One row is selected: it is the one found, and there is no other.
  select_one :
      (p : A → Bool) (xs : List A) (x : A)
      → select_where p xs ≡ x ∷ []
      → (find_where p xs ≡ some x) × (tally p xs ≡ 1)
  unfolding head?
  select_one p xs x h = (find-select p xs ∙ ap head? h, sym (length-select p xs) ∙ ap length h)

abbrev pub is_id : Text → Entry → Bool
is_id arg e = text_eq e.id arg

abbrev pub is_named : Text → Entry → Bool
is_named arg e = text_eq e.name arg

abbrev pub has_type : Text → Entry → Bool
has_type wanted e = is_blank wanted || text_eq e.entry_type wanted

abbrev pub is_of_user : Catalogue → Text → Entry → Bool
is_of_user v wanted e = is_blank wanted || has_username wanted (v.get_entry e.id)

-- The entry has the name, the type and the username that are asked for.
abbrev pub fits : Catalogue → Text → ResolveOptions → Entry → Bool
fits v arg opts e = is_named arg e && has_type opts.entry_type e && is_of_user v opts.username e

collect_lem :
    (arg : Text) (out entries : List Entry)
    → collect arg out entries ≡ elim (find_where (is_id arg) entries) [
      | none ↦ (out ++ select_where (is_named arg) entries, false)
      | some e ↦ (e ∷ [], true)
    ]
unfolding collect find_where select_where
collect_lem arg out [] = ap (λ l. (l, false)) (sym (append-nil out))
collect_lem arg out (e ∷ rest) = ground (
  arith,
  collect_lem arg out rest,
  collect_lem arg (out ++ e ∷ []) rest,
  append_assoc out (e ∷ []) (select_where (is_named arg) rest),
)

of_type_lem :
    (wanted : Text) (entries : List Entry)
    → of_type wanted entries ≡ select_where (λ e. text_eq e.entry_type wanted) entries
unfolding of_type select_where
of_type_lem wanted [] = refl
of_type_lem wanted (e ∷ rest) = ground (arith, of_type_lem wanted rest)

filter_usernames_lem :
    (v : Catalogue) (wanted : Text) (out entries ds : List Entry)
    → filter_usernames v wanted out entries ≡ inr ds
    → ds ≡ out ++ select_where (λ e. has_username wanted (v.get_entry e.id)) entries
unfolding filter_usernames select_where
filter_usernames_lem v wanted out [] ds h = ground (arith, append-nil out)
filter_usernames_lem v wanted out (e ∷ rest) ds h = ground (
  arith,
  filter_usernames_lem v wanted out rest ds,
  filter_usernames_lem v wanted (out ++ e ∷ []) rest ds,
  append_assoc out (e ∷ []) (select_where (λ d. has_username wanted (v.get_entry d.id)) rest),
)

filter_by_username_lem :
    (v : Catalogue) (wanted : Text) (entries ds : List Entry)
    → filter_by_username v wanted entries ≡ inr ds
    → ds ≡ select_where (λ e. has_username wanted (v.get_entry e.id)) entries
unfolding filter_by_username
filter_by_username_lem v wanted entries ds h = elim (Bool-cases (v.is_unlocked || v.unlock_works)) [
  | inl opens ↦ filter_usernames_lem v wanted [] entries ds (rw opens at h)
  | inr shut ↦ absurd (ground arith)
]

abbrev is_found : Resolved → Bool
is_found (found e) = true
is_found r = false

filter_usernames_error :
    (v : Catalogue) (wanted : Text) (out entries : List Entry) (r : Resolved)
    → filter_usernames v wanted out entries ≡ inl r
    → is_found r ≡ false
unfolding filter_usernames
filter_usernames_error v wanted out [] r h = absurd (ground arith)
filter_usernames_error v wanted out (e ∷ rest) r h = ground (
  arith,
  filter_usernames_error v wanted out rest r,
  filter_usernames_error v wanted (out ++ e ∷ []) rest r,
)

filter_by_username_error :
    (v : Catalogue) (wanted : Text) (entries : List Entry) (e : Entry)
    → filter_by_username v wanted entries ≢ inl (found e)
unfolding filter_by_username
filter_by_username_error v wanted entries e h =
    ground (arith, filter_usernames_error v wanted [] entries (found e))

module _ (parse_host : Text → Option Text) where
  choose_found :
      (v : Catalogue) (matches : List Entry) (e : Entry)
      → choose parse_host v matches ≡ found e
      → matches ≡ e ∷ []
  unfolding choose
  choose_found v [] e h = absurd (ground arith)
  choose_found v (d ∷ []) e h = ground arith
  choose_found v (d ∷ f ∷ rest) e h = absurd (ground arith)

  filtered_found :
      (v : Catalogue) (filtered : Resolved ⊎ List Entry) (e : Entry)
      → elim filtered [
        | inl error ↦ error
        | inr [] ↦ no_such_username
        | inr (d ∷ rest) ↦ choose parse_host v (d ∷ rest)
      ]
        ≡ found e
      → (filtered ≡ inr (e ∷ [])) ⊎ (filtered ≡ inl (found e))
  filtered_found v (inl error) e h = inr (ap inl h)
  filtered_found v (inr []) e h = absurd (ground arith)
  filtered_found v (inr (d ∷ rest)) e h = inl (ap inr (choose_found v (d ∷ rest) e h))

  narrow_found :
      (v : Catalogue) (username : Text) (matches : List Entry) (e : Entry)
      → narrow parse_host v username matches ≡ found e
      → select_where (is_of_user v username) matches ≡ e ∷ []
  unfolding narrow
  narrow_found v username matches e h = elim (Bool-cases (is_blank username)) [
    | inl blank ↦
        select-all (is_of_user v username) matches (λ d. ground arith)
        ∙ choose_found v matches e (rw blank at h)
    | inr given ↦
        elim (filtered_found v (filter_by_username v username matches) e (rw given at h)) [
          | inl one ↦
              same_select (is_of_user v username) (λ d. has_username username (v.get_entry d.id))
                matches (λ d. ground arith)
              ∙ sym (filter_by_username_lem v username matches (e ∷ []) one)
          | inr error ↦ absurd (filter_by_username_error v username matches e error)
        ]
  ]

  typed_found :
      (v : Catalogue) (username wanted : Text) (matches : List Entry) (e : Entry)
      → elim (of_type wanted matches) [
        | [] ↦ wrong_type
        | d ∷ ds ↦ narrow parse_host v username (d ∷ ds)
      ]
        ≡ found e
      → select_where (is_of_user v username) (of_type wanted matches) ≡ e ∷ []
  typed_found v username wanted matches e h =
      elim (of_type wanted matches)
          as (λ typed.
            elim typed as (λ _. Resolved) [
              | [] ↦ wrong_type
              | d ∷ ds ↦ narrow parse_host v username (d ∷ ds)
            ]
              ≡ found e
            → select_where (is_of_user v username) typed ≡ e ∷ []) [
              | [] ↦ λ h. absurd (ground arith)
              | d ∷ ds ↦ λ h. narrow_found v username (d ∷ ds) e h
            ]
        h

  resolve_among_found :
      (v : Catalogue) (opts : ResolveOptions) (matches : List Entry) (by_id : Bool) (e : Entry)
      → resolve_among parse_host v opts (matches, by_id) ≡ found e
      → select_where
          (λ d. has_type opts.entry_type d && is_of_user v (if by_id then [] else opts.username) d)
          matches
        ≡ e ∷ []
  unfolding resolve_among
  resolve_among_found v opts [] by_id e h = absurd (ground arith)
  resolve_among_found v opts (d ∷ rest) by_id e h = elim (Bool-cases (is_blank opts.entry_type)) [
    | inl any ↦
        same_select _ (is_of_user v (if by_id then [] else opts.username)) (d ∷ rest)
          (λ f. ground arith)
        ∙ narrow_found v (if by_id then [] else opts.username) (d ∷ rest) e (rw any at h)
    | inr one ↦
        sym (
          select-select (has_type opts.entry_type)
            (is_of_user v (if by_id then [] else opts.username)) (d ∷ rest))
        ∙ ap (select_where (is_of_user v (if by_id then [] else opts.username))) (
            same_select (has_type opts.entry_type) (λ f. text_eq f.entry_type opts.entry_type)
              (d ∷ rest) (λ f. ground arith)
            ∙ sym (of_type_lem opts.entry_type (d ∷ rest)))
        ∙ typed_found v (if by_id then [] else opts.username) opts.entry_type (d ∷ rest) e
            (rw one at h)
  ]

  named_found :
      (v : Catalogue) (arg : Text) (opts : ResolveOptions) (entries : List Entry) (e : Entry)
      → resolve_among parse_host v opts (select_where (is_named arg) entries, false) ≡ found e
      → (find_where (fits v arg opts) entries ≡ some e) × (tally (fits v arg opts) entries ≡ 1)
  named_found v arg opts entries e h = select_one (fits v arg opts) entries e (
      same_select (fits v arg opts) _ entries (λ d. ground arith)
      ∙ sym (
          select-select (is_named arg)
            (λ d. has_type opts.entry_type d && is_of_user v opts.username d) entries)
      ∙ resolve_among_found v opts (select_where (is_named arg) entries) false e h)

  id_found :
      (v : Catalogue) (opts : ResolveOptions) (d e : Entry)
      → resolve_among parse_host v opts (d ∷ [], true) ≡ found e
      → (d ≡ e) × (has_type opts.entry_type e ≡ true)
  unfolding select_where
  id_found v opts d e h =
      let one = resolve_among_found v opts (d ∷ []) true e h in
      elim (Bool-cases (has_type opts.entry_type d)) [
        | inl typed ↦ (let same : d ≡ e = ground arith in (same, rw (← same) typed))
        | inr other ↦ absurd (ground arith)
      ]

  listed_found :
      (v : Catalogue) (arg : Text) (opts : ResolveOptions) (listed : Option (List Entry))
      (entries : List Entry) (e : Entry)
      → listed ≡ some entries
      → elim listed [
        | none ↦ list_failed
        | some all ↦ resolve_among parse_host v opts (collect arg [] all)
      ]
        ≡ found e
      → resolve_among parse_host v opts (collect arg [] entries) ≡ found e
  listed_found v arg opts listed entries e eq h = rw eq at h

  -- If resolveEntry returns an entry, then it is the first whose id is the argument, and has the
  -- type asked for, or no id is the argument, and it is the only entry of the vault with the
  -- argument as its name, the type and the username asked for.
  pub resolve_entry-only :
      (v : Catalogue) (arg : Text) (opts : ResolveOptions) (entries : List Entry) (e : Entry)
      → v.entries ≡ some entries
      → resolve_entry parse_host v arg opts ≡ found e
      → ((find_where (is_id arg) entries ≡ some e) × (has_type opts.entry_type e ≡ true))
        ⊎ ((find_where (is_id arg) entries ≡ none)
            × (find_where (fits v arg opts) entries ≡ some e)
            × (tally (fits v arg opts) entries ≡ 1))
  unfolding resolve_entry
  resolve_entry-only v arg opts entries e listed h =
      let among =
        rw (collect_lem arg [] entries) at (listed_found v arg opts v.entries entries e listed h) in
      elim (Option-cases (find_where (is_id arg) entries)) [
        | inl no_id ↦
            let (first, only) = named_found v arg opts entries e (rw no_id at among) in
            inr (no_id, first, only)
        | inr (d, by_id) ↦
            let (same, typed) = id_found v opts d e (rw by_id at among) in
            inl (by_id ∙ ap some same, typed)
      ]
