-- ===== src/Tags.antt =====
-- The tags of entries, of cli/internal/vault/tags.go. unicode.ToLower is the parameter `lower`.
pub mod Unique
use passbubble.Texts.{Text, is_space, trim_left, trim_right, text_eq, is_blank}
use passbubble.Prelude.{
  ℕ, suc, ◌+◌, Bool, true, false, not, ◌&&◌, ◌||◌, Option, none, some, List, [], ◌∷◌, ◌++◌, ◌==◌,
  ltb, leb, if◌then◌else◌, length, map,
}

-- The code point of '#'.
abbrev pub hash : ℕ
hash = 35

-- strings.Join(strings.Fields(s), " "): `gap` tells that a space is due before the next character.
unfoldable pub collapse : Bool → Text → Text
collapse gap [] = []
collapse gap (c ∷ cs) =
    let skipped = collapse true cs in
    let kept = collapse false cs in
    if is_space c then skipped else if gap then 32 ∷ c ∷ kept else c ∷ kept

-- Fields drops the spaces at the start.
unfoldable pub join_fields : Text → Text
join_fields s = collapse false (trim_left is_space s)

-- NormalizeTag
unfoldable pub normalize_tag : Text → Text
normalize_tag s =
    join_fields (trim_left (λ c. c == hash) (trim_left is_space (trim_right is_space s)))

-- MaxTagLength
abbrev pub max_tag_length : ℕ
max_tag_length = 40

-- The map of keys seen.
unfoldable pub seen : Text → List Text → Bool
seen k [] = false
seen k (t ∷ ts) = let rest = seen k ts in if text_eq t k then true else rest

module _ (lower : ℕ → ℕ) where
  -- strings.ToLower
  abbrev pub to_lower : Text → Text
  to_lower t = map lower t

  -- The loop of NormalizeTags, with the keys seen: `none` for a tag that is too long.
  unfoldable pub normalize_from : List Text → List Text → Option (List Text)
  normalize_from keys [] = some []
  normalize_from keys (raw ∷ rest) =
      let t = normalize_tag raw in
      let skipped = normalize_from keys rest in
      let kept = normalize_from (to_lower t ∷ keys) rest in
      if is_blank t
      then skipped
      else if ltb max_tag_length (length t)
      then none
      else if seen (to_lower t) keys
      then skipped
      else elim kept [ none ↦ none | some ts ↦ some (t ∷ ts) ]

  -- NormalizeTags
  unfoldable pub normalize_tags : List Text → Option (List Text)
  normalize_tags tags = normalize_from [] tags

  -- tagKey
  unfoldable pub tag_key : Text → Text
  tag_key t = to_lower (normalize_tag t)

  -- The keys of a list of tags, as the maps of HasTags and RemoveTags hold them.
  abbrev pub tag_keys : List Text → List Text
  tag_keys [] = []
  tag_keys (t ∷ ts) = tag_key t ∷ tag_keys ts

  unfoldable pub all_seen : List Text → List Text → Bool
  all_seen keys [] = true
  all_seen keys (w ∷ want) =
      let rest = all_seen keys want in if seen (tag_key w) keys then rest else false

  -- HasTags
  unfoldable pub has_tags : List Text → List Text → Bool
  has_tags tags want = all_seen (tag_keys tags) want

  unfoldable pub drop_seen : List Text → List Text → List Text
  drop_seen keys [] = []
  drop_seen keys (t ∷ ts) =
      let rest = drop_seen keys ts in if seen (tag_key t) keys then rest else t ∷ rest

  -- RemoveTags
  unfoldable pub remove_tags : List Text → List Text → List Text
  remove_tags tags remove = drop_seen (tag_keys remove) tags

  -- EditTags
  unfoldable pub edit_tags : List Text → Bool → List Text → List Text → Option (List Text)
  edit_tags current clear_all remove add =
      normalize_tags (remove_tags (if clear_all then [] else current) remove ++ add)
