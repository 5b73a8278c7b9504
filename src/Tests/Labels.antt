-- ===== src/Tests/Labels.antt =====
-- Witnesses for tags.
use passbubble.Prelude.{List, [], ◌∷◌, refl}
use passbubble.Texts.{Text, trim_left, trim_right, is_space, text_eq}
use passbubble.Tags.{normalize_tags, normalize_from, normalize_tag, join_fields, collapse, seen}
use passbubble.Tags.Unique.{IsResult, normalize_tags-IsResult}

-- "#a", "a" and " b", of which "a" and "b" are kept.
abbrev given : List Text
given = (35 ∷ 97 ∷ []) ∷ (97 ∷ []) ∷ (32 ∷ 98 ∷ []) ∷ []

abbrev kept : List Text
kept = (97 ∷ []) ∷ (98 ∷ []) ∷ []

normalize_tags-IsResult_example : IsResult (λ c. c) [] given kept
unfolding normalize_tags normalize_from normalize_tag join_fields collapse trim_left trim_right
    is_space seen text_eq
normalize_tags-IsResult_example = normalize_tags-IsResult (λ c. c) given kept refl
