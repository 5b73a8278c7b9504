-- ===== src/Csv/Separated.antt =====
-- Tags joined by tagSeparator of backend/pkg/exporters/csv.go, and split again by splitTags of
-- backend/pkg/importers/types.go.
use passbubble.Prelude.{false, List, [], ◌∷◌, ◌++◌, if◌then◌else◌, ◌≡◌, refl, ◌∙◌, ap, arith, All}
use mathlib.Core.List.{append_assoc, append-nil}
use passbubble.Texts.{Text, text, is_space, is_blank, has_char, join, trim, trim_left, trim_right}
use passbubble.Csv.{pieces, add_piece, trim_pieces, split_tags}

-- A text without spaces around it.
pub record IsTrimmed (t : Text) : Type 0 where
  pub left : trim_left is_space t ≡ t
  pub right : trim_right is_space t ≡ t

pub trim-IsTrimmed : (t : Text) → IsTrimmed t → trim t ≡ t
trim-IsTrimmed t h = rw h.right h.left

-- A tag that a list in one cell can hold: trimmed, not blank, and without a comma.
pub record IsTag (t : Text) : Type 0 where
  pub trimmed : IsTrimmed t
  pub filled : is_blank t ≡ false
  pub whole : has_char 44 t ≡ false

pieces-append :
    (t u : Text)
    → has_char 44 t ≡ false
    → pieces (44 ∷ []) (t ++ u) ≡ (t ++ (pieces (44 ∷ []) u).0, (pieces (44 ∷ []) u).1)
unfolding pieces has_char
pieces-append [] u h = refl
pieces-append (c ∷ t) u h = ground (arith, pieces-append t u)

-- The trimmed text, as trimming a space in front of it meets it.
space_front :
    (r : Text)
    → trim_left is_space
        (elim r [ [] ↦ if is_space 32 then [] else 32 ∷ [] | d ∷ ds ↦ 32 ∷ d ∷ ds ])
      ≡ trim_left is_space r
unfolding trim_left is_space
space_front [] = refl
space_front (d ∷ ds) = refl

trim-space : (t : Text) → trim (32 ∷ t) ≡ trim t
unfolding trim_left trim_right is_space
trim-space t = space_front (trim_right is_space t)

trim_pieces-space :
    (f : Text) (r : List Text) → trim_pieces ((32 ∷ f) ∷ r) ≡ trim_pieces (add_piece f r)
unfolding trim_pieces trim_left trim_right is_space
trim_pieces-space [] r = ground arith
trim_pieces-space (c ∷ cs) r = rw (trim-space (c ∷ cs)) refl

piece-IsTag : (t : Text) (r : List Text) → IsTag t → trim_pieces (add_piece t r) ≡ t ∷ trim_pieces r
unfolding trim_pieces
piece-IsTag [] r h = absurd (ground (arith, h.filled))
piece-IsTag (c ∷ cs) r h = rw (trim-IsTrimmed (c ∷ cs) h.trimmed) refl

split-last :
    (t : Text)
    → IsTag t
    → trim_pieces (add_piece (pieces (44 ∷ []) t).0 (pieces (44 ∷ []) t).1) ≡ t ∷ []
unfolding pieces trim_pieces
split-last t h =
    let e : pieces (44 ∷ []) t ≡ (t, []) =
      ground (arith, pieces-append t [] h.whole, append-nil t) in
    rw e (piece-IsTag t [] h)

-- A tag in front of the separator and more.
split-front :
    (t u : Text)
    → IsTag t
    → trim_pieces
        (add_piece (pieces (44 ∷ []) (t ++ 44 ∷ 32 ∷ u)).0 (pieces (44 ∷ []) (t ++ 44 ∷ 32 ∷ u)).1)
      ≡ t ∷ trim_pieces (add_piece (pieces (44 ∷ []) u).0 (pieces (44 ∷ []) u).1)
unfolding pieces has_char
split-front t u h =
    let f = (pieces (44 ∷ []) u).0 in
    let r = (pieces (44 ∷ []) u).1 in
    let e : pieces (44 ∷ []) (t ++ 44 ∷ 32 ∷ u) ≡ (t, (32 ∷ f) ∷ r) =
      ground (arith, pieces-append t (44 ∷ 32 ∷ u) h.whole, append-nil t) in
    rw e (piece-IsTag t ((32 ∷ f) ∷ r) h ∙ ap (◌∷◌ t) (trim_pieces-space f r))

split-nil : split_tags [] (44 ∷ []) ≡ []
unfolding split_tags pieces trim_pieces
split-nil = refl

-- Tags that hold no comma, joined in one cell, are split into the same tags.
pub split_tags-join :
    (tags : List Text) → All IsTag tags → split_tags (join (text ", ") tags) (text ",") ≡ tags
unfolding split_tags join text
split_tags-join [] h = split-nil
split_tags-join (t ∷ []) h = split-last t h.0
split_tags-join (t ∷ t₁ ∷ ts) h =
    rw (append_assoc t (44 ∷ 32 ∷ []) (join (44 ∷ 32 ∷ []) (t₁ ∷ ts))) (
      split-front t (join (44 ∷ 32 ∷ []) (t₁ ∷ ts)) h.0
      ∙ ap (◌∷◌ t) (split_tags-join (t₁ ∷ ts) h.1))
