-- ===== src/Tags/Unique.antt =====
-- What NormalizeTags and EditTags of cli/internal/vault/tags.go save.
use passbubble.Prelude.{
  ℕ, ◌≤◌, true, false, ◌||◌, some, List, [], ◌∷◌, ltb, length, ◌≡◌, arith, Bool-cases, Option-cases,
  inl, inr, ◌⊎◌, All, All-imp, subst,
}
use passbubble.Texts.{text_eq_refl, Text, is_blank}
use passbubble.Tags.{
  normalize_tag, to_lower, normalize_from, normalize_tags, seen, max_tag_length, tag_key,
}

module _ (lower : ℕ → ℕ) where
  -- Tags that may be saved: none is blank or too long, and no two agree but for the case.
  abbrev pub AreSaved : List Text → List Text → Type 0
  AreSaved keys [] = Unit
  AreSaved keys (t ∷ ts) =
      (is_blank t ≡ false)
      × (length t ≤ max_tag_length)
      × (seen (to_lower lower t) keys ≡ false)
      × AreSaved (to_lower lower t ∷ keys) ts

  -- The tags kept, in lower case.
  abbrev pub lowered : List Text → List Text
  lowered [] = []
  lowered (t ∷ ts) = to_lower lower t ∷ lowered ts

  -- A tag that is given is blank once it is normalised, or its key is there.
  abbrev pub IsCovered : List Text → List Text → Text → Type 0
  IsCovered keys out raw =
      (is_blank (normalize_tag raw) ≡ true)
      ⊎ ((seen (tag_key lower raw) keys || seen (tag_key lower raw) (lowered out)) ≡ true)

  -- What the loop returns, with the keys seen before.
  pub record IsResult (keys tags out : List Text) : Type 0 where
    pub saved : AreSaved keys out
    pub covered : All (IsCovered keys out) tags

  -- A key put in front is seen where the tag kept is.
  IsCovered-later :
      (keys ts : List Text) (t raw : Text)
      → IsCovered (to_lower lower t ∷ keys) ts raw
      → IsCovered keys (t ∷ ts) raw
  unfolding seen
  IsCovered-later keys ts t raw (inl e) = inl e
  IsCovered-later keys ts t raw (inr e) = inr (ground arith)

  kept-IsResult :
      (keys rest ts : List Text) (raw : Text)
      → is_blank (normalize_tag raw) ≡ false
      → ltb max_tag_length (length (normalize_tag raw)) ≡ false
      → seen (to_lower lower (normalize_tag raw)) keys ≡ false
      → IsResult (to_lower lower (normalize_tag raw) ∷ keys) rest ts
      → IsResult keys (raw ∷ rest) (normalize_tag raw ∷ ts)
  unfolding seen tag_key
  kept-IsResult keys rest ts raw filled short new later = record {
    saved = (filled, ground arith, new, later.saved);
    covered = (
      inr (ground (arith, text_eq_refl (to_lower lower (normalize_tag raw)))),
      All-imp rest (λ r h. IsCovered-later keys ts (normalize_tag raw) r h) later.covered,
    );
  }

  normalize_from-IsResult :
      (keys tags out : List Text)
      → normalize_from lower keys tags ≡ some out
      → IsResult keys tags out
  unfolding normalize_from tag_key
  normalize_from-IsResult keys [] [] h = record { saved = tt; covered = tt }
  normalize_from-IsResult keys [] (t ∷ out) h = absurd (ground arith)
  normalize_from-IsResult keys (raw ∷ rest) out h =
      elim (Bool-cases (is_blank (normalize_tag raw))) [
        | inl e ↦
            let r = normalize_from-IsResult keys rest out (ground arith) in
            record { saved = r.saved; covered = (inl e, r.covered) }
        | inr e ↦ elim (Bool-cases (ltb max_tag_length (length (normalize_tag raw)))) [
          | inl long ↦ absurd (ground arith)
          | inr short ↦ elim (Bool-cases (seen (to_lower lower (normalize_tag raw)) keys)) [
            | inl old ↦
                let r = normalize_from-IsResult keys rest out (ground arith) in
                record { saved = r.saved; covered = (inr (ground arith), r.covered) }
            | inr new ↦
                elim (Option-cases
                  (normalize_from lower (to_lower lower (normalize_tag raw) ∷ keys) rest)) [
                    | inl none_left ↦ absurd (ground arith)
                    | inr (ts, some_left) ↦
                        subst (λ (o : List Text). IsResult keys (raw ∷ rest) o) (ground arith)
                          (kept-IsResult keys rest ts raw e short new (
                            normalize_from-IsResult (to_lower lower (normalize_tag raw) ∷ keys) rest
                              ts some_left))
                  ]
          ]
        ]
      ]

  -- If NormalizeTags succeeds, then it keeps no tag that is blank or too long and no two that agree
  -- but for the case, and of every tag given, unless blank once normalised, one is kept that agrees
  -- with it but for the case.
  pub normalize_tags-IsResult :
      (tags out : List Text) → normalize_tags lower tags ≡ some out → IsResult [] tags out
  unfolding normalize_tags
  normalize_tags-IsResult tags out h = normalize_from-IsResult [] tags out h
