-- ===== src/Intel/Vocabulary/Renames.antt =====
-- The rename log (fold_renames and renamed_away of intel/vocabulary.py).
use silver_invention.Prelude.{
  ℕ, ◌<◌, ◌≡◌, refl, none, false, List, [], ◌∷◌, arith, Bool-cases, inl, inr,
}
use silver_invention.Intel.Vocabulary.{
  Rename, ScoringVocabulary, is_later, insert_release, releases, renamed_in, fold_from,
  fold_renames, any_renamed, renamed_away,
}

-- Every listed release comes after `after`.
abbrev AllLater : ℕ → List ℕ → Type 0
AllLater after [] = Unit
AllLater after (m ∷ ms) = (after < m) × AllLater after ms

insert-AllLater :
    (after n : ℕ) (ms : List ℕ)
    → after < n
    → AllLater after ms
    → AllLater after (insert_release n ms)
unfolding insert_release
insert-AllLater after n [] h a = (h, tt)
insert-AllLater after n (m ∷ ms) h a = ground (arith, insert-AllLater after n ms h a.1)

releases-AllLater : (key after : ℕ) (rs : List Rename) → AllLater after (releases key after rs)
unfolding releases
releases-AllLater key after [] = tt
releases-AllLater key after (r ∷ rs) = elim (Bool-cases (is_later key after r)) [
  | inl later ↦
      rw (later, releases)
        (insert-AllLater after r.release_no _ (ground arith) (releases-AllLater key after rs))
  | inr not_later ↦ rw (not_later, releases) (releases-AllLater key after rs)
]

-- An option that no later rename moves is in no later release's mapping.
unmoved :
    (key option after release : ℕ) (rs : List Rename)
    → any_renamed key option after rs ≡ false
    → after < release
    → renamed_in key release option rs ≡ none
unfolding any_renamed renamed_in
unmoved key option after release [] h l = refl
unmoved key option after release (r ∷ rs) h l = ground (arith, unmoved key option after release rs)

fold_unmoved :
    (key option after : ℕ) (rs : List Rename) (ms : List ℕ)
    → any_renamed key option after rs ≡ false
    → AllLater after ms
    → fold_from key rs ms option ≡ option
unfolding fold_from
fold_unmoved key option after rs [] h a = refl
fold_unmoved key option after rs (m ∷ ms) h (l, a) =
    rw (unmoved key option after m rs h l) (fold_unmoved key option after rs ms h a)

-- An option that `renamed_away` does not report after a release is not moved by `fold_renames`
-- either: folding the renames after that release gives the option back.
pub fold_renames_unmoved :
    (v : ScoringVocabulary) (key option after : ℕ)
    → renamed_away v key option after ≡ false
    → fold_renames v key option after ≡ option
unfolding fold_renames renamed_away
fold_renames_unmoved v key option after h =
    fold_unmoved key option after v.renamed (releases key after v.renamed) h
      (releases-AllLater key after v.renamed)
