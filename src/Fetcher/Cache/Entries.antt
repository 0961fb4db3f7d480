-- ===== src/Fetcher/Cache/Entries.antt =====
-- The entries of the cache: one place for each origin (fetcher/robots.py).
use silver_invention.Prelude.{
  ℕ, ◌≤◌, suc, ◌≡◌, refl, none, some, [], ◌∷◌, if◌then◌else◌, ltb, length, ◌==◌, arith, Bool-cases,
  inl, inr, ◌∙◌,
}
use mathlib.Core.Option.{none-ne-some}
use silver_invention.Prelude.Dict.{Dict, lookup, erase, Unique, lookup-behind, lookup-erase}
use silver_invention.Fetcher.Cache.{move_to_end, evict}

module _ (R : Type 0) where
  pub lookup-move_to_end :
      (j k : ℕ) (v : ℕ × R) (d : Dict (ℕ × R))
      → lookup j (move_to_end R k v d) ≡ (if k == j then some v else lookup j d)
  unfolding move_to_end erase
  lookup-move_to_end j k v [] = refl
  lookup-move_to_end j k v ((i, w) ∷ d) = ground (arith, lookup-move_to_end j k v d)

  pub move_to_end-Unique :
      (k : ℕ) (v : ℕ × R) (d : Dict (ℕ × R)) → Unique d → Unique (move_to_end R k v d)
  unfolding move_to_end erase
  move_to_end-Unique k v [] u = (refl, tt)
  move_to_end-Unique k v ((i, w) ∷ d) (new, u) = elim (Bool-cases (i == k)) [
    | inl same ↦ rw same (move_to_end-Unique k v d u)
    | inr other ↦
        let gone : lookup i (move_to_end R k v d) ≡ none =
          lookup-move_to_end i k v d ∙ ground arith in
        rw other (gone, move_to_end-Unique k v d u)
  ]

  pub erase-Unique : (k : ℕ) (d : Dict (ℕ × R)) → Unique d → Unique (erase k d)
  unfolding erase
  erase-Unique k [] u = tt
  erase-Unique k ((i, w) ∷ d) (new, u) = elim (Bool-cases (i == k)) [
    | inl same ↦ rw same (erase-Unique k d u)
    | inr other ↦ rw other (lookup-erase k i d ∙ ground arith, erase-Unique k d u)
  ]

  pub length-erase : (k : ℕ) (d : Dict (ℕ × R)) → length (erase k d) ≤ length d
  unfolding erase
  length-erase k [] = ground arith
  length-erase k ((i, w) ∷ d) = ground (arith, length-erase k d)

  pub length-move_to_end_new :
      (k : ℕ) (v : ℕ × R) (d : Dict (ℕ × R)) → length (move_to_end R k v d) ≤ suc (length d)
  unfolding move_to_end erase
  length-move_to_end_new k v [] = ground arith
  length-move_to_end_new k v ((i, w) ∷ d) = ground (arith, length-move_to_end_new k v d)

  pub length-move_to_end :
      (k : ℕ) (v w : ℕ × R) (d : Dict (ℕ × R))
      → lookup k d ≡ some w
      → length (move_to_end R k v d) ≤ length d
  unfolding move_to_end erase
  length-move_to_end k v w [] e = absurd (none-ne-some w e)
  length-move_to_end k v w ((i, x) ∷ d) e = elim (Bool-cases (i == k)) [
    | inl same ↦ rw same (length-move_to_end_new k v d)
    | inr other ↦ rw other (ground (arith, length-move_to_end k v w d (rw other at e)))
  ]

  pub evict_bound : (max : ℕ) (d : Dict (ℕ × R)) → length (evict R max d) ≤ max
  unfolding evict
  evict_bound max [] = ground arith
  evict_bound max (e ∷ d) = ground (arith, evict_bound max d)

  pub lookup-evict :
      (max j : ℕ) (v : ℕ × R) (d : Dict (ℕ × R))
      → Unique d
      → lookup j (evict R max d) ≡ some v
      → lookup j d ≡ some v
  unfolding evict
  lookup-evict max j v [] u e = e
  lookup-evict max j v ((i, w) ∷ d) (new, u) e = elim (Bool-cases (ltb max (length ((i, w) ∷ d)))) [
    | inl full ↦ lookup-behind j i v w d new (lookup-evict max j v d u (rw full at e))
    | inr fits ↦ rw fits at e
  ]

  pub evict-Unique : (max : ℕ) (d : Dict (ℕ × R)) → Unique d → Unique (evict R max d)
  unfolding evict
  evict-Unique max [] u = tt
  evict-Unique max ((i, w) ∷ d) (new, u) = elim (Bool-cases (ltb max (length ((i, w) ∷ d)))) [
    | inl full ↦ rw full (evict-Unique max d u)
    | inr fits ↦ rw fits (new, u)
  ]

  pub erase_keeps :
      (k o : ℕ) (v : ℕ × R) (d : Dict (ℕ × R)) → lookup o (erase k d) ≡ some v → lookup o d ≡ some v
  erase_keeps k o v d e = ground (arith, lookup-erase k o d)

  pub move_keeps :
      (k o : ℕ) (w v : ℕ × R) (d : Dict (ℕ × R))
      → lookup k d ≡ some w
      → lookup o (move_to_end R k w d) ≡ some v
      → lookup o d ≡ some v
  move_keeps k o w v d q e = elim (Bool-cases (k == o)) [
    | inl same ↦
        let k_is_o : k ≡ o = ground arith in
        let h : some w ≡ some v = rw (lookup-move_to_end o k w d, same) at e in (rw k_is_o at q) ∙ h
    | inr other ↦ rw (lookup-move_to_end o k w d, other) at e
  ]
