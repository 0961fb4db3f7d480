-- ===== src/Search/Store/Hits/Keys.antt =====
-- No infringement has two attestations of one provider (_UPSERT_ATTESTATION_SQL of
-- imageshield/search/store.py).
use silver_invention.Search.Store.Hits.Rows.{merge-Merged}
use silver_invention.Search.Store.Hits.{merge, same_key, confirm, upsert_attestation, shaped}
use silver_invention.Prelude.{
  ◌≡◌, sym, subst, some, true, false, List, [], ◌∷◌, arith, Bool-cases, inl, inr, All, All-map,
}
use mathlib.Core.Option.{some-injective, none-ne-some}
use silver_invention.Search.Store.{Attestation}

-- No two rows have the same infringement and provider.
abbrev pub Keyed : List Attestation → Type 0
Keyed [] = Unit
Keyed (a ∷ rows) = All (λ b. same_key a b ≡ false) rows × Keyed rows

merge_other :
    (a new : Attestation) (rows rows' : List Attestation)
    → merge new rows ≡ some rows'
    → same_key new a ≡ false
    → All (λ b. same_key a b ≡ false) rows
    → All (λ b. same_key a b ≡ false) rows'
unfolding merge
merge_other a new [] rows' e ne all =
    subst (λ r. All (λ b. same_key a b ≡ false) r) (some-injective (new ∷ []) rows' e)
      ((ground arith), tt)
merge_other a new (old ∷ rows) rows' e ne (first, all) = elim (merge-Merged new old rows rows' e) [
  | inl (same, q) ↦ subst (λ r. All (λ b. same_key a b ≡ false) r) (sym q) ((ground arith), all)
  | inr (rest, other, m, q) ↦
      subst (λ r. All (λ b. same_key a b ≡ false) r) (sym q)
        (first, merge_other a new rows rest m ne all)
]

same_key-confirm :
    (new old b : Attestation)
    → same_key new old ≡ true
    → same_key old b ≡ false
    → same_key (confirm new old) b ≡ false
same_key-confirm new old b same other = ground arith

pub merge-Keyed :
    (new : Attestation) (rows rows' : List Attestation)
    → merge new rows ≡ some rows'
    → Keyed rows
    → Keyed rows'
unfolding merge
merge-Keyed new [] rows' e k = subst (λ r. Keyed r) (some-injective (new ∷ []) rows' e) (tt, tt)
merge-Keyed new (old ∷ rows) rows' e (first, k) = elim (merge-Merged new old rows rows' e) [
  | inl (same, q) ↦
      subst (λ r. Keyed r) (sym q)
        (All-map rows (λ b h. same_key-confirm new old b same h) first, k)
  | inr (rest, other, m, q) ↦
      subst (λ r. Keyed r) (sym q)
        (merge_other old new rows rest m other first, merge-Keyed new rows rest m k)
]

pub upsert_inv :
    (new : Attestation) (rows rows' : List Attestation)
    → upsert_attestation new rows ≡ some rows'
    → merge new rows ≡ some rows'
unfolding upsert_attestation
upsert_inv new rows rows' e = elim (Bool-cases (shaped new)) [
  | inl fits ↦ rw fits at e
  | inr broken ↦ absurd (none-ne-some rows' (rw broken at e))
]
