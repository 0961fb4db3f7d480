-- ===== src/Prelude/Dict.antt =====
-- A table keyed by numbers, as an association list, with the rules of the SQL statements on one key.
use silver_invention.Prelude.Tests.{◌==◌, if◌then◌else◌, Bool-cases}
use Prim.Native.Nat.{ℕ}
use mathlib.Core.Path.{◌≡◌}
use mathlib.Core.Logic.{inl, inr}
use mathlib.Core.Option.{Option, none, some}
use mathlib.Core.List.{List, [], ◌∷◌}
use native.Mathlib.Omega.{arith}

abbrev pub Dict {ℓ} : Type ℓ → Type ℓ
Dict V = List (ℕ × V)

module _ {ℓ} {V : Type ℓ} where
  abbrev pub lookup : ℕ → Dict V → Option V
  lookup k [] = none
  lookup k ((j, v) ∷ d) = if j == k then some v else lookup k d

  -- `UPDATE … WHERE key = k`: nothing happens where the key is missing.
  unfoldable pub update : ℕ → (V → V) → Dict V → Dict V
  update k f [] = []
  update k f ((j, v) ∷ d) = if j == k then (j, f v) ∷ d else (j, v) ∷ update k f d

  -- `d[k] = v`
  unfoldable pub insert : ℕ → V → Dict V → Dict V
  insert k v [] = (k, v) ∷ []
  insert k v ((j, w) ∷ d) = if j == k then (j, v) ∷ d else (j, w) ∷ insert k v d

  -- `d.pop(k, None)`
  unfoldable pub erase : ℕ → Dict V → Dict V
  erase k [] = []
  erase k ((j, w) ∷ d) = if j == k then erase k d else (j, w) ∷ erase k d

  abbrev pub map_option : (V → V) → Option V → Option V
  map_option f none = none
  map_option f (some v) = some (f v)

  pub lookup-update :
      (k j : ℕ) (f : V → V) (d : Dict V)
      → lookup j (update k f d) ≡ (if k == j then map_option f (lookup j d) else lookup j d)
  unfolding update
  lookup-update k j f [] = ground arith
  lookup-update k j f ((i, v) ∷ d) = ground (arith, lookup-update k j f d)

  pub lookup-insert :
      (k j : ℕ) (v : V) (d : Dict V)
      → lookup j (insert k v d) ≡ (if k == j then some v else lookup j d)
  unfolding insert
  lookup-insert k j v [] = ground arith
  lookup-insert k j v ((i, w) ∷ d) = ground (arith, lookup-insert k j v d)

  pub lookup-erase :
      (k j : ℕ) (d : Dict V) → lookup j (erase k d) ≡ (if k == j then none else lookup j d)
  unfolding erase
  lookup-erase k j [] = ground arith
  lookup-erase k j ((i, w) ∷ d) = ground (arith, lookup-erase k j d)

  -- The primary key: no id stands twice.
  abbrev pub Unique : Dict V → Type ℓ
  Unique [] = Unit
  Unique ((id, row) ∷ rows) = (lookup id rows ≡ none) × Unique rows

  pub update-Unique : (id : ℕ) (f : V → V) (rows : Dict V) → Unique rows → Unique (update id f rows)
  unfolding update
  update-Unique id f [] u = tt
  update-Unique id f ((j, row) ∷ rows) (new, u) = elim (Bool-cases (j == id)) [
    | inl same ↦ rw same (new, u)
    | inr other ↦
        rw other (rw (lookup-update id j f rows) (ground arith), update-Unique id f rows u)
  ]

  pub insert-Unique : (k : ℕ) (v : V) (rows : Dict V) → Unique rows → Unique (insert k v rows)
  unfolding insert
  insert-Unique k v [] u = (ground arith, tt)
  insert-Unique k v ((j, w) ∷ rows) (new, u) = elim (Bool-cases (j == k)) [
    | inl same ↦ rw same (new, u)
    | inr other ↦ rw other (rw (lookup-insert k j v rows) (ground arith), insert-Unique k v rows u)
  ]

  pub lookup-behind :
      (id j : ℕ) (row r : V) (rows : Dict V)
      → lookup j rows ≡ none
      → lookup id rows ≡ some row
      → lookup id ((j, r) ∷ rows) ≡ some row
  lookup-behind id j row r rows new e = ground arith

  pub erase-Unique : (id : ℕ) (rows : Dict V) → Unique rows → Unique (erase id rows)
  unfolding erase
  erase-Unique id [] u = tt
  erase-Unique id ((j, row) ∷ rows) (new, u) = elim (Bool-cases (j == id)) [
    | inl same ↦ rw same (erase-Unique id rows u)
    | inr other ↦ rw other (rw (lookup-erase id j rows) (ground arith), erase-Unique id rows u)
  ]
