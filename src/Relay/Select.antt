-- ===== src/Relay/Select.antt =====
-- Which row a round takes (_SELECT_NEXT_SQL of relay.py).
use mathlib.Core.Option.{some-injective}
use silver_invention.Prelude.{
  Option-cases, subst, ℕ, ◌≡◌, none, some, true, List, [], ◌∷◌, ltb, arith, Bool-cases, inl, inr,
}
use silver_invention.Prelude.Dict.{Dict, lookup, Unique, lookup-behind}
use silver_invention.Relay.{OutboxRow, is_eligible, earlier, select_next}

-- What is said of a selected row.
abbrev Found : ℕ → List ℕ → Dict OutboxRow → ℕ × OutboxRow → Type 0
Found max_attempts skip_ids rows (id, row) =
    (lookup id rows ≡ some row) × (is_eligible max_attempts skip_ids id row ≡ true)

pair_of : {a b : ℕ × OutboxRow} → some a ≡ some b → a ≡ b
pair_of e = some-injective _ _ e

Found-head :
    (max_attempts : ℕ) (skip_ids : List ℕ) (j : ℕ) (r : OutboxRow) (rows : Dict OutboxRow)
    → is_eligible max_attempts skip_ids j r ≡ true
    → Found max_attempts skip_ids ((j, r) ∷ rows) (j, r)
Found-head max_attempts skip_ids j r rows h = (ground arith, h)

Found-behind :
    (max_attempts : ℕ) (skip_ids : List ℕ) (j : ℕ) (r : OutboxRow) (rows : Dict OutboxRow)
    (a : ℕ × OutboxRow)
    → lookup j rows ≡ none
    → Found max_attempts skip_ids rows a
    → Found max_attempts skip_ids ((j, r) ∷ rows) a
Found-behind max_attempts skip_ids j r rows (id, row) new (e, h) =
    (lookup-behind id j row r rows new e, h)

found_earlier :
    (P : ℕ × OutboxRow → Type 0) (a b : ℕ × OutboxRow) → P a → P b → P (earlier a (some b))
found_earlier P a b pa pb = elim (Bool-cases (ltb b.0 a.0)) [
  | inl sooner ↦ rw sooner pb
  | inr later ↦ rw later pa
]

selected_Found :
    (max_attempts : ℕ) (skip_ids : List ℕ) (rows : Dict OutboxRow) (a : ℕ × OutboxRow)
    → Unique rows
    → select_next max_attempts skip_ids rows ≡ some a
    → Found max_attempts skip_ids rows a
unfolding select_next
selected_Found max_attempts skip_ids [] a u e = absurd (ground arith)
selected_Found max_attempts skip_ids ((j, r) ∷ rows) a (new, u) e =
    let behind = λ (b : ℕ × OutboxRow) (eb : select_next max_attempts skip_ids rows ≡ some b).
      Found-behind max_attempts skip_ids j r rows b new
        (selected_Found max_attempts skip_ids rows b u eb) in
    elim (Bool-cases (is_eligible max_attempts skip_ids j r)) [
      | inr no_head ↦ behind a (rw no_head at e)
      | inl head ↦
          let here = Found-head max_attempts skip_ids j r rows head in
          let e' : some (earlier (j, r) (select_next max_attempts skip_ids rows)) ≡ some a =
            rw head at e in
          elim (Option-cases (select_next max_attempts skip_ids rows)) [
            | inl none_left ↦
                subst (Found max_attempts skip_ids ((j, r) ∷ rows)) (pair_of (rw none_left at e'))
                  here
            | inr (b, eb) ↦
                subst (Found max_attempts skip_ids ((j, r) ∷ rows)) (pair_of (rw eb at e')) (
                  found_earlier (Found max_attempts skip_ids ((j, r) ∷ rows)) (j, r) b here
                    (behind b eb))
          ]
    ]

-- The selected row is the one that the table holds at its id, and it is eligible.
pub select_next_sound :
    (max_attempts : ℕ) (skip_ids : List ℕ) (rows : Dict OutboxRow) (id : ℕ) (row : OutboxRow)
    → Unique rows
    → select_next max_attempts skip_ids rows ≡ some (id, row)
    → (lookup id rows ≡ some row) × (is_eligible max_attempts skip_ids id row ≡ true)
select_next_sound max_attempts skip_ids rows id row u e =
    selected_Found max_attempts skip_ids rows (id, row) u e
