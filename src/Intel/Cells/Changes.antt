-- ===== src/Intel/Cells/Changes.antt =====
-- What the check of a weight change accepts (cell_problem of imageshield/intel/cells.py).
use silver_invention.Prelude.{
  ℕ, ◌≡◌, ◌≢◌, ◌↔◌, Option, none, some, true, arith, Option-cases, inl, inr,
}
use silver_invention.Prelude.Int.{ℤ, pos, ◌+ℤ◌, ◌≤ℤ◌, eqb_ℤ→≡, eqb_ℤ}
use silver_invention.Intel.Vocabulary.{VocabQuestion, ScoringVocabulary, question, deduction}
use silver_invention.Intel.Cells.{
  weight_delta_min, weight_delta_max, deduction_min, deduction_max, cell_problem, value_problem,
  negsuc,
}

abbrev pub UnderCap : Option ℤ → ℤ → Type 0
UnderCap none result = Unit
UnderCap (some cap) result = result ≤ℤ cap

-- What a weight change must satisfy.
pub record IsSound (v : ScoringVocabulary) (key option : ℕ) (current delta : ℤ) (q : VocabQuestion)
    : Type 0 where
  pub can_change : q.is_mutable ≡ true
  pub live : deduction v key option ≡ some current
  pub moves : delta ≢ pos 0
  pub delta_low : negsuc 1 ≤ℤ delta
  pub delta_high : delta ≤ℤ pos 2
  pub result_low : pos 0 ≤ℤ current +ℤ delta
  pub result_high : current +ℤ delta ≤ℤ pos 10
  pub under_cap : UnderCap q.cap (current +ℤ delta)

eqb_refl : (a : ℤ) → eqb_ℤ a a ≡ true
eqb_refl a = ground arith

record InBounds (cap : Option ℤ) (current delta : ℤ) : Type 0 where
  moves : delta ≢ pos 0
  delta_low : weight_delta_min ≤ℤ delta
  delta_high : delta ≤ℤ weight_delta_max
  result_low : deduction_min ≤ℤ current +ℤ delta
  result_high : current +ℤ delta ≤ℤ deduction_max
  under_cap : UnderCap cap (current +ℤ delta)

bounds_pass :
    (cap : Option ℤ) (current delta : ℤ)
    → value_problem (some current) cap current delta ≡ none
    → InBounds cap current delta
unfolding value_problem
bounds_pass none current delta h = record {
  moves = λ e. ground arith;
  delta_low = ground arith;
  delta_high = ground arith;
  result_low = ground arith;
  result_high = ground arith;
  under_cap = tt;
}
bounds_pass (some c) current delta h = record {
  moves = λ e. ground arith;
  delta_low = ground arith;
  delta_high = ground arith;
  result_low = ground arith;
  result_high = ground arith;
  under_cap = ground arith;
}

live_same :
    (live : Option ℤ) (cap : Option ℤ) (current delta : ℤ)
    → value_problem live cap current delta ≡ none
    → live ≡ some current
unfolding value_problem
live_same none cap current delta h = ground arith
live_same (some x) cap current delta h = ground (arith, eqb_ℤ→≡ x current)

value_complete :
    (cap : Option ℤ) (current delta : ℤ)
    → InBounds cap current delta
    → value_problem (some current) cap current delta ≡ none
unfolding value_problem
value_complete none current delta b =
    ground (arith, eqb_refl current, b.moves, eqb_ℤ→≡ delta (pos 0))
value_complete (some c) current delta b =
    ground (arith, eqb_refl current, b.moves, eqb_ℤ→≡ delta (pos 0))

some-none : {A : Type 0} {a : A} → some a ≢ none
some-none e = ground arith

module _ (v : ScoringVocabulary) (key option : ℕ) (current delta : ℤ) where
  sound :
      (q : VocabQuestion)
      → question v key ≡ some q
      → cell_problem v key option current delta ≡ none
      → IsSound v key option current delta q
  unfolding cell_problem
  sound q asked h =
      let can : q.is_mutable ≡ true = ground arith in
      let passed : value_problem (deduction v key option) q.cap current delta ≡ none =
        ground arith in
      let live = live_same (deduction v key option) q.cap current delta passed in
      let bounds = bounds_pass q.cap current delta (rw live at passed) in
      record {
        can_change = can;
        live = live;
        moves = bounds.moves;
        delta_low = bounds.delta_low;
        delta_high = bounds.delta_high;
        result_low = bounds.result_low;
        result_high = bounds.result_high;
        under_cap = bounds.under_cap;
      }

  complete :
      (q : VocabQuestion)
      → question v key ≡ some q
      → IsSound v key option current delta q
      → cell_problem v key option current delta ≡ none
  unfolding cell_problem
  complete q asked b =
      rw (cell_problem, asked, b.can_change, b.live)
        (value_complete q.cap current delta (record {
          moves = b.moves;
          delta_low = b.delta_low;
          delta_high = b.delta_high;
          result_low = b.result_low;
          result_high = b.result_high;
          under_cap = b.under_cap;
        }))

  found :
      cell_problem v key option current delta ≡ none
      → (q : VocabQuestion) × (question v key ≡ some q)
  unfolding cell_problem
  found ok = elim (Option-cases (question v key)) [
    | inl e ↦ absurd (some-none (rw (cell_problem, e) at ok))
    | inr (q, e) ↦ (q, e)
  ]

  -- The check accepts a change exactly when its question is on the live quiz and mutable, the option's
  -- live deduction is the one the change starts from, the change is not zero and lies from -2 to 2, and
  -- the result lies from 0 to 10 and not above the question's cap, if it has one.
  pub cell_problem_iff :
      (cell_problem v key option current delta ≡ none)
      ↔ ((q : VocabQuestion) × (question v key ≡ some q) × IsSound v key option current delta q)
  cell_problem_iff = (
    (λ ok. let (q, asked) = found ok in (q, asked, sound q asked ok)),
    (λ (q, asked, b). complete q asked b),
  )
