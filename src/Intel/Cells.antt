-- ===== src/Intel/Cells.antt =====
-- The weight cell (imageshield/intel/cells.py) with the bounds of intel/bounds.py.
use silver_invention.Prelude.{
  ℕ, Option, none, some, Bool, true, false, not, ◌&&◌, ◌||◌, if◌then◌else◌,
}
use silver_invention.Prelude.Int.{ℤ, pos, negsuc, ◌+ℤ◌, ltb_ℤ, leb_ℤ, eqb_ℤ}
use silver_invention.Prelude.Dict.{lookup}
use silver_invention.Intel.Vocabulary.{
  VocabQuestion, ScoringVocabulary, question, price, deduction, renamed_away,
}
pub mod Changes

abbrev pub weight_delta_min : ℤ
weight_delta_min = negsuc 1

abbrev pub weight_delta_max : ℤ
weight_delta_max = pos 2

abbrev pub deduction_min : ℤ
deduction_min = pos 0

abbrev pub deduction_max : ℤ
deduction_max = pos 10

pub data CellProblem : Type 0 where
  unknown_question not_mutable unknown_option current_mismatch delta_out_of_bounds
        result_out_of_bounds :
      CellProblem

pub data StaleReason : Type 0 where
  option_renamed cell_removed not_mutable deduction_moved : StaleReason

abbrev pub within : ℤ → ℤ → ℤ → Bool
within low high x = leb_ℤ low x && leb_ℤ x high

abbrev pub over_cap : Option ℤ → ℤ → Bool
over_cap none result = false
over_cap (some cap) result = ltb_ℤ cap result

-- The checks on the live deduction, in the code's order.
value_problem : Option ℤ → Option ℤ → ℤ → ℤ → Option CellProblem
value_problem none cap current delta = some unknown_option
value_problem (some live) cap current delta =
    if not (eqb_ℤ live current)
    then some current_mismatch
    else if eqb_ℤ delta (pos 0) || not (within weight_delta_min weight_delta_max delta)
    then some delta_out_of_bounds
    else if not (within deduction_min deduction_max (current +ℤ delta))
        || over_cap cap (current +ℤ delta)
    then some result_out_of_bounds
    else none

unfoldable pub cell_problem : ScoringVocabulary → ℕ → ℕ → ℤ → ℤ → Option CellProblem
unfolding value_problem
cell_problem v key option current delta = elim (question v key) [
  | none ↦ some unknown_question
  | some q ↦
      if q.is_mutable
      then value_problem (deduction v key option) q.cap current delta
      else some CellProblem.not_mutable
]

live_reason : Bool → ℤ → ℤ → Option StaleReason
live_reason false live current = some StaleReason.not_mutable
live_reason true live current = if eqb_ℤ live current then none else some deduction_moved

unfoldable pub stale_reason : ScoringVocabulary → ℕ → ℕ → ℤ → ℕ → Option StaleReason
unfolding live_reason
stale_reason v key option current generated_at = elim (question v key) [
  | none ↦ some cell_removed
  | some q ↦ elim (deduction v key option) [
    | none ↦
        if renamed_away v key option generated_at then some option_renamed else some cell_removed
    | some live ↦ live_reason q.is_mutable live current
  ]
]

abbrev same_value : Option ℤ → ℤ → Bool
same_value none x = false
same_value (some live) x = eqb_ℤ live x

unfoldable pub published_unacknowledged : ScoringVocabulary → ℕ → ℕ → ℤ → ℤ → Bool
published_unacknowledged v key option current delta =
    same_value (deduction v key option) (current +ℤ delta)
