-- ===== src/Intel/Examples.antt =====
-- A weight cell at concrete inputs: option 2 of question 1, at 5, raised by 2.
use silver_invention.Prelude.{◌↔◌, ◌≡◌, none, some, true, [], ◌∷◌}
use silver_invention.Prelude.Int.{pos, ℤ}
use silver_invention.Intel.Vocabulary.{VocabQuestion, ScoringVocabulary, question}
use silver_invention.Intel.Cells.{cell_problem}
use silver_invention.Intel.Cells.Changes.{IsSound, cell_problem_iff}

abbrev question_at : ℤ → VocabQuestion
question_at live = record {
  is_mutable = true;
  options = 2 ∷ 3 ∷ [];
  deductions = (2, live) ∷ (3, pos 1) ∷ [];
  cap = some (pos 8);
}

-- Option 4 of question 1 was renamed to 3 in release 6.
abbrev quiz_at : ℤ → ScoringVocabulary
quiz_at live = record {
  questions = (1, question_at live) ∷ [];
  renamed = record { release_no = 6; question_key = 1; old_option = 4; new_option = 3 } ∷ [];
}

cell_problem_iff_example : (cell_problem (quiz_at (pos 5)) 1 2 (pos 5) (pos 2) ≡ none) ↔ (
    (q : VocabQuestion) × (question (quiz_at (pos 5)) 1 ≡ some q)
    × IsSound (quiz_at (pos 5)) 1 2 (pos 5) (pos 2) q)
cell_problem_iff_example = cell_problem_iff (quiz_at (pos 5)) 1 2 (pos 5) (pos 2)
