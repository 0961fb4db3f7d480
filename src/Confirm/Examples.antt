-- ===== src/Confirm/Examples.antt =====
-- Duplicates at concrete inputs.
use silver_invention.Prelude.{ℕ, List, [], ◌∷◌}
use silver_invention.Confirm.Triage.{find_duplicate}
use silver_invention.Confirm.Triage.Duplicates.{Chosen, find_duplicate_lem}

-- Three decided hits, at the distances 2, 1 and 1 of the pattern 255.
abbrev decided : List (ℕ × ℕ)
decided = (10, 252) ∷ (11, 254) ∷ (12, 253) ∷ []

find_duplicate_lem_example : Chosen 255 3 decided (find_duplicate 255 decided 3)
find_duplicate_lem_example = find_duplicate_lem 255 3 decided
