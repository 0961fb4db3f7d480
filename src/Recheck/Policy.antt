-- ===== src/Recheck/Policy.antt =====
-- What an HTTP status says about a page (imageshield/recheck/policy.py).
use silver_invention.Prelude.{ℕ, Bool, ◌&&◌, ◌||◌, if◌then◌else◌, leb, ◌==◌}

pub data Verdict : Type 0 where
  alive dead unchanged : Verdict

abbrev pub is_dead_status : ℕ → Bool
is_dead_status code = code == 404 || code == 410

unfoldable pub verdict_for_status : ℕ → Verdict
verdict_for_status code =
    if is_dead_status code
    then dead
    else if leb 500 code && leb code 599
    then unchanged
    else if code == 401 || code == 403
    then alive
    else if leb 200 code && leb code 399
    then alive
    else unchanged
