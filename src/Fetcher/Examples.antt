-- ===== src/Fetcher/Examples.antt =====
-- Rules and a cache at concrete inputs: the patterns are "/a*b$" and "/a".
use silver_invention.Prelude.{◌≡◌, refl, true, false, List, [], ◌∷◌, ℕ, some, none, ◌<◌, ◌+◌}
use silver_invention.Prelude.Dict.{erase}
use silver_invention.Fetcher.Cache.{get, put}
use silver_invention.Fetcher.Cache.Freshness.{Op, got, stored, after_calls, last_put, get_fresh}
use silver_invention.Fetcher.Robots.{Text, Rule, matches, allows, is_anchored, body_of}
use silver_invention.Fetcher.Robots.Wildcards.{glob, matches_glob}
use silver_invention.Fetcher.Robots.Precedence.{Decided, allows-Decided}

abbrev wild : Text
wild = 47 ∷ 97 ∷ 42 ∷ 98 ∷ 36 ∷ []

abbrev short : Text
short = 47 ∷ 97 ∷ []

-- "/abab" and "/abac"
abbrev ends_in_b : Text
ends_in_b = 47 ∷ 97 ∷ 98 ∷ 97 ∷ 98 ∷ []

abbrev ends_in_c : Text
ends_in_c = 47 ∷ 97 ∷ 98 ∷ 97 ∷ 99 ∷ []

wild_yes : matches wild ends_in_b ≡ true
unfolding matches
wild_yes = refl

wild_no : matches wild ends_in_c ≡ false
unfolding matches
wild_no = refl

matches_glob_example : matches wild ends_in_b ≡ glob (is_anchored wild) (body_of wild) ends_in_b
matches_glob_example = matches_glob wild ends_in_b

abbrev rules : List Rule
rules = (true, short) ∷ (false, wild) ∷ []

longer_denies : allows rules ends_in_b ≡ false
unfolding allows matches
longer_denies = refl

shorter_allows : allows rules ends_in_c ≡ true
unfolding allows matches
shorter_allows = refl

allows-Decided_example : Decided ends_in_b rules (allows rules ends_in_b)
allows-Decided_example = allows-Decided rules ends_in_b

-- A cache of two origins: the third pushes out the first, which was not asked for again.
abbrev calls : List (Op ℕ)
calls = stored 30 3 300 ∷ got 25 2 ∷ stored 20 2 200 ∷ stored 10 1 100 ∷ []

evicted : (get ℕ 31 1 (after_calls ℕ 60 2 calls)).0 ≡ none
unfolding get put after_calls erase
evicted = refl

answered : (get ℕ 31 2 (after_calls ℕ 60 2 calls)).0 ≡ some 200
unfolding get put after_calls erase
answered = refl

expired : (get ℕ 80 2 (after_calls ℕ 60 2 calls)).0 ≡ none
unfolding get put after_calls erase
expired = refl

get_fresh_example : (t : ℕ) × (last_put ℕ 2 calls ≡ some (t, 200)) × (31 < t + 60)
get_fresh_example = get_fresh ℕ 60 2 31 2 calls 200 answered
