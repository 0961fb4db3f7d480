-- ===== src/Fetcher/Robots.antt =====
-- The rules of a robots.txt (imageshield/fetcher/robots.py). A text is the list of its code points. A
-- position in the path is the rest of the path from there on.
use silver_invention.Prelude.{
  ℕ, Option, none, some, Bool, true, false, ◌&&◌, ◌||◌, List, [], ◌∷◌, if◌then◌else◌, ◌==◌, ltb,
  leb, ◌+◌, not,
}
pub mod Wildcards
pub mod Precedence

abbrev pub Text : Type 0
Text = List ℕ

-- "*" and "$"
abbrev pub star : ℕ
star = 42

abbrev pub dollar : ℕ
dollar = 36

abbrev pub is_empty : Text → Bool
is_empty [] = true
is_empty (c ∷ s) = false

abbrev pub same : Text → Text → Bool
same [] s = is_empty s
same (c ∷ m) [] = false
same (c ∷ m) (d ∷ s) = c == d && same m s

abbrev pub ends_with : Text → Text → Bool
ends_with last [] = same last []
ends_with last (d ∷ s) = same last (d ∷ s) || ends_with last s

-- What is behind a prefix, where the text starts with it.
abbrev pub strip : Text → Text → Option Text
strip [] s = some s
strip (c ∷ m) [] = none
strip (c ∷ m) (d ∷ s) = if c == d then strip m s else none

-- `find`: what is behind the leftmost place of `m`.
abbrev pub after : Text → Text → Option Text
after m [] = strip m []
after m (d ∷ s) = let rest = after m s in elim (strip m (d ∷ s)) [ none ↦ rest | some r ↦ some r ]

abbrev pub found : Option Text → Bool
found none = false
found (some r) = true

-- `split("*")`: the first part and the others.
abbrev pub split_star : Text → Text × List Text
split_star [] = ([], [])
split_star (c ∷ p) =
    let rest = split_star p in if c == star then ([], rest.0 ∷ rest.1) else (c ∷ rest.0, rest.1)

abbrev pub is_anchored : Text → Bool
is_anchored [] = false
is_anchored (c ∷ []) = c == dollar
is_anchored (c ∷ (d ∷ p)) = is_anchored (d ∷ p)

-- `pattern[:-1]`
abbrev pub but_last : Text → Text
but_last [] = []
but_last (c ∷ []) = []
but_last (c ∷ (d ∷ p)) = c ∷ but_last (d ∷ p)

abbrev pub body_of : Text → Text
body_of pattern = if is_anchored pattern then but_last pattern else pattern

-- The parts behind the first, on the rest of the path.
unfoldable pub matches_parts : Bool → List Text → Text → Bool
matches_parts anchored [] s = if anchored then is_empty s else true
matches_parts anchored (last ∷ []) s = if anchored then ends_with last s else found (after last s)
matches_parts anchored (middle ∷ (next ∷ parts)) s = elim (after middle s) [
  | none ↦ false
  | some r ↦ matches_parts anchored (next ∷ parts) r
]

unfoldable pub matches : Text → Text → Bool
unfolding matches_parts
matches pattern path =
    let parts = split_star (body_of pattern) in
    elim (strip parts.0 path) [
      | none ↦ false
      | some s ↦ matches_parts (is_anchored pattern) parts.1 s
    ]

-- `len(pattern.encode())`, in UTF-8.
abbrev pub byte_len : Text → ℕ
byte_len [] = 0
byte_len (c ∷ p) =
    (if ltb c 128 then 1 else if ltb c 2048 then 2 else if ltb c 65536 then 3 else 4) + byte_len p

-- `(allow, pattern)`
abbrev pub Rule : Type 0
Rule = Bool × Text

abbrev pub candidate : Rule → ℕ × Bool
candidate rule = (byte_len rule.1, rule.0)

-- `candidate > best`, on pairs.
abbrev pub beats : ℕ × Bool → ℕ × Bool → Bool
beats c b = ltb b.0 c.0 || (c.0 == b.0 && (c.1 && not b.1))

abbrev pub better_of : ℕ × Bool → Option (ℕ × Bool) → Option (ℕ × Bool)
better_of c none = some c
better_of c (some b) = some (if beats c b then c else b)

unfoldable pub allows_loop : Text → List Rule → Option (ℕ × Bool) → Option (ℕ × Bool)
allows_loop path [] best = best
allows_loop path (rule ∷ rules) best =
    allows_loop path rules (if matches rule.1 path then better_of (candidate rule) best else best)

abbrev pub verdict_of : Option (ℕ × Bool) → Bool
verdict_of none = true
verdict_of (some best) = best.1

-- "/robots.txt"
abbrev pub robots_txt : Text
robots_txt = 47 ∷ 114 ∷ 111 ∷ 98 ∷ 111 ∷ 116 ∷ 115 ∷ 46 ∷ 116 ∷ 120 ∷ 116 ∷ []

unfoldable pub allows : List Rule → Text → Bool
unfolding allows_loop
allows rules path = if same path robots_txt then true else verdict_of (allows_loop path rules none)
