-- ===== src/Fetcher/Robots/Precedence.antt =====
-- Which rule decides (RobotsRules.allows of fetcher/robots.py).
use silver_invention.Prelude.{
  ℕ, ◌≡◌, refl, sym, ◌⊎◌, inl, inr, Option, none, some, Bool, true, false, List, [], ◌∷◌, arith,
  Bool-cases, ap, ◌≤◌, All, Any, Any-map,
}
use mathlib.Core.Path.{◌∙◌, subst}
use mathlib.Core.Option.{some-injective, none-ne-some}
use silver_invention.Fetcher.Robots.{
  Text, Rule, candidate, beats, better_of, allows_loop, verdict_of, allows, matches, robots_txt,
  same,
}

-- The longer pattern goes first, and on a tie an allowing rule.
abbrev pub Below : ℕ × Bool → ℕ × Bool → Type 0
Below c k = (c.0 ≤ k.0) × (c.0 ≡ k.0 → c.1 ≡ true → k.1 ≡ true)

Below-transitive : (a b c : ℕ × Bool) → Below a b → Below b c → Below a c
Below-transitive (l, a) (m, b) (n, c) h k = ground arith

-- The better of two: above both, and one of them.
abbrev Better : ℕ × Bool → Option (ℕ × Bool) → ℕ × Bool → Type 0
Better c b w =
    (better_of c b ≡ some w)
    × Below c w
    × ((a : ℕ × Bool) → b ≡ some a → Below a w)
    × ((c ≡ w) ⊎ (b ≡ some w))

Below-reflexive : (c : ℕ × Bool) → Below c c
Below-reflexive (l, x) = ground arith

beats-Below : (c a : ℕ × Bool) → beats c a ≡ true → Below a c
beats-Below (l, x) (m, y) e = ground arith

yields-Below : (c a : ℕ × Bool) → beats c a ≡ false → Below c a
yields-Below (l, x) (m, y) e = ground arith

only-Below : (a b w : ℕ × Bool) → Below a w → some a ≡ some b → Below b w
only-Below a b w h e = subst (λ x. Below x w) (some-injective a b e) h

better : (c : ℕ × Bool) (b : Option (ℕ × Bool)) → (w : ℕ × Bool) × Better c b w
better c none = (c, (refl, Below-reflexive c, (λ a e. absurd (none-ne-some a e)), inl refl))
better c (some a) = elim (Bool-cases (beats c a)) [
  | inl wins ↦ (
    c,
    (rw wins refl, Below-reflexive c, (λ x. only-Below a x c (beats-Below c a wins)), inl refl),
  )
  | inr loses ↦ (
    a,
    (rw loses refl, yields-Below c a loses, (λ x. only-Below a x a (Below-reflexive a)), inr refl),
  )
]

-- What the best so far says of the rules, from `b` on.
abbrev From : Text → Option (ℕ × Bool) → List Rule → Option (ℕ × Bool) → Type 0
From path b rules none = (b ≡ none) × All (λ p. matches p.1 path ≡ false) rules
From path b rules (some k) =
    ((b ≡ some k) ⊎ Any (λ q. (candidate q ≡ k) × (matches q.1 path ≡ true)) rules)
    × ((c : ℕ × Bool) → b ≡ some c → Below c k)
    × All (λ p. matches p.1 path ≡ true → Below (candidate p) k) rules

placed :
    (path : Text) (rule : Rule) (b : Option (ℕ × Bool)) (rules : List Rule) (w k : ℕ × Bool)
    → matches rule.1 path ≡ true
    → better_of (candidate rule) b ≡ some w
    → (candidate rule ≡ w) ⊎ (b ≡ some w)
    → (better_of (candidate rule) b ≡ some k)
      ⊎ Any (λ q. (candidate q ≡ k) × (matches q.1 path ≡ true)) rules
    → (b ≡ some k) ⊎ Any (λ q. (candidate q ≡ k) × (matches q.1 path ≡ true)) (rule ∷ rules)
placed path rule b rules w k e q which (inr rest) = inr (inr rest)
placed path rule b rules w k e q (inl own) (inl f) =
    inr (inl (own ∙ some-injective w k (sym q ∙ f), e))
placed path rule b rules w k e q (inr old) (inl f) = inl (old ∙ (sym q ∙ f))

matched :
    (path : Text) (rule : Rule) (b : Option (ℕ × Bool)) (rules : List Rule) (r : Option (ℕ × Bool))
    → matches rule.1 path ≡ true
    → From path (better_of (candidate rule) b) rules r
    → From path b (rule ∷ rules) r
matched path rule b rules none e (f, all) =
    let (w, (q, own, old, which)) = better (candidate rule) b in absurd (none-ne-some w (sym f ∙ q))
matched path rule b rules (some k) e (from, above, all) =
    let (w, (q, own, old, which)) = better (candidate rule) b in
    let top = above w q in
    (
      placed path rule b rules w k e q which from,
      λ c h. Below-transitive c w k (old c h) top,
      (λ h. Below-transitive (candidate rule) w k own top, all),
    )

missed :
    (path : Text) (rule : Rule) (b : Option (ℕ × Bool)) (rules : List Rule) (r : Option (ℕ × Bool))
    → matches rule.1 path ≡ false
    → From path b rules r
    → From path b (rule ∷ rules) r
missed path rule b rules none e (f, all) = (f, (e, all))
missed path rule b rules (some k) e (inl f, above, all) = (inl f, above, (λ h. ground arith, all))
missed path rule b rules (some k) e (inr f, above, all) =
    (inr (inr f), above, (λ h. ground arith, all))

nothing_read : (path : Text) (b : Option (ℕ × Bool)) → From path b [] b
nothing_read path none = (refl, tt)
nothing_read path (some k) = (inl refl, (λ c e. only-Below k c k (Below-reflexive k) e), tt)

loop-From :
    (path : Text) (rules : List Rule) (b : Option (ℕ × Bool))
    → From path b rules (allows_loop path rules b)
unfolding allows_loop
loop-From path [] b = nothing_read path b
loop-From path (rule ∷ rules) b = elim (Bool-cases (matches rule.1 path)) [
  | inl e ↦ rw e (matched path rule b rules _ e (loop-From path rules _))
  | inr e ↦ rw e (missed path rule b rules _ e (loop-From path rules b))
]

-- The rule `q` decides as `verdict`: it matches, and no matching rule goes before it.
abbrev Decides : Text → List Rule → Bool → Rule → Type 0
Decides path rules verdict q =
    (q.0 ≡ verdict)
    × (matches q.1 path ≡ true)
    × All (λ p. matches p.1 path ≡ true → Below (candidate p) (candidate q)) rules

abbrev pub Decided : Text → List Rule → Bool → Type 0
Decided path rules verdict =
    ((verdict ≡ true) × ((same path robots_txt ≡ true) ⊎ All (λ p. matches p.1 path ≡ false) rules))
    ⊎ ((same path robots_txt ≡ false) × Any (Decides path rules verdict) rules)

best-Decided :
    (path : Text) (rules : List Rule) (r : Option (ℕ × Bool))
    → same path robots_txt ≡ false
    → From path none rules r
    → Decided path rules (verdict_of r)
best-Decided path rules none page (f, all) = inl (refl, inr all)
best-Decided path rules (some k) page (inl f, above, all) = absurd (none-ne-some k f)
best-Decided path rules (some k) page (inr f, above, all) = inr (
  page,
  Any-map rules
      (λ q (e, m). (
        ap (λ c. c.1) e,
        m,
        subst (λ c. All (λ p. matches p.1 path ≡ true → Below (candidate p) c) rules) (sym e) all,
      ))
      f,
)

-- `allows` says yes to /robots.txt itself and to a path that no rule matches. Otherwise one of the
-- matching rules decides: none of the others has a longer pattern, and an allowing rule of the same
-- length means that it allows.
pub allows-Decided : (rules : List Rule) (path : Text) → Decided path rules (allows rules path)
unfolding allows
allows-Decided rules path = elim (Bool-cases (same path robots_txt)) [
  | inl itself ↦ rw itself (inl (refl, inl refl))
  | inr page ↦
      let e : allows rules path ≡ verdict_of (allows_loop path rules none) = rw page refl in
      subst (Decided path rules) (sym e)
        (best-Decided path rules _ page (loop-From path rules none))
]
