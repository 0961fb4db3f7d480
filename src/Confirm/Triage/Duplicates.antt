-- ===== src/Confirm/Triage/Duplicates.antt =====
-- Which decided hit a duplicate is matched to (find_duplicate of imageshield/confirm/triage.py).
use silver_invention.Prelude.{
  ℕ, ◌≤◌, ◌<◌, ◌≡◌, refl, ◌⊎◌, inl, inr, Option, none, some, true, false, List, [], ◌∷◌, arith, sym,
  All,
}
use silver_invention.Confirm.Triage.{
  hamming, duplicate_loop, find_duplicate, Best, is_better, id_of,
}

-- No decided hit is closer than `d`.
abbrev pub NoneCloser : ℕ → ℕ → List (ℕ × ℕ) → Type 0
NoneCloser new_phash d decided = All (λ hit. d ≤ hamming new_phash hit.1) decided

-- The first hit at the distance `d`, with every earlier one farther away and no later one closer.
unfoldable pub FirstClosest : ℕ → ℕ → ℕ → List (ℕ × ℕ) → Type 0
FirstClosest new_phash id d [] = ⊥
FirstClosest new_phash id d ((i, phash) ∷ decided) =
    ((i ≡ id) × (hamming new_phash phash ≡ d) × NoneCloser new_phash d decided)
    ⊎ ((d < hamming new_phash phash) × FirstClosest new_phash id d decided)

abbrev pub AllFar : ℕ → ℕ → List (ℕ × ℕ) → Type 0
AllFar new_phash hamming_max decided = All (λ hit. hamming_max < hamming new_phash hit.1) decided

-- What the answer promises.
abbrev pub Chosen : ℕ → ℕ → List (ℕ × ℕ) → Option ℕ → Type 0
Chosen new_phash hamming_max decided none = AllFar new_phash hamming_max decided
Chosen new_phash hamming_max decided (some id) =
    (d : ℕ) × (d ≤ hamming_max) × FirstClosest new_phash id d decided

-- The loop's answer, from the best candidate it starts with.
abbrev LoopChosen : ℕ → ℕ → Best → List (ℕ × ℕ) → Best → Type 0
LoopChosen new_phash hamming_max none decided none = AllFar new_phash hamming_max decided
LoopChosen new_phash hamming_max (some b) decided none = ⊥
LoopChosen new_phash hamming_max none decided (some (id, d)) =
    (d ≤ hamming_max) × FirstClosest new_phash id d decided
LoopChosen new_phash hamming_max (some (id0, d0)) decided (some (id, d)) =
    ((id ≡ id0) × (d ≡ d0) × NoneCloser new_phash d0 decided)
    ⊎ ((d < d0) × FirstClosest new_phash id d decided)

abbrev InReach : ℕ → Best → Type 0
InReach hamming_max none = Unit
InReach hamming_max (some (_, d)) = d ≤ hamming_max

-- One more hit in front, taken or not.
cons_far :
    (new_phash hamming_max id phash : ℕ) (decided : List (ℕ × ℕ)) (best : Best)
    → LoopChosen new_phash hamming_max none decided best
    → hamming_max < hamming new_phash phash
    → LoopChosen new_phash hamming_max none ((id, phash) ∷ decided) best
unfolding FirstClosest
cons_far new_phash hamming_max id phash decided none h far = (far, h)
cons_far new_phash hamming_max id phash decided (some (i, d)) (r, h) far = (r, inr (omega arith, h))

head_or_later :
    (new_phash id phash : ℕ) (decided : List (ℕ × ℕ)) (i d : ℕ)
    → LoopChosen new_phash 0 (some (id, hamming new_phash phash)) decided (some (i, d))
    → (d ≤ hamming new_phash phash) × FirstClosest new_phash i d ((id, phash) ∷ decided)
unfolding FirstClosest
head_or_later new_phash id phash decided i d (inl (ei, ed, rest)) =
    (omega (arith, ed), inl (sym ei, sym ed, rw (sym ed) at rest))
head_or_later new_phash id phash decided i d (inr (below, rest)) = (omega arith, inr (below, rest))

cons_first :
    (new_phash hamming_max id phash : ℕ) (decided : List (ℕ × ℕ)) (best : Best)
    → LoopChosen new_phash hamming_max (some (id, hamming new_phash phash)) decided best
    → hamming new_phash phash ≤ hamming_max
    → LoopChosen new_phash hamming_max none ((id, phash) ∷ decided) best
cons_first new_phash hamming_max id phash decided none h near = absurd h
cons_first new_phash hamming_max id phash decided (some (i, d)) h near =
    let (below, first) = head_or_later new_phash id phash decided i d h in
    (omega (arith, below), first)

cons_better :
    (new_phash hamming_max id phash i0 d0 : ℕ) (decided : List (ℕ × ℕ)) (best : Best)
    → LoopChosen new_phash hamming_max (some (id, hamming new_phash phash)) decided best
    → hamming new_phash phash < d0
    → LoopChosen new_phash hamming_max (some (i0, d0)) ((id, phash) ∷ decided) best
cons_better new_phash hamming_max id phash i0 d0 decided none h better = absurd h
cons_better new_phash hamming_max id phash i0 d0 decided (some (i, d)) h better =
    let (below, first) = head_or_later new_phash id phash decided i d h in
    inr (omega (arith, below), first)

cons_worse :
    (new_phash hamming_max id phash i0 d0 : ℕ) (decided : List (ℕ × ℕ)) (best : Best)
    → LoopChosen new_phash hamming_max (some (i0, d0)) decided best
    → d0 ≤ hamming new_phash phash
    → LoopChosen new_phash hamming_max (some (i0, d0)) ((id, phash) ∷ decided) best
unfolding FirstClosest
cons_worse new_phash hamming_max id phash i0 d0 decided none h worse = absurd h
cons_worse new_phash hamming_max id phash i0 d0 decided (some (i, d)) (inl (ei, ed, rest)) worse =
    inl (ei, ed, (worse, rest))
cons_worse new_phash hamming_max id phash i0 d0 decided (some (i, d)) (inr (below, rest)) worse =
    inr (below, inr (omega arith, rest))

le_cases : (a b : ℕ) → (a ≤ b) ⊎ (b < a)
le_cases a b = ground arith

-- The round takes the hit, or keeps the candidate.
taken :
    (new_phash hamming_max id phash : ℕ) (best : Best) (decided : List (ℕ × ℕ))
    → hamming new_phash phash ≤ hamming_max
    → is_better best (hamming new_phash phash) ≡ true
    → duplicate_loop new_phash hamming_max best ((id, phash) ∷ decided)
      ≡ duplicate_loop new_phash hamming_max (some (id, hamming new_phash phash)) decided
unfolding duplicate_loop
taken new_phash hamming_max id phash best decided near better = ground arith

kept :
    (new_phash hamming_max id phash : ℕ) (best : Best) (decided : List (ℕ × ℕ))
    → (hamming_max < hamming new_phash phash) ⊎ (is_better best (hamming new_phash phash) ≡ false)
    → duplicate_loop new_phash hamming_max best ((id, phash) ∷ decided)
      ≡ duplicate_loop new_phash hamming_max best decided
unfolding duplicate_loop
kept new_phash hamming_max id phash best decided h = ground arith

loop_chosen :
    (new_phash hamming_max : ℕ) (best : Best) (decided : List (ℕ × ℕ))
    → InReach hamming_max best
    → LoopChosen new_phash hamming_max best decided
        (duplicate_loop new_phash hamming_max best decided)
loop_chosen new_phash hamming_max none [] ok = unfold duplicate_loop in tt
loop_chosen new_phash hamming_max (some (i, d)) [] ok =
    unfold duplicate_loop in inl (refl, refl, tt)
loop_chosen new_phash hamming_max none ((id, phash) ∷ decided) ok =
    elim (le_cases (hamming new_phash phash) hamming_max) [
      | inl near ↦ rw (taken new_phash hamming_max id phash none decided near refl) (
          cons_first new_phash hamming_max id phash decided _
            (loop_chosen new_phash hamming_max (some (id, hamming new_phash phash)) decided near)
            near)
      | inr far ↦ rw (kept new_phash hamming_max id phash none decided (inl far)) (
          cons_far new_phash hamming_max id phash decided _
            (loop_chosen new_phash hamming_max none decided tt) far)
    ]
loop_chosen new_phash hamming_max (some (i0, d0)) ((id, phash) ∷ decided) ok =
    elim (le_cases d0 (hamming new_phash phash)) [
      | inl worse ↦
          rw (kept new_phash hamming_max id phash (some (i0, d0)) decided (inr (ground arith))) (
            cons_worse new_phash hamming_max id phash i0 d0 decided _
              (loop_chosen new_phash hamming_max (some (i0, d0)) decided ok) worse)
      | inr better ↦
          let near : hamming new_phash phash ≤ hamming_max = omega arith in
          rw (taken new_phash hamming_max id phash (some (i0, d0)) decided near (ground arith)) (
            cons_better new_phash hamming_max id phash i0 d0 decided _
              (loop_chosen new_phash hamming_max (some (id, hamming new_phash phash)) decided near)
              better)
    ]

id_Chosen :
    (new_phash hamming_max : ℕ) (decided : List (ℕ × ℕ)) (best : Best)
    → LoopChosen new_phash hamming_max none decided best
    → Chosen new_phash hamming_max decided (id_of best)
id_Chosen new_phash hamming_max decided none h = h
id_Chosen new_phash hamming_max decided (some (id, d)) (near, first) = (d, near, first)

-- With no answer, every decided hit is farther from the new pattern than the limit. With an answer,
-- it is the id of the first of the closest hits, and its distance is within the limit: every
-- earlier hit is farther away, and no later one is closer.
pub find_duplicate_lem :
    (new_phash hamming_max : ℕ) (decided : List (ℕ × ℕ))
    → Chosen new_phash hamming_max decided (find_duplicate new_phash decided hamming_max)
unfolding find_duplicate
find_duplicate_lem new_phash hamming_max decided =
    id_Chosen new_phash hamming_max decided _ (loop_chosen new_phash hamming_max none decided tt)
