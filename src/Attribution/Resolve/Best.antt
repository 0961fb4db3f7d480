-- ===== src/Attribution/Resolve/Best.antt =====
-- The best surviving candidate (resolve_face of attribution/resolve.py).
use silver_invention.Prelude.{
  ℕ, ◌≡◌, refl, sym, ◌⊎◌, inl, inr, Option, none, some, Bool, true, false, List, [], ◌∷◌,
  if◌then◌else◌, arith, Bool-cases, Option-cases, ap, subst, All, Any, Any-map,
}
use silver_invention.Attribution.Resolve.{
  Float, mem, DetectedFace, FaceMatch, AttributedFace, as_candidate, surviving, best_of, winner,
  resolve_face,
}

-- The order of floats that are no NaN.
pub record IsOrder (fl : Float) : Type 0 where
  pub irreflexive : (x : fl.F) → fl.lt x x ≡ false
  pub transitive : (x y z : fl.F) → fl.lt x y ≡ true → fl.lt y z ≡ true → fl.lt x z ≡ true
  pub cotransitive : (x y z : fl.F) → fl.lt x z ≡ true → (fl.lt x y ≡ true) ⊎ (fl.lt y z ≡ true)

module _ (fl : Float) (parse_user_ref : ℕ → Option ℕ) where
  -- The match names a candidate: its id parses to `ref`, which is in the list.
  abbrev pub Names : List ℕ → ℕ → FaceMatch fl parse_user_ref → Type 0
  Names refs ref m = (parse_user_ref m.external_image_id ≡ some ref) × (mem ref refs ≡ true)

  -- The similarity of a pair.
  abbrev sim : FaceMatch fl parse_user_ref × ℕ → fl.F
  sim p = p.0.similarity

  candidate-Names :
      (refs : List ℕ) (m : FaceMatch fl parse_user_ref) (ref : ℕ)
      → as_candidate fl parse_user_ref m.external_image_id refs ≡ some ref
      → Names refs ref m
  unfolding as_candidate
  candidate-Names refs m ref e = ground arith

  Names-candidate :
      (refs : List ℕ) (m : FaceMatch fl parse_user_ref) (ref : ℕ)
      → Names refs ref m
      → as_candidate fl parse_user_ref m.external_image_id refs ≡ some ref
  unfolding as_candidate
  Names-candidate refs m ref n = ground arith

  absent :
      (refs : List ℕ) (m : FaceMatch fl parse_user_ref) (ref : ℕ)
      → as_candidate fl parse_user_ref m.external_image_id refs ≡ none
      → Names refs ref m
      → ⊥
  absent refs m ref e n = ground (arith, Names-candidate refs m ref n)

  -- What holds of some surviving pair holds of some match that names a candidate.
  some_match :
      (refs : List ℕ) (P : FaceMatch fl parse_user_ref × ℕ → Type 0)
      (matches : List (FaceMatch fl parse_user_ref))
      → Any P (surviving fl parse_user_ref matches refs)
      → Any (λ m. (ref : ℕ) × Names refs ref m × P (m, ref)) matches
  unfolding surviving
  some_match refs P [] h = h
  some_match refs P (m ∷ matches) h =
      elim (Option-cases (as_candidate fl parse_user_ref m.external_image_id refs)) [
        | inl e ↦ inr (some_match refs P matches (rw (e, surviving) at h))
        | inr (ref, e) ↦ elim (rw (e, surviving) at h) [
          | inl p ↦ inl (ref, candidate-Names refs m ref e, p)
          | inr rest ↦ inr (some_match refs P matches rest)
        ]
      ]

  -- What holds of every surviving pair holds of every match that names a candidate.
  every_match :
      (refs : List ℕ) (Q : FaceMatch fl parse_user_ref → Type 0)
      (matches : List (FaceMatch fl parse_user_ref))
      → All (λ p. Q p.0) (surviving fl parse_user_ref matches refs)
      → All (λ m. (ref : ℕ) → Names refs ref m → Q m) matches
  unfolding surviving
  every_match refs Q [] h = tt
  every_match refs Q (m ∷ matches) h =
      elim (Option-cases (as_candidate fl parse_user_ref m.external_image_id refs)) [
        | inl e ↦ (
          λ ref n. absurd (absent refs m ref e n),
          every_match refs Q matches (rw (e, surviving) at h),
        )
        | inr (ref, e) ↦
            let (q, rest) = rw (e, surviving) at h in (λ r n. q, every_match refs Q matches rest)
      ]

  module _ (o : IsOrder fl) where
    step_up :
        (x b p : FaceMatch fl parse_user_ref × ℕ)
        → fl.lt (sim x) (sim (if fl.lt (sim b) (sim p) then p else b)) ≡ false
        → (fl.lt (sim x) (sim b) ≡ false) × (fl.lt (sim x) (sim p) ≡ false)
    step_up x b p h = elim (Bool-cases (fl.lt (sim b) (sim p))) [
      | inl less ↦
          let hp : fl.lt (sim x) (sim p) ≡ false = rw less at h in
          (ground (arith, o.transitive (sim x) (sim b) (sim p)), hp)
      | inr not_less ↦
          let hb : fl.lt (sim x) (sim b) ≡ false = rw not_less at h in
          (hb, ground (arith, o.cotransitive (sim x) (sim b) (sim p)))
    ]

    among_step :
        (x b p : FaceMatch fl parse_user_ref × ℕ) (ps : List (FaceMatch fl parse_user_ref × ℕ))
        (t : Bool)
        → Any (λ q. q ≡ x) ((if t then p else b) ∷ ps)
        → Any (λ q. q ≡ x) (b ∷ (p ∷ ps))
    among_step x b p ps true (inl e) = inr (inl e)
    among_step x b p ps false (inl e) = inl e
    among_step x b p ps t (inr rest) = inr (inr rest)

    best_of_lem :
        (b : FaceMatch fl parse_user_ref × ℕ) (ps : List (FaceMatch fl parse_user_ref × ℕ))
        → let x = best_of fl parse_user_ref b ps in
          Any (λ p. p ≡ x) (b ∷ ps) × All (λ p. fl.lt (sim x) (sim p) ≡ false) (b ∷ ps)
    unfolding best_of
    best_of_lem b [] = (inl refl, (o.irreflexive (sim b), tt))
    best_of_lem b (p ∷ ps) =
        let c = if fl.lt (sim b) (sim p) then p else b in
        let (among, (top, all)) = best_of_lem c ps in
        let x = best_of fl parse_user_ref c ps in
        let (over_b, over_p) = step_up x b p top in
        (among_step x b p ps (fl.lt (sim b) (sim p)) among, (over_b, (over_p, all)))

    -- What an attribution says: nobody, and no match names a candidate; or a user that some match
    -- names, with that match's similarity, which no match that names a candidate exceeds.
    abbrev pub Attributed :
        List (FaceMatch fl parse_user_ref) → List ℕ → AttributedFace fl parse_user_ref → Type 0
    Attributed matches refs face =
        ((face.resolved_user_ref ≡ none)
          × (face.match_score ≡ none)
          × All (λ m. (ref : ℕ) → Names refs ref m → ⊥) matches)
        ⊎ Any
            (λ m.
              (ref : ℕ) × Names refs ref m
              × (face.resolved_user_ref ≡ some ref)
              × (face.match_score ≡ some m.similarity)
              × All (λ n. (r : ℕ) → Names refs r n → fl.lt m.similarity n.similarity ≡ false)
                  matches)
            matches

    winner-Attributed :
        (face : DetectedFace fl parse_user_ref) (matches : List (FaceMatch fl parse_user_ref))
        (refs : List ℕ) (ps : List (FaceMatch fl parse_user_ref × ℕ))
        → surviving fl parse_user_ref matches refs ≡ ps
        → Attributed matches refs (winner fl parse_user_ref face ps)
    winner-Attributed face matches refs [] e =
        inl (refl, refl, every_match refs (λ m. ⊥) matches (rw e tt))
    winner-Attributed face matches refs (p ∷ ps) e =
        let x = best_of fl parse_user_ref p ps in
        let (among, top) = best_of_lem p ps in
        let over_all =
          every_match refs (λ n. fl.lt (sim x) n.similarity ≡ false) matches (rw e top) in
        inr (
          Any-map matches
            (λ m (ref, n, q). (
              ref,
              n,
              ap (λ y. some y.1) (sym q),
              ap (λ y. some y.0.similarity) (sym q),
              subst
                  (λ y.
                    All (λ k. (r : ℕ) → Names refs r k → fl.lt (sim y) k.similarity ≡ false)
                      matches)
                  (sym q) over_all,
            ))
            (some_match refs (λ q. q ≡ x) matches (rw e among)))

    -- A face is attributed to nobody exactly when no match names one of the candidates; otherwise it
    -- is attributed to a candidate whom some match names, with that match's similarity, and no match
    -- that names a candidate has a higher one: a stranger's match is never chosen and never decides.
    -- The order of the similarities is that of floats that are no NaN.
    pub resolve_face-Attributed :
        (face : DetectedFace fl parse_user_ref) (matches : List (FaceMatch fl parse_user_ref))
        (refs : List ℕ)
        → Attributed matches refs (resolve_face fl parse_user_ref face matches refs)
    unfolding resolve_face
    resolve_face-Attributed face matches refs = winner-Attributed face matches refs _ refl
