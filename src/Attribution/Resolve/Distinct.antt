-- ===== src/Attribution/Resolve/Distinct.antt =====
-- One seed for each person (distinct_attributed of attribution/resolve.py).
use silver_invention.Prelude.{
  ℕ, ◌≡◌, refl, sym, ◌⊎◌, inl, inr, Option, none, some, Bool, true, false, List, [], ◌∷◌, ◌==◌,
  arith, Bool-cases, ap, All, Any,
}
use mathlib.Core.Option.{some-injective}
use mathlib.Core.Path.{◌∙◌}
use silver_invention.Prelude.Dict.{Dict, lookup, lookup-insert, Unique, insert-Unique}
use silver_invention.Attribution.Resolve.{
  Float, AttributedFace, score_or_zero, is_higher, keep_best, distinct_loop, distinct_attributed,
}
use silver_invention.Attribution.Resolve.Best.{IsOrder}

module _ (fl : Float) (parse_user_ref : ℕ → Option ℕ) where
  abbrev Face : Type 0
  Face = AttributedFace fl parse_user_ref

  abbrev score : Face → fl.F
  score face = score_or_zero fl parse_user_ref face.match_score

  -- The face shows the person.
  abbrev pub Shows : ℕ → Face → Type 0
  Shows ref face = face.resolved_user_ref ≡ some ref

  abbrev higher : Face → Option Face → Bool
  higher face cur = is_higher fl parse_user_ref face cur

  abbrev step : Face → Dict Face → Dict Face
  step face best = keep_best fl parse_user_ref face best face.resolved_user_ref

  keep_best-Unique :
      (face : Face) (best : Dict Face) (who : Option ℕ)
      → Unique best
      → Unique (keep_best fl parse_user_ref face best who)
  keep_best-Unique face best none u = u
  keep_best-Unique face best (some ref) u = elim (Bool-cases (higher face (lookup ref best))) [
    | inl up ↦ rw up (insert-Unique ref face best u)
    | inr below ↦ rw below u
  ]

  loop-Unique :
      (faces : List Face) (best : Dict Face)
      → Unique best
      → Unique (distinct_loop fl parse_user_ref faces best)
  unfolding distinct_loop
  loop-Unique [] best u = u
  loop-Unique (face ∷ faces) best u =
      loop-Unique faces _ (keep_best-Unique face best face.resolved_user_ref u)

  -- The entry of a person after a face, from the one before.
  abbrev Moved : ℕ → Face → Option Face → Option Face → Option ℕ → Type 0
  Moved ref face cur next who =
      ((next ≡ some face) × (who ≡ some ref) × (higher face cur ≡ true))
      ⊎ ((next ≡ cur) × (who ≡ some ref → higher face cur ≡ false))

  next_entry :
      (ref r : ℕ) (face : Face) (best : Dict Face)
      → (higher face (lookup r best) ≡ true) ⊎ (higher face (lookup r best) ≡ false)
      → ((r == ref) ≡ true) ⊎ ((r == ref) ≡ false)
      → Moved ref face
          (lookup ref best)
          (lookup ref (keep_best fl parse_user_ref face best (some r)))
          (some r)
  next_entry ref r face best (inl up) (inl same) =
      let q : r ≡ ref = ground arith in
      rw (up, lookup-insert r ref face best, same) (inl (refl, ap some q, rw q at up))
  next_entry ref r face best (inl up) (inr other) =
      rw (up, lookup-insert r ref face best, other)
        (inr (refl, λ e. let q = some-injective r ref e in ground arith))
  next_entry ref r face best (inr down) _ =
      rw down (inr (refl, λ e. rw (some-injective r ref e) at down))

  keep_best-Moved :
      (ref : ℕ) (face : Face) (best : Dict Face) (who : Option ℕ)
      → Moved ref face
          (lookup ref best)
          (lookup ref (keep_best fl parse_user_ref face best who))
          who
  keep_best-Moved ref face best none = inr (refl, λ e. ground arith)
  keep_best-Moved ref face best (some r) =
      next_entry ref r face best (Bool-cases (higher face (lookup r best))) (Bool-cases (r == ref))

  -- What an entry says of the faces, where `cur` is the entry before them.
  abbrev KeptFrom : ℕ → Option Face → List Face → Option Face → Type 0
  KeptFrom ref cur faces none = (cur ≡ none) × All (λ f. Shows ref f → ⊥) faces
  KeptFrom ref cur faces (some g) =
      ((cur ≡ some g) ⊎ Any (λ f. (f ≡ g) × Shows ref f) faces)
      × ((c : Face) → cur ≡ some c → fl.lt (score g) (score c) ≡ false)
      × All (λ f. Shows ref f → fl.lt (score g) (score f) ≡ false) faces

  module _ (o : IsOrder fl) where
    beats_none : (face : Face) (cur : Option Face) → cur ≡ none → higher face cur ≡ false → ⊥
    beats_none face none e h = ground arith
    beats_none face (some c) e h = ground arith

    not_above :
        (g face : Face) (cur : Option Face)
        → ((c : Face) → cur ≡ some c → fl.lt (score g) (score c) ≡ false)
        → higher face cur ≡ false
        → fl.lt (score g) (score face) ≡ false
    not_above g face none above h = ground arith
    not_above g face (some c) above h =
        let below = above c refl in ground (arith, o.cotransitive (score g) (score c) (score face))

    above_old :
        (g face c : Face) (cur : Option Face)
        → cur ≡ some c
        → higher face cur ≡ true
        → fl.lt (score g) (score face) ≡ false
        → fl.lt (score g) (score c) ≡ false
    above_old g face c cur e h top =
        let over : higher face (some c) ≡ true = rw e at h in
        ground (arith, o.transitive (score g) (score c) (score face))

    origin :
        (ref : ℕ) (face g : Face) (faces : List Face) (cur next : Option Face)
        → next ≡ some face
        → Shows ref face
        → (next ≡ some g) ⊎ Any (λ f. (f ≡ g) × Shows ref f) faces
        → (cur ≡ some g) ⊎ Any (λ f. (f ≡ g) × Shows ref f) (face ∷ faces)
    origin ref face g faces cur next e shows (inl q) =
        inr (inl (some-injective face g (sym e ∙ q), shows))
    origin ref face g faces cur next e shows (inr rest) = inr (inr rest)

    keep_origin :
        (ref : ℕ) (face g : Face) (faces : List Face) (cur next : Option Face)
        → next ≡ cur
        → (next ≡ some g) ⊎ Any (λ f. (f ≡ g) × Shows ref f) faces
        → (cur ≡ some g) ⊎ Any (λ f. (f ≡ g) × Shows ref f) (face ∷ faces)
    keep_origin ref face g faces cur next e (inl q) = inl (sym e ∙ q)
    keep_origin ref face g faces cur next e (inr rest) = inr (inr rest)

    step_back :
        (ref : ℕ) (face : Face) (faces : List Face) (cur next r : Option Face)
        → Moved ref face cur next face.resolved_user_ref
        → KeptFrom ref next faces r
        → KeptFrom ref cur (face ∷ faces) r
    step_back ref face faces cur next none (inl (e, shows, h)) (f, all) = ground arith
    step_back ref face faces cur next none (inr (e, not_higher)) (f, all) =
        (sym e ∙ f, (λ sh. beats_none face cur (sym e ∙ f) (not_higher sh), all))
    step_back ref face faces cur next (some g) (inl (e, shows, h)) (from, above, all) =
        let top = above face e in
        (
          origin ref face g faces cur next e shows from,
          λ c e1. above_old g face c cur e1 h top,
          (λ sh. top, all),
        )
    step_back ref face faces cur next (some g) (inr (e, not_higher)) (from, above, all) =
        let above_cur : (c : Face) → cur ≡ some c → fl.lt (score g) (score c) ≡ false =
          λ c e1. above c (e ∙ e1) in
        (
          keep_origin ref face g faces cur next e from,
          above_cur,
          (λ sh. not_above g face cur above_cur (not_higher sh), all),
        )

    nothing_yet : (ref : ℕ) (cur : Option Face) → KeptFrom ref cur [] cur
    nothing_yet ref none = (refl, tt)
    nothing_yet ref (some g) =
        (inl refl, λ c e. rw (sym (some-injective g c e)) (o.irreflexive (score g)), tt)

    loop-KeptFrom :
        (ref : ℕ) (faces : List Face) (best : Dict Face)
        → KeptFrom ref
            (lookup ref best)
            faces
            (lookup ref (distinct_loop fl parse_user_ref faces best))
    unfolding distinct_loop
    loop-KeptFrom ref [] best = nothing_yet ref (lookup ref best)
    loop-KeptFrom ref (face ∷ faces) best =
        step_back ref face faces _ _ _ (keep_best-Moved ref face best face.resolved_user_ref)
          (loop-KeptFrom ref faces _)

    -- What the result says of a person: no face shows them, or the one that is kept shows them and
    -- no face of theirs has a higher score.
    abbrev pub Kept : ℕ → List Face → Option Face → Type 0
    Kept ref faces none = All (λ f. Shows ref f → ⊥) faces
    Kept ref faces (some g) =
        Any (λ f. (f ≡ g) × Shows ref f) faces
        × All (λ f. Shows ref f → fl.lt (score g) (score f) ≡ false) faces

    drop_start :
        (ref : ℕ) (faces : List Face) (r : Option Face)
        → KeptFrom ref none faces r
        → Kept ref faces r
    drop_start ref faces none (e, all) = all
    drop_start ref faces (some g) (inl e, above, all) = ground arith
    drop_start ref faces (some g) (inr from, above, all) = (from, all)

    -- `distinct_attributed` has each person once. A person is in it exactly when some face shows
    -- them, and the face kept for them is one of theirs such that no face of theirs has a higher
    -- score (`None` and a zero score count as 0.0). The order of the scores is that of floats that
    -- are no NaN.
    pub distinct_attributed-Kept :
        (faces : List Face)
        → Unique (distinct_attributed fl parse_user_ref faces)
          × ((ref : ℕ) → Kept ref faces (lookup ref (distinct_attributed fl parse_user_ref faces)))
    unfolding distinct_attributed
    distinct_attributed-Kept faces =
        (loop-Unique faces [] tt, λ ref. drop_start ref faces _ (loop-KeptFrom ref faces []))
