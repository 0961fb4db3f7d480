-- ===== src/Search/Store/Hits/Signals.antt =====
-- Signals and other updates that leave the band of a hit keep the invariant (record_feedback of
-- imageshield/search/store.py).
use silver_invention.Search.Store.Hits.Rows.{update-SameKeys, map_option_inv}
use silver_invention.Search.Store.Hits.{
  record_feedback, give_feedback, set_status, owned, apply_signal, status_for, add_feedback,
}
use silver_invention.Prelude.{
  ℕ, ◌≡◌, refl, ◌∙◌, subst, Option, none, some, ◌==◌, Bool-cases, inl, inr,
}
use silver_invention.Prelude.Dict.{lookup, update, lookup-update, map_option}
use silver_invention.Search.Store.{Tables, Infringement, HitStatus, Signal}
use silver_invention.Search.Store.Hits.Invariant.{Agrees, HitsInv, one_hit-SameKeys}

-- A change of a row that keeps its key and its band.
abbrev pub KeepsBand : (Infringement → Infringement) → Type 0
KeepsBand f =
    (r : Infringement)
    → ((f r).user_ref ≡ r.user_ref)
      × ((f r).url_hash ≡ r.url_hash)
      × ((f r).band ≡ r.band)
      × ((f r).band_reason ≡ r.band_reason)

update-Agrees :
    (id : ℕ) (f : Infringement → Infringement) (t : Tables)
    → KeepsBand f
    → HitsInv t
    → (i : ℕ) (row : Infringement) → lookup i (update id f t.infringements) ≡ some row
    → Agrees i row t.attestations
update-Agrees id f t keeps h i row e = elim (Bool-cases (id == i)) [
  | inl same ↦
      let e1 : map_option f (lookup i t.infringements) ≡ some row =
        rw (lookup-update id i f t.infringements, same) at e in
      let (r, found, q) = map_option_inv f (lookup i t.infringements) row e1 in
      let (_, _, b, c) = keeps r in
      let (x, y, z) = h.agrees i r found in
      subst (λ y. Agrees i y t.attestations) q (b ∙ x, c ∙ y, z)
  | inr different ↦ h.agrees i row (rw (lookup-update id i f t.infringements, different) at e)
]

pub update-HitsInv :
    (id : ℕ) (f : Infringement → Infringement) (t : Tables)
    → KeepsBand f
    → HitsInv t
    → HitsInv (record t { infringements = update id f t.infringements })
update-HitsInv id f t keeps h =
    let keys = update-SameKeys id f t.infringements (λ r. let (u, x, _, _) = keeps r in (u, x)) in
    record {
      agrees = update-Agrees id f t keeps h;
      one_hit = one_hit-SameKeys t.infringements (update id f t.infringements) keys h.one_hit;
      known_ids = λ i r q. let (r0, found, _, _) = keys i r q in h.known_ids i r0 found;
      one_attestation = h.one_attestation;
    }

applied :
    (id : ℕ) (current : HitStatus) (status : Option HitStatus) (t : Tables)
    → HitsInv t
    → HitsInv (apply_signal id current status t).1
applied id current none t h = h
applied id current (some status) t h =
    update-HitsInv id (set_status status) t (λ r. (refl, refl, refl, refl)) h

feedback_at :
    (id user : ℕ) (signal : Signal) (t : Tables)
    → HitsInv t
    → (current : Option HitStatus) → HitsInv (give_feedback id user signal current t).1
feedback_at id user signal t h none = h
feedback_at id user signal t h (some current) =
    applied id current (status_for signal) (add_feedback id user signal t) (record {
      agrees = h.agrees;
      one_hit = h.one_hit;
      known_ids = h.known_ids;
      one_attestation = h.one_attestation;
    })

pub record_feedback-HitsInv :
    (id user : ℕ) (signal : Signal) (t : Tables)
    → HitsInv t
    → HitsInv (record_feedback id user signal t).1
unfolding record_feedback
record_feedback-HitsInv id user signal t h =
    feedback_at id user signal t h (owned user (lookup id t.infringements))
