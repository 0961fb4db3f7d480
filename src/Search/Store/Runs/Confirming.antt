-- ===== src/Search/Store/Runs/Confirming.antt =====
-- Which hits the completion of a run asks to confirm, and how many it counts (complete_run of
-- imageshield/search/store.py).
use silver_invention.Search.Store.Runs.{confirms, touched_by, count_matches, is_unconfirmed}
use silver_invention.Prelude.{
  ℕ, ◌+◌, ◌≡◌, refl, sym, ap, Option, none, some, Bool, true, false, List, [], ◌∷◌, ◌++◌, ◌==◌,
  if◌then◌else◌, Bool-cases, inl, inr, arith, ◌∙◌, ◌&&◌, Any, ◌⊎◌, ◌≢◌, subst,
}
use silver_invention.Prelude.Dict.{Dict, lookup, Unique}
use silver_invention.Search.Store.{
  Tables, Attestation, OutboxMessage, Infringement, run_requested, confirm_requested, unconfirmed,
  ConfirmState, other,
}

-- How many messages ask for the confirmation of a hit.
abbrev pub requests : ℕ → List OutboxMessage → ℕ
requests id [] = 0
requests id (run_requested run ∷ messages) = requests id messages
requests id (confirm_requested hit ∷ messages) = (if hit == id then 1 else 0) + requests id messages

abbrev pub is_open : ℕ → ℕ → List Attestation → Option Infringement → Bool
is_open run id rows none = false
is_open run id rows (some hit) = touched_by run id rows && is_unconfirmed hit.confirm_state

requests-confirms :
    (run id : ℕ) (rows : List Attestation) (hits : Dict Infringement)
    → Unique hits
    → requests id (confirms run rows hits) ≡ (if is_open run id rows (lookup id hits) then 1 else 0)
unfolding confirms
requests-confirms run id rows [] u = refl
requests-confirms run id rows ((j, hit) ∷ hits) (new, u) = elim (Bool-cases (j == id)) [
  | inl same ↦
      let j_is : j ≡ id = ground arith in
      let none_left = ap (λ i. lookup i hits) (sym j_is) ∙ new in
      ground (arith, requests-confirms run id rows hits u)
  | inr apart ↦ ground (arith, requests-confirms run id rows hits u)
]

requests-append :
    (id : ℕ) (xs ys : List OutboxMessage) → requests id (xs ++ ys) ≡ requests id xs + requests id ys
requests-append id [] ys = omega arith
requests-append id (run_requested run ∷ xs) ys = requests-append id xs ys
requests-append id (confirm_requested hit ∷ xs) ys = omega (arith, requests-append id xs ys)

-- The hit stands in the table unconfirmed, and an attestation of it carries the run as its last.
abbrev pub ToConfirm : ℕ → ℕ → Tables → Type 0
ToConfirm run id t =
    (hit : Infringement) × (lookup id t.infringements ≡ some hit)
    × (hit.confirm_state ≡ unconfirmed)
    × Any (λ a. (a.infringement_id ≡ id) × (a.last_run_id ≡ run)) t.attestations

-- The number of the attestations that carry the run as their last.
abbrev pub CountOf : ℕ → List Attestation → ℕ → Type 0
CountOf run [] n = n ≡ 0
CountOf run (a ∷ rows) n =
    ((a.last_run_id ≡ run) × (m : ℕ) × (n ≡ m + 1) × CountOf run rows m)
    ⊎ ((a.last_run_id ≢ run) × CountOf run rows n)

pub count_matches-CountOf :
    (run : ℕ) (rows : List Attestation) → CountOf run rows (count_matches run rows)
count_matches-CountOf run [] = refl
count_matches-CountOf run (a ∷ rows) = elim (Bool-cases (a.last_run_id == run)) [
  | inl same ↦
      inl (ground arith, count_matches run rows, ground arith, count_matches-CountOf run rows)
  | inr other_run ↦
      inr (ground arith, subst (CountOf run rows) (ground arith) (count_matches-CountOf run rows))
]

touched_by-Any :
    (run id : ℕ) (rows : List Attestation)
    → touched_by run id rows ≡ true
    → Any (λ a. (a.infringement_id ≡ id) × (a.last_run_id ≡ run)) rows
touched_by-Any run id [] h = absurd (ground arith)
touched_by-Any run id (a ∷ rows) h =
    elim (Bool-cases (a.infringement_id == id && a.last_run_id == run)) [
      | inl this ↦ inl (ground arith, ground arith)
      | inr past ↦ inr (touched_by-Any run id rows (ground arith))
    ]

Any-touched_by :
    (run id : ℕ) (rows : List Attestation)
    → Any (λ a. (a.infringement_id ≡ id) × (a.last_run_id ≡ run)) rows
    → touched_by run id rows ≡ true
Any-touched_by run id [] h = absurd h
Any-touched_by run id (a ∷ rows) (inl (of_hit, of_run)) = ground arith
Any-touched_by run id (a ∷ rows) (inr later) = ground (arith, Any-touched_by run id rows later)

is_unconfirmed_lem : (c : ConfirmState) → is_unconfirmed c ≡ true → c ≡ unconfirmed
is_unconfirmed_lem unconfirmed h = refl
is_unconfirmed_lem (other state) h = absurd (ground arith)

is_open-ToConfirm :
    (run id : ℕ) (t : Tables) (found : Option Infringement)
    → lookup id t.infringements ≡ found
    → is_open run id t.attestations found ≡ true
    → ToConfirm run id t
is_open-ToConfirm run id t none e h = absurd (ground arith)
is_open-ToConfirm run id t (some hit) e h = (
  hit,
  e,
  is_unconfirmed_lem hit.confirm_state (ground arith),
  touched_by-Any run id t.attestations (ground arith),
)

pub ToConfirm-is_open :
    (run id : ℕ) (t : Tables)
    → ToConfirm run id t
    → is_open run id t.attestations (lookup id t.infringements) ≡ true
ToConfirm-is_open run id t (hit, e, state, touched) =
    let by = Any-touched_by run id t.attestations touched in rw (e, by, state) refl

pub asked_lem :
    (id hit : ℕ) (confirm : Bool) (t : Tables)
    → Unique t.infringements
    → requests hit
        (if confirm then confirms id t.attestations t.infringements ++ t.outbox else t.outbox)
      ≡ requests hit t.outbox
        + (if confirm && is_open id hit t.attestations (lookup hit t.infringements) then 1 else 0)
asked_lem id hit false t unique = omega arith
asked_lem id hit true t unique = omega (
  arith,
  requests-append hit (confirms id t.attestations t.infringements) t.outbox,
  requests-confirms id hit t.attestations t.infringements unique,
)

pub closed_or_off :
    (id hit : ℕ) (confirm : Bool) (t : Tables)
    → (confirm ≡ false) ⊎ ¬ (ToConfirm id hit t)
    → (confirm && is_open id hit t.attestations (lookup hit t.infringements)) ≡ false
closed_or_off id hit confirm t (inl off) = ground arith
closed_or_off id hit confirm t (inr shut) =
    elim (Bool-cases (is_open id hit t.attestations (lookup hit t.infringements))) [
      | inl e ↦ absurd (shut (is_open-ToConfirm id hit t (lookup hit t.infringements) refl e))
      | inr closed ↦ ground arith
    ]
