-- ===== src/Confirm/Worker/Known.antt =====
-- What the stores know during a message (imageshield/confirm/worker.py): a decided hash is one of a hit
-- of the table, and the steps before a write keep which providers have a row.
use silver_invention.Search.Runner.Log.{decide-Keeps}
use mathlib.Core.Option.{none-ne-some, some-injective}
use silver_invention.Prelude.{
  ℕ, ◌≡◌, refl, sym, subst, ◌⊎◌, inl, inr, Option, none, some, Bool, true, false, List, [], ◌∷◌,
  if◌then◌else◌, arith, Bool-cases, ◌==◌, ◌&&◌, Any, ltb, Option-cases, ◌∙◌,
}
use silver_invention.Prelude.Dict.{Dict, lookup}
use silver_invention.Prelude.Int.{ℤ}
use silver_invention.Confirm.Triage.Duplicates.{FirstClosest, Chosen}
use silver_invention.Confirm.Store.{Hit, is_some, is_final}
use silver_invention.Confirm.Store.Writes.{decided_phashes, with_phash, insert_by_id}
use silver_invention.Confirm.Worker.{SkipReason, runtimes, record_skip, Detail, decide}
use silver_invention.Providers.Models.{ProviderResult, ProviderRuntime}
use silver_invention.Providers.Store.{
  runtimes, record_skip, Settings, World, record_outcome, if_row,
}

-- A hit of this id is in the list.
abbrev Has : ℕ → List (ℕ × ℕ) → Type 0
Has id hits = Any (λ hit. hit.0 ≡ id) hits

FirstClosest-Has :
    (new_phash id d : ℕ) (hits : List (ℕ × ℕ)) → FirstClosest new_phash id d hits → Has id hits
unfolding FirstClosest
FirstClosest-Has new_phash id d [] c = c
FirstClosest-Has new_phash id d ((i, phash) ∷ hits) (inl (e, _, _)) = inl e
FirstClosest-Has new_phash id d ((i, phash) ∷ hits) (inr (_, c)) =
    inr (FirstClosest-Has new_phash id d hits c)

insert_by_id-Has :
    (id : ℕ) (hit : ℕ × ℕ) (hits : List (ℕ × ℕ))
    → Has id (insert_by_id hit hits)
    → (hit.0 ≡ id) ⊎ Has id hits
unfolding insert_by_id
insert_by_id-Has id hit [] c = c
insert_by_id-Has id hit (first ∷ hits) c =
    placed (ltb first.0 hit.0) (λ later. insert_by_id-Has id hit hits later) c
  where
    placed :
        (b : Bool)
        → (Has id (insert_by_id hit hits) → (hit.0 ≡ id) ⊎ Has id hits)
        → Has id (if b then first ∷ insert_by_id hit hits else hit ∷ first ∷ hits)
        → (hit.0 ≡ id) ⊎ Has id (first ∷ hits)
    placed false among (inl e) = inl e
    placed false among (inr later) = inr later
    placed true among (inl e) = inr (inl e)
    placed true among (inr later) = elim (among later) [ inl e ↦ inl e | inr rest ↦ inr (inr rest) ]

listed :
    (id j : ℕ) (b : Bool) (phash : Option ℕ) (rest : List (ℕ × ℕ))
    → Has id (if b then with_phash j phash rest else rest)
    → (j ≡ id) ⊎ Has id rest
listed id j true none rest c = inr c
listed id j true (some phash) rest c = insert_by_id-Has id (j, phash) rest c
listed id j false phash rest c = inr c

is_some-behind :
    (id j : ℕ) (h : Hit) (hits : Dict Hit)
    → is_some (lookup id hits) ≡ true
    → is_some (lookup id ((j, h) ∷ hits)) ≡ true
is_some-behind id j h hits e = elim (Bool-cases (j == id)) [
  | inl same ↦ rw same refl
  | inr other ↦ rw other e
]

-- A decided hash is one of a hit of the table.
decided-known :
    (id user : ℕ) (hits : Dict Hit)
    → Has id (decided_phashes user hits)
    → is_some (lookup id hits) ≡ true
unfolding decided_phashes
decided-known id user [] c = absurd c
decided-known id user ((j, h) ∷ hits) c =
    elim (listed id j (h.user_ref == user && is_final h.confirm_state) h.phash
      (decided_phashes user hits) c) [
        | inl e ↦ let same : j == id ≡ true = ground arith in rw same refl
        | inr rest ↦ is_some-behind id j h hits (decided-known id user hits rest)
      ]

pub Chosen-known :
    (new_phash limit user : ℕ) (hits : Dict Hit) (o : Option ℕ) (source : ℕ)
    → Chosen new_phash limit (decided_phashes user hits) o
    → o ≡ some source
    → is_some (lookup source hits) ≡ true
Chosen-known new_phash limit user hits none source c e = absurd (none-ne-some source e)
Chosen-known new_phash limit user hits (some id) source (d, _, c) e =
    let is : id ≡ source = some-injective _ _ e in
    subst (λ i. is_some (lookup i hits) ≡ true) is
      (decided-known id user hits (FirstClosest-Has new_phash id d (decided_phashes user hits) c))

-- What the run reads and decides keeps which providers have a row.
pub decide-no_row :
    (s : Settings) (t day pid q : ℕ) (o : Option ProviderRuntime) (w : World)
    → lookup q (decide s t day pid o w).1.providers ≡ none
    → lookup q w.providers ≡ none
decide-no_row s t day pid q o w e = elim (Option-cases (lookup q w.providers)) [
  | inl missing ↦ missing
  | inr (r, found) ↦ absurd (decide-Keeps s t day pid o w q (λ n. none-ne-some r (sym n ∙ found)) e)
]

pub runtimes-no_row :
    (s : Settings) (t q : ℕ) (w : World)
    → lookup q (runtimes s t w).1.providers ≡ none
    → lookup q w.providers ≡ none
unfolding runtimes
runtimes-no_row s t q w e = ground arith

pub outcome-no_row :
    (s : Settings) (t : ℕ) (run intel : Option ℕ) (result : ProviderResult) (cost : Option ℤ)
    (day : ℕ) (w : World)
    → record_outcome s t run intel result cost day w ≡ none
    → lookup result.provider_id w.providers ≡ none
unfolding record_outcome
outcome-no_row s t run intel result cost day w e = ground arith

if_row-none : (o : Option ProviderRuntime) (w : World) → if_row o w ≡ none → o ≡ none
if_row-none none w e = refl
if_row-none (some r) w e = absurd (none-ne-some w (sym e))

pub skip-no_row :
    (run intel : Option ℕ) (pid : ℕ) (reason : SkipReason) (detail : Detail) (w : World)
    → record_skip run intel pid reason detail w ≡ none
    → lookup pid w.providers ≡ none
unfolding record_skip
skip-no_row run intel pid reason detail w e = if_row-none (lookup pid w.providers) _ e
