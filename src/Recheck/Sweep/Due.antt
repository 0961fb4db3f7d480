-- ===== src/Recheck/Sweep/Due.antt =====
-- What the due query returns (_DUE_SQL of recheck/store.py).
use silver_invention.Prelude.{
  ℕ, zero, suc, ◌≡◌, refl, Option, none, some, true, List, [], ◌∷◌, take, arith, Bool-cases, inl,
  inr, All,
}
use silver_invention.Prelude.Dict.{Dict, lookup, Unique, lookup-behind}
use silver_invention.Recheck.Probe.{DueInfringement}
use silver_invention.Recheck.Sweep.{
  Infringement, Tables, Queued, is_due, joined, due_rows, insert_queued, sort_queued, items_of,
  due_batch, comes_before,
}

-- What an item says of a row: if it has the row's id, the row is alive and has the item's page.
abbrev pub Fits : ℕ → Option Infringement → DueInfringement → Type 0
Fits id o item =
    item.infringement_id ≡ id
    → (row : Infringement) × (o ≡ some row)
      × (row.url_alive ≡ true)
      × (item.page_url ≡ row.page_url)

abbrev QueuedFits : ℕ → Option Infringement → Queued → Type 0
QueuedFits id o q = Fits id o q.1

-- A row in front of the table hides no other.
later_rows :
    (id j : ℕ) (row : Infringement) (rows : Dict Infringement) (qs : List Queued)
    → lookup j rows ≡ none
    → All (QueuedFits id (lookup id rows)) qs
    → All (QueuedFits id (lookup id ((j, row) ∷ rows))) qs
later_rows id j row rows [] new fits = tt
later_rows id j row rows (q ∷ qs) new (fit, fits) = (
  λ e.
      let (found, found_at, live, page) = fit e in
      (found, lookup-behind id j found row rows new found_at, live, page),
  later_rows id j row rows qs new fits,
)

joined-Fits :
    (id j : ℕ) (row : Infringement) (domain : Option ℕ) (rows : Dict Infringement)
    (qs : List Queued)
    → row.url_alive ≡ true
    → All (QueuedFits id (lookup id ((j, row) ∷ rows))) qs
    → All (QueuedFits id (lookup id ((j, row) ∷ rows))) (joined j row domain qs)
joined-Fits id j row none rows qs live fits = fits
joined-Fits id j row (some domain) rows qs live fits =
    ((λ e. (row, ground arith, live, refl)), fits)

due_rows-Fits :
    (id days t : ℕ) (urls : Dict ℕ) (rows : Dict Infringement)
    → Unique rows
    → All (QueuedFits id (lookup id rows)) (due_rows days t urls rows)
unfolding due_rows
due_rows-Fits id days t urls [] u = tt
due_rows-Fits id days t urls ((j, row) ∷ rows) (new, u) =
    let rest = later_rows id j row rows _ new (due_rows-Fits id days t urls rows u) in
    elim (Bool-cases (is_due days t row)) [
      | inl now_due ↦ rw now_due (
          joined-Fits id j row (lookup row.url_hash urls) rows (due_rows days t urls rows)
            (ground arith) rest)
      | inr not_due ↦ rw not_due rest
    ]

insert-All :
    (P : Queued → Type 0) (q : Queued) (qs : List Queued)
    → P q
    → All P qs
    → All P (insert_queued q qs)
unfolding insert_queued
insert-All P q [] p ps = (p, tt)
insert-All P q (r ∷ qs) p (pr, ps) = elim (Bool-cases (comes_before q r)) [
  | inl first ↦ rw first (p, (pr, ps))
  | inr later ↦ rw later (pr, insert-All P q qs p ps)
]

sort-All : (P : Queued → Type 0) (qs : List Queued) → All P qs → All P (sort_queued qs)
unfolding sort_queued
sort-All P [] ps = tt
sort-All P (q ∷ qs) (p, ps) = insert-All P q (sort_queued qs) p (sort-All P qs ps)

take-All : (P : Queued → Type 0) (n : ℕ) (qs : List Queued) → All P qs → All P (take n qs)
take-All P zero qs ps = tt
take-All P (suc n) [] ps = tt
take-All P (suc n) (q ∷ qs) (p, ps) = (p, take-All P n qs ps)

items-Fits :
    (id : ℕ) (o : Option Infringement) (qs : List Queued)
    → All (QueuedFits id o) qs
    → All (Fits id o) (items_of qs)
unfolding items_of
items-Fits id o [] fits = tt
items-Fits id o ((at, item) ∷ qs) (fit, fits) = (fit, items-Fits id o qs fits)

-- A batch holds rows of the table that are alive.
pub due_batch-Fits :
    (days limit t id : ℕ) (tables : Tables)
    → Unique tables.infringements
    → All (Fits id (lookup id tables.infringements)) (due_batch days limit t tables)
unfolding due_batch
due_batch-Fits days limit t id tables u = items-Fits id _ _ (
    take-All _ limit _
      (sort-All _ _ (due_rows-Fits id days t tables.content_urls tables.infringements u)))
