-- ===== src/Recheck/Sweep.antt =====
-- One pass of the recheck loop (imageshield/recheck/loop.py) over its tables (recheck/store.py). Times
-- of the database are whole seconds; `n` numbers the items of a batch, so that the clocks and the web
-- may change between two.
use silver_invention.Prelude.{
  ℕ, ◌+◌, ◌*◌, Option, none, some, Bool, true, false, not, ◌&&◌, ◌||◌, List, [], ◌∷◌, take,
  if◌then◌else◌, ltb, ◌==◌,
}
use silver_invention.Prelude.Dict.{Dict, lookup, update}
use silver_invention.Recheck.Policy.{Verdict, alive, dead, unchanged}
use silver_invention.Recheck.Ssrf.{Web}
use silver_invention.Recheck.Probe.{DueInfringement, CheckResult, check}
use silver_invention.Recheck.Pacer.{DomainPacer, wait}
pub mod Due
pub mod Verdicts

-- A row of `infringements`; its key is the infringement id.
pub record Infringement : Type 0 where
  pub page_url : ℕ
  pub url_hash : ℕ
  pub url_alive : Bool
  pub last_checked_at : Option ℕ
  pub last_attempted_at : Option ℕ

-- The two tables; `content_urls` has the source domain at a URL hash, where 0 is the empty text.
pub record Tables : Type 0 where
  pub infringements : Dict Infringement
  pub content_urls : Dict ℕ

-- The WHERE clause of _DUE_SQL at time `t`.
abbrev pub is_stale : Option ℕ → ℕ → ℕ → Bool
is_stale none days t = true
is_stale (some checked) days t = ltb (checked + days * 86_400) t

abbrev pub is_due : ℕ → ℕ → Infringement → Bool
is_due days t row = row.url_alive && is_stale row.last_checked_at days t

-- A due row with its attempt time, for the order, and what the query returns of it.
abbrev pub Queued : Type 0
Queued = Option ℕ × DueInfringement

abbrev pub joined : ℕ → Infringement → Option ℕ → List Queued → List Queued
joined id row none rest = rest
joined id row (some domain) rest =
    (
      row.last_attempted_at,
      record { infringement_id = id; page_url = row.page_url; source_domain = domain },
    )
    ∷ rest

pub due_rows : ℕ → ℕ → Dict ℕ → Dict Infringement → List Queued
due_rows days t urls [] = []
due_rows days t urls ((id, row) ∷ rows) =
    let rest = due_rows days t urls rows in
    if is_due days t row then joined id row (lookup row.url_hash urls) rest else rest

-- ORDER BY last_attempted_at ASC NULLS FIRST, infringement_id
abbrev pub time_before : Option ℕ → Option ℕ → Bool → Bool
time_before none none tie = tie
time_before none (some b) tie = true
time_before (some a) none tie = false
time_before (some a) (some b) tie = ltb a b || (a == b && tie)

abbrev pub comes_before : Queued → Queued → Bool
comes_before a b = time_before a.0 b.0 (ltb a.1.infringement_id b.1.infringement_id)

pub insert_queued : Queued → List Queued → List Queued
insert_queued a [] = a ∷ []
insert_queued a (b ∷ rest) =
    let behind = insert_queued a rest in if comes_before a b then a ∷ (b ∷ rest) else b ∷ behind

pub sort_queued : List Queued → List Queued
unfolding insert_queued
sort_queued [] = []
sort_queued (a ∷ rest) = insert_queued a (sort_queued rest)

pub items_of : List Queued → List DueInfringement
items_of [] = []
items_of ((at, item) ∷ rest) = item ∷ items_of rest

unfoldable pub due_batch : ℕ → ℕ → ℕ → Tables → List DueInfringement
unfolding due_rows sort_queued items_of
due_batch days limit t tables =
    items_of (take limit (sort_queued (due_rows days t tables.content_urls tables.infringements)))

unfoldable pub allowed_domains : Dict ℕ → List ℕ
allowed_domains [] = []
allowed_domains ((hash, domain) ∷ urls) =
    let rest = allowed_domains urls in if domain == 0 then rest else domain ∷ rest

-- _MARK_ALIVE_SQL, _MARK_DEAD_SQL and _ATTEMPTED_SQL at time `t`, on a row.
abbrev pub mark : Verdict → ℕ → Infringement → Infringement
mark alive t row = record row { last_checked_at = some t; last_attempted_at = some t }
mark dead t row = record row {
  url_alive = false;
  last_checked_at = some t;
  last_attempted_at = some t;
}
mark unchanged t row = record row { last_attempted_at = some t }

unfoldable pub record_verdict : ℕ → Verdict → ℕ → Dict Infringement → Dict Infringement
record_verdict id verdict t rows = update id (mark verdict t) rows

-- What the items of a batch meet: the pacer's clock, the database's clock and the web.
pub record Times : Type 0 where
  pub monotonic : ℕ → ℕ
  pub database : ℕ → ℕ
  pub web : ℕ → Web

pub record Pass : Type 0 where
  pub rows : Dict Infringement
  pub pacer : DomainPacer
  -- `none` where the pass raises
  pub results : Option (List CheckResult)

abbrev pub with_result : CheckResult → Pass → Pass
with_result result pass = record pass {
  results = elim pass.results [ none ↦ none | some results ↦ some (result ∷ results) ];
}

-- The `for` loop, from the item numbered `n`. A check that raises ends the pass: nothing is recorded for
-- its item, and the results are lost.
pub sweep : Times → ℕ → List ℕ → ℕ → List DueInfringement → Dict Infringement → DomainPacer → Pass
sweep times max_redirects allowed n [] rows pacer = record {
  rows = rows;
  pacer = pacer;
  results = some [];
}
sweep times max_redirects allowed n (item ∷ items) rows pacer =
    let pacer' = (wait pacer item.source_domain (times.monotonic n)).1 in
    elim (check (times.web n) max_redirects item allowed).0 [
      | none ↦ record { rows = rows; pacer = pacer'; results = none }
      | some result ↦ with_result result (
          sweep times max_redirects allowed (n + 1) items
            (record_verdict result.infringement_id result.verdict (times.database n) rows) pacer')
    ]

unfoldable pub run_once : Times → ℕ → ℕ → ℕ → ℕ → Tables → DomainPacer → Pass
unfolding sweep
run_once times max_redirects interval_days batch_size t tables pacer =
    sweep times max_redirects (allowed_domains tables.content_urls) 0
      (due_batch interval_days batch_size t tables) tables.infringements pacer
