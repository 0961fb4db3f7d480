-- ===== src/Recheck/Sweep/Verdicts.antt =====
-- What a pass of the recheck loop does to the rows (recheck/loop.py, recheck/store.py).
use silver_invention.Recheck.Sweep.Due.{due_batch-Fits, Fits}
use silver_invention.Recheck.Probe.Identity.{check_id}
use mathlib.Core.Option.{some-injective, Option}
use silver_invention.Recheck.Pacer.{wait}
use silver_invention.Prelude.{
  none, Option-cases, Option, ◌∙◌, ap, ==→≡, ℕ, ◌+◌, ◌≡◌, ◌≢◌, refl, sym, ◌⊎◌, some, true, false,
  List, [], ◌∷◌, if◌then◌else◌, ◌==◌, arith, Bool-cases, inl, inr, All, Option-cases,
}
use silver_invention.Prelude.Dict.{Dict, lookup, lookup-update, Unique}
use silver_invention.Recheck.Policy.{Verdict, alive, dead, unchanged}
use silver_invention.Recheck.Probe.{DueInfringement, check, CheckResult}
use silver_invention.Recheck.Sweep.{
  Infringement, mark, record_verdict, Times, sweep, DomainPacer, run_once, Tables, allowed_domains,
  due_batch,
}

recorded :
    (k j id t : ℕ) (v : Verdict) (rows : Dict Infringement) (cur : Infringement)
    → k ≡ j
    → lookup id rows ≡ some cur
    → lookup id (record_verdict k v t rows) ≡ some (if j == id then mark v t cur else cur)
unfolding record_verdict
recorded k j id t v rows cur same e = ground (arith, lookup-update k id (mark v t) rows)

-- The item is the `n`-th of the list, counted from `first`.
abbrev pub IsAt : ℕ → ℕ → DueInfringement → List DueInfringement → Type 0
IsAt first n item [] = ⊥
IsAt first n item (i ∷ items) = ((n ≡ first) × (item ≡ i)) ⊎ IsAt (first + 1) n item items

-- The result, where there is one, has the verdict.
abbrev pub Says : Verdict → Option CheckResult → Type 0
Says verdict none = ⊥
Says verdict (some result) = result.verdict ≡ verdict

module _ (times : Times) (max_redirects : ℕ) (allowed : List ℕ) (batch : List DueInfringement) where
  -- The probe of an item of the batch, with the row's id and page, ended with the verdict.
  pub record ProbedAs (id page : ℕ) (verdict : Verdict) : Type 0 where
    pub n : ℕ
    pub item : DueInfringement
    pub in_batch : IsAt 0 n item batch
    pub same_id : item.infringement_id ≡ id
    pub same_page : item.page_url ≡ page
    pub answer : Says verdict (check (times.web n) max_redirects item allowed).0

  -- How a row may differ after a pass.
  pub record Swept (id : ℕ) (old new : Infringement) : Type 0 where
    pub same_page : new.page_url ≡ old.page_url
    pub same_hash : new.url_hash ≡ old.url_hash
    pub dead_kept : old.url_alive ≡ false → new ≡ old
    pub died : old.url_alive ≡ true → new.url_alive ≡ false → ProbedAs id old.page_url dead
    pub learned :
        new.last_checked_at ≢ old.last_checked_at
        → ProbedAs id old.page_url alive ⊎ ProbedAs id old.page_url dead

  marked :
      (id t : ℕ) (v : Verdict) (old cur : Infringement)
      → old.url_alive ≡ true
      → ProbedAs id old.page_url v
      → Swept id old cur
      → Swept id old (mark v t cur)
  marked id t alive old cur live probed s = record {
    same_page = s.same_page;
    same_hash = s.same_hash;
    dead_kept = λ e. absurd (ground arith);
    died = s.died;
    learned = λ h. inl probed;
  }
  marked id t dead old cur live probed s = record {
    same_page = s.same_page;
    same_hash = s.same_hash;
    dead_kept = λ e. absurd (ground arith);
    died = λ h e. probed;
    learned = λ h. inr probed;
  }
  marked id t unchanged old cur live probed s = record {
    same_page = s.same_page;
    same_hash = s.same_hash;
    dead_kept = λ e. absurd (ground arith);
    died = s.died;
    learned = s.learned;
  }

  sweep-Swept :
      (n id : ℕ) (items : List DueInfringement) (rows : Dict Infringement) (pacer : DomainPacer)
      (old cur : Infringement)
      → ((m : ℕ) (item : DueInfringement) → IsAt n m item items → IsAt 0 m item batch)
      → All (Fits id (some old)) items
      → lookup id rows ≡ some cur
      → Swept id old cur
      → let out = sweep times max_redirects allowed n items rows pacer in
        (new : Infringement) × (lookup id out.rows ≡ some new) × Swept id old new
  unfolding sweep
  sweep-Swept n id [] rows pacer old cur within fits e s = (cur, e, s)
  sweep-Swept n id (item ∷ items) rows pacer old cur within (fit, fits) e s =
      let pacer' = (wait pacer item.source_domain (times.monotonic n)).1 in
      elim (Option-cases (check (times.web n) max_redirects item allowed).0) [
        | inl failed ↦ rw (sweep, failed) (cur, e, s)
        | inr (result, returned) ↦
            let rows' =
              record_verdict result.infringement_id result.verdict (times.database n) rows in
            let same_id : result.infringement_id ≡ item.infringement_id =
              rw returned at (check_id (times.web n) max_redirects item allowed) in
            let recorded_now =
              recorded result.infringement_id item.infringement_id id (times.database n)
                result.verdict rows cur same_id e in
            let later : (m : ℕ) (i : DueInfringement) → IsAt (n + 1) m i items → IsAt 0 m i batch =
              λ m i h. within m i (inr h) in
            elim (Bool-cases (item.infringement_id == id)) [
              | inl same ↦
                  let (row, is_old, live, page) = fit (==→≡ item.infringement_id id same) in
                  let is_row : old ≡ row = some-injective _ _ is_old in
                  let probed : ProbedAs id old.page_url result.verdict = record {
                    n = n;
                    item = item;
                    in_batch = within n item (inl (refl, refl));
                    same_id = ==→≡ item.infringement_id id same;
                    same_page = page ∙ ap (λ r. r.page_url) (sym is_row);
                    answer = rw returned refl;
                  } in
                  rw (sweep, returned)
                    (sweep-Swept (n + 1) id items rows' pacer' old
                      (mark result.verdict (times.database n) cur) later fits
                      (rw same at recorded_now)
                      (marked id (times.database n) result.verdict old cur
                        (ap (λ r. r.url_alive) is_row ∙ live) probed s))
              | inr other ↦
                  rw (sweep, returned)
                    (sweep-Swept (n + 1) id items rows' pacer' old cur later fits
                      (rw other at recorded_now) s)
            ]
      ]

-- A pass keeps every row, with its page, whether it reaches the end of its batch or a check raises and
-- ends it before. A row that was dead is not touched. A row dies only if the probe of an item of this
-- pass's batch, with the row's id and page and at the item's place in the batch, said `dead`; and its
-- last check moves only if such a probe said `alive` or `dead`: a probe that learns nothing moves only
-- the last attempt. The ids of the table are unique.
pub run_once-Swept :
    (times : Times) (max_redirects interval_days batch_size t id : ℕ) (tables : Tables)
    (pacer : DomainPacer) (old : Infringement)
    → Unique tables.infringements
    → lookup id tables.infringements ≡ some old
    → let out = run_once times max_redirects interval_days batch_size t tables pacer in
      (new : Infringement) × (lookup id out.rows ≡ some new)
      × Swept times max_redirects
          (allowed_domains tables.content_urls)
          (due_batch interval_days batch_size t tables)
          id
          old
          new
unfolding run_once
run_once-Swept times max_redirects interval_days batch_size t id tables pacer old u e =
    sweep-Swept times max_redirects (allowed_domains tables.content_urls)
      (due_batch interval_days batch_size t tables) 0 id
      (due_batch interval_days batch_size t tables) tables.infringements pacer old old
      (λ m item h. h) (rw e at (due_batch-Fits interval_days batch_size t id tables u)) e
      (record {
        same_page = refl;
        same_hash = refl;
        dead_kept = λ h. refl;
        died = λ h h'. absurd (ground arith);
        learned = λ h. absurd (h refl);
      })
