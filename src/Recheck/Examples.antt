-- ===== src/Recheck/Examples.antt =====
-- The prober and the pacer at concrete inputs: page 1 redirects to page 2, which is gone.
use silver_invention.Recheck.Sweep.Verdicts.{Swept, run_once-Swept}
use silver_invention.Prelude.Dict.{lookup}
use silver_invention.Recheck.Sweep.{
  due_batch, Tables, Times, Infringement, run_once, allowed_domains,
}
use silver_invention.Prelude.{
  ℕ, ◌≡◌, refl, none, some, true, List, [], ◌∷◌, if◌then◌else◌, ◌==◌, false, ◌+◌,
}
use silver_invention.Recheck.Ssrf.{resolved, replied, address, Response, Web}
use silver_invention.Recheck.Probe.{DueInfringement, check}
use silver_invention.Recheck.Probe.Guards.{Checked, check-Checked}
use silver_invention.Recheck.Pacer.Spacing.{releases, Spaced, releases-Spaced}

abbrev moved : Response
moved = record { status_code = 302; location = some 2 }

abbrev gone : Response
gone = record { status_code = 410; location = none }

abbrev web : Web
web = record {
  split = λ url. some (record { is_http = true; hostname = some 9 });
  join = λ url target. some target;
  resolve = λ hop host. resolved (address true ∷ []);
  head = λ hop url. replied (if url == 1 then moved else gone);
}

abbrev item : DueInfringement
item = record { infringement_id = 70; page_url = 1; source_domain = 9 }

check-Checked_example : Checked web (9 ∷ []) 4 (check web 3 item (9 ∷ []))
check-Checked_example = check-Checked web 3 item (9 ∷ [])

abbrev calls : List (ℕ × ℕ)
calls = (9, 100) ∷ (8, 101) ∷ (9, 102) ∷ (9, 140) ∷ []

releases-Spaced_example : Spaced 30 (releases (record { min_interval = 30; last_at = [] }) calls)
releases-Spaced_example = releases-Spaced (record { min_interval = 30; last_at = [] }) calls

-- A table with the row of `item`, due, and a row that is dead.
abbrev online : Infringement
online = record {
  page_url = 1;
  url_hash = 500;
  url_alive = true;
  last_checked_at = none;
  last_attempted_at = none;
}

abbrev tables : Tables
tables = record {
  infringements = (70, online) ∷ (71, record online { url_alive = false }) ∷ [];
  content_urls = (500, 9) ∷ [];
}

abbrev times : Times
times = record { monotonic = λ n. 100 + n; database = λ n. 9000 + n; web = λ n. web }

run_once-Swept_example :
    let out = run_once times 3 7 50 8000 tables (record { min_interval = 30; last_at = [] }) in
    (new : Infringement) × (lookup 70 out.rows ≡ some new)
    × Swept times 3 (allowed_domains tables.content_urls) (due_batch 7 50 8000 tables) 70 online new
run_once-Swept_example =
    run_once-Swept times 3 7 50 8000 70 tables (record { min_interval = 30; last_at = [] }) online
      (refl, (refl, tt)) refl
