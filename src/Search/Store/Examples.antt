-- ===== src/Search/Store/Examples.antt =====
-- The store at concrete inputs: two matches on three pages, one of them reported twice.
use silver_invention.Search.Store.Hits.Rescan.{sizes, rescan_adds_nothing}
use silver_invention.Search.Store.Runs.Completion.{Done, complete_run-Done}
use silver_invention.Search.Store.Hits.Total.{record_infringements_total}
use silver_invention.Search.Store.Hits.Opinions.{
  Judged, opinion, appended, give_all, give_all-Judged,
}
use silver_invention.Search.Store.Steps.Lifecycle.{claim_once, ended_unclaimed}
use silver_invention.Search.Runner.{ClaimedRun, CadenceInput}
use silver_invention.Search.Cadence.{CadencePolicy, CadenceUpdate, next_sunday, update_for}
use silver_invention.Search.Store.Hits.Invariant.{HitsInv}
use silver_invention.Search.Store.Steps.{
  apply_all, Op, no_rows, steps-HitsInv, set_subject, record_hits, complete_it, claim, make_seed,
  make_run, give, committed, add_provider,
}
use silver_invention.Search.Store.Runs.{claim_run, create_seed, create_run, complete_run}
use silver_invention.Search.Store.Hits.{
  ProviderDescriptor, ProviderMatch, Urls, fan_out, record_infringements, write_keys,
  upsert_infringement, write_key, upsert_attestation, merge, add_matches, add_targets,
}
use mathlib.Core.Option.{some-injective}
use silver_invention.Prelude.{
  ℕ, ◌+◌, ◌≡◌, refl, Option, none, some, true, List, [], ◌∷◌, ◌==◌, if◌then◌else◌, length, arith,
  inl, ap, sym, Bool, false,
}
use silver_invention.Prelude.Int.{pos}
use silver_invention.Prelude.Dict.{lookup, insert, update}
use silver_invention.Calibration.Bands.{
  numeric, finite, review, roll_up, band_for_attestation, Decimal, not_finite,
}
use silver_invention.Search.Store.{
  Tables, completed, DateTime, confirmed, Signal, Attestation, Run, Infringement, page_url, not_me,
  uncertain, fresh, unconfirmed, running,
}

abbrev is_finite : Decimal → Bool
is_finite (finite score) = true
is_finite (not_finite n) = false

-- URLs 10 and 11 have one canonical form.
abbrev urls : Urls
urls = record {
  url_hash = λ u. if u == 11 then 1010 else 1000 + u;
  source_domain = λ u. u;
  canonicalise = λ u. if u == 11 then 10 else u;
  score_fits = is_finite;
}

abbrev hive : ProviderDescriptor
hive = record { provider_id = 7; score_kind = numeric; score_version = 1 }

abbrev on_pages : ProviderMatch
on_pages = record {
  image_url = 90;
  page_urls = 10 ∷ 20 ∷ 11 ∷ [];
  provider_score = some (finite (pos 80));
  provider_category = none;
  query_quality = none;
}

abbrev image_only : ProviderMatch
image_only = record on_pages { image_url = 30; page_urls = [] }

abbrev found : List ProviderMatch
found = on_pages ∷ image_only ∷ []

pages : length (fan_out urls found) ≡ 3
unfolding fan_out
pages = refl

abbrev sunday_morning : DateTime
sunday_morning = record { local = 600_000_000_000; aware = true }

abbrev cadence : CadencePolicy
cadence = record {
  standard_days = 7;
  relaxed_days = 14;
  dormant_days = 28;
  new_tier_weeks = 4;
  relaxed_after_empty = 3;
  dormant_after_empty = 6;
  priority_release_after_empty = 2;
}

abbrev retier : CadenceInput
retier = record { found_matches = true; moment = sunday_morning; policy = cadence }

abbrev before : List Op
before =
    add_provider 7
    ∷ set_subject 5 true
    ∷ make_seed sunday_morning 5 1 2
    ∷ make_run 5 0 (7 ∷ []) 44
    ∷ []

abbrev record_op : Op
record_op = record_hits urls 100 1 5 hive [] found

abbrev ops : List Op
ops =
    record_op
    ∷ complete_it 200 1 0 (7 ∷ []) (some retier) true
    ∷ claim 300 1
    ∷ give 2 5 confirmed
    ∷ []

abbrev claimed : ClaimedRun
claimed = record {
  run_id = 1;
  user_ref = 5;
  seed_id = 0;
  seed_url = 44;
  discovery_eligible = true;
  providers_attempted = 7 ∷ [];
}

won : (claim_run 90 1 (apply_all before no_rows)).0 ≡ some claimed
unfolding claim_run apply_all create_seed create_run insert
won = refl

claim_once_example :
    claim_run 300 1 (apply_all ops (claim_run 90 1 (apply_all before no_rows)).1)
    ≡ (none, apply_all ops (claim_run 90 1 (apply_all before no_rows)).1)
claim_once_example = claim_once before ops 90 300 1 claimed won (omega arith) (omega arith)

abbrev before_done : List Op
before_done =
    add_provider 7
    ∷ set_subject 5 true
    ∷ make_seed sunday_morning 5 1 2
    ∷ make_run 5 0 (7 ∷ []) 44
    ∷ claim 90 1
    ∷ record_op
    ∷ complete_it 200 1 0 (7 ∷ []) (some retier) true
    ∷ []

steps-HitsInv_example : HitsInv (apply_all (before_done) no_rows)
steps-HitsInv_example = steps-HitsInv (before_done)

-- The tables with the run claimed, its hits recorded, and the run completed.
abbrev recorded : Tables
recorded = apply_all (before_done) no_rows

abbrev done_run : Run
done_run = record {
  seed_id = 0;
  user_ref = 5;
  seed_url = 44;
  status = completed;
  providers_attempted = 7 ∷ [];
  providers_succeeded = 7 ∷ [];
  matches_found = 3;
  claimed_at = some 90;
  completed_at = some 200;
}

ended : lookup 1 recorded.runs ≡ some done_run
unfolding apply_all create_seed create_run claim_run record_infringements complete_run
    upsert_infringement upsert_attestation roll_up band_for_attestation write_key insert update
    update_for next_sunday
ended = refl

ended_unclaimed_example :
    claim_run 900_000_000_000 1 (apply_all ops recorded) ≡ (none, apply_all ops recorded)
ended_unclaimed_example =
    ended_unclaimed before_done ops 900_000_000_000 1 done_run ended (inl refl)

-- The tables of `before` with its run claimed.
abbrev running_run : Run
running_run = record {
  seed_id = 0;
  user_ref = 5;
  seed_url = 44;
  status = running;
  providers_attempted = 7 ∷ [];
  providers_succeeded = [];
  matches_found = 0;
  claimed_at = some 90;
  completed_at = none;
}

abbrev with_run : Tables
with_run = record no_rows { next_id = 2; providers = 7 ∷ []; runs = (1, running_run) ∷ [] }

record_infringements_total_example :
    (t : Tables) × (record_infringements urls 100 1 5 hive [] found with_run
      ≡ some (length (fan_out urls found), t))
record_infringements_total_example =
    record_infringements_total urls 100 1 5 hive [] found with_run
      ((refl, refl), ((refl, refl), tt)) tt (refl, refl)

abbrev hit : Infringement
hit = record {
  user_ref = 5;
  url_hash = 1010;
  page_url = 10;
  image_url = 90;
  keyed_on = page_url;
  last_seen_at = 100;
  seen_count = 1;
  band = review;
  band_reason = none;
  status = fresh;
  confirm_state = unconfirmed;
}

abbrev attested_hit : Attestation
attested_hit = record {
  infringement_id = 2;
  provider_id = 7;
  score_kind = numeric;
  provider_score = some (finite (pos 80));
  provider_category = none;
  query_quality = none;
  score_version = 1;
  last_confirmed_at = 100;
  confirm_count = 1;
  last_run_id = 1;
  band = review;
  calibration_version = none;
}

abbrev one_hit : Tables
one_hit = record with_run {
  next_id = 3;
  runs = (1, running_run) ∷ (8, running_run) ∷ (9, running_run) ∷ [];
  infringements = (2, hit) ∷ [];
  attestations = attested_hit ∷ [];
}

abbrev only_page : List ProviderMatch
only_page = record on_pages { page_urls = 10 ∷ [] } ∷ []

abbrev again : ℕ → ℕ → Tables → Tables
again now run t = committed (record_infringements urls now run 5 hive [] only_page t) t

rescan_adds_nothing_example :
    (◌≡◌ {A = ℕ} 1 1) × (sizes (again 500 9 (again 300 8 one_hit)) ≡ sizes (again 300 8 one_hit))
unfolding record_infringements fan_out write_keys write_key upsert_infringement upsert_attestation
    merge add_matches add_targets update
rescan_adds_nothing_example =
    rescan_adds_nothing urls 5 hive only_page 300 8 500 9 1 1 [] [] one_hit (again 300 8 one_hit)
      (again 500 9 (again 300 8 one_hit)) refl refl

complete_run-Done_example :
    (u : Option CadenceUpdate) × (t' : Tables) × (complete_run 200 1 0
        (7 ∷ [])
        (some retier)
        true
        one_hit
      ≡ some (u, t'))
    × Done 200 1 0 (7 ∷ []) (some retier) true one_hit t'
complete_run-Done_example =
    complete_run-Done 200 1 0 (7 ∷ []) (some retier) true one_hit (refl, tt)
      (λ c e. ap (λ x. x.moment.aware) (sym (some-injective retier c e)))

abbrev said : List (ℕ × Signal)
said = (5, confirmed) ∷ (6, not_me) ∷ (5, uncertain) ∷ []

give_all-Judged_example :
    Judged 2 hit (opinion 5 said fresh) (appended 2 5 said []) one_hit (give_all 2 said one_hit)
give_all-Judged_example = give_all-Judged 2 said hit one_hit refl
