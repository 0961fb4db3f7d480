-- ===== src/Search/Store/Runs.antt =====
-- Seeds and runs (create_seed, create_run, claim_run, refuse_run and complete_run of
-- imageshield/search/store.py). Each is one transaction: one step.
use silver_invention.Prelude.{
  ℕ, ◌+◌, ◌-◌, ◌/◌, Option, none, some, Bool, true, false, ◌&&◌, List, [], ◌∷◌, ◌++◌, if◌then◌else◌,
  ◌==◌, ltb,
}
use silver_invention.Prelude.Dict.{Dict, lookup, update}
use silver_invention.Search.Cadence.{DateTime, new, CadenceUpdate, update_for, day_us}
use silver_invention.Search.Runner.{ClaimedRun, CadenceInput}
use silver_invention.Search.Store.{
  Tables, Seed, Run, RunStatus, queued, running, completed, refused, Attestation, Infringement,
  ConfirmState, unconfirmed, other, OutboxMessage, run_requested, confirm_requested,
}
pub mod Confirming
pub mod Completion

-- `none` is UnknownSubject: the foreign key has no subject.
unfoldable pub create_seed : DateTime → ℕ → ℕ → ℕ → Tables → Option (ℕ × Tables)
create_seed now user kind object t = elim (lookup user t.subjects) [
  | none ↦ none
  | some _ ↦ some (
    t.next_id,
    record t {
      next_id = t.next_id + 1;
      seeds =
          (
            t.next_id,
            record {
              user_ref = user;
              seed_kind = kind;
              source_object_ref = object;
              created_at = now;
              scan_tier = new;
              consecutive_empty_scans = 0;
              next_scan_after = none;
              tier_next_scan_after = none;
            },
          )
          ∷ t.seeds;
    },
  )
]

abbrev pub new_run : ℕ → ℕ → List ℕ → ℕ → Run
new_run user seed providers url = record {
  seed_id = seed;
  user_ref = user;
  seed_url = url;
  status = queued;
  providers_attempted = providers;
  providers_succeeded = [];
  matches_found = 0;
  claimed_at = none;
  completed_at = none;
}

-- `none` where the foreign key has no seed.
unfoldable pub create_run : ℕ → ℕ → List ℕ → ℕ → Tables → Option (ℕ × Tables)
create_run user seed providers url t = elim (lookup seed t.seeds) [
  | none ↦ none
  | some _ ↦ some (
    t.next_id,
    record t {
      next_id = t.next_id + 1;
      runs = (t.next_id, new_run user seed providers url) ∷ t.runs;
      outbox = run_requested t.next_id ∷ t.outbox;
    },
  )
]

-- _STALE_CLAIM_MINUTES, in microseconds
abbrev pub stale_claim : ℕ
stale_claim = 900_000_000

-- `r.claimed_at < now() - interval`
abbrev pub is_stale : ℕ → Option ℕ → Bool
is_stale now none = false
is_stale now (some at) = ltb (at + stale_claim) now

abbrev pub claimable_in : ℕ → RunStatus → Option ℕ → Bool
claimable_in now queued at = true
claimable_in now running at = is_stale now at
claimable_in now completed at = false
claimable_in now refused at = false

unfoldable pub can_claim : ℕ → Run → Bool
can_claim now r = claimable_in now r.status r.claimed_at

abbrev pub start : ℕ → Run → Run
start now r = record r { status = running; claimed_at = some now }

-- `COALESCE(sub.discovery_eligible, false)`
abbrev pub or_false : Option Bool → Bool
or_false none = false
or_false (some b) = b

abbrev pub claimed_run : ℕ → Run → Seed → Tables → ClaimedRun
claimed_run id r seed t = record {
  run_id = id;
  user_ref = r.user_ref;
  seed_id = r.seed_id;
  seed_url = r.seed_url;
  discovery_eligible = or_false (lookup seed.user_ref t.subjects);
  providers_attempted = r.providers_attempted;
}

abbrev pub claim_found : ℕ → ℕ → Option Run → Tables → Option ClaimedRun × Tables
claim_found now id none t = (none, t)
claim_found now id (some r) t = elim (lookup r.seed_id t.seeds) [
  | none ↦ (none, t)
  | some seed ↦
      if can_claim now r
      then (some (claimed_run id r seed t), record t { runs = update id (start now) t.runs })
      else (none, t)
]

-- _CLAIM_RUN_SQL
unfoldable pub claim_run : ℕ → ℕ → Tables → Option ClaimedRun × Tables
unfolding can_claim
claim_run now id t = claim_found now id (lookup id t.runs) t

abbrev pub refuse : ℕ → Run → Run
refuse now r = record r { status = refused; completed_at = some now }

unfoldable pub refuse_run : ℕ → ℕ → ℕ → ℕ → Tables → Tables
refuse_run now id user reason t = record t {
  runs = update id (refuse now) t.runs;
  audit_log = (record { subject_ref = user; run_id = id; reason = reason }) ∷ t.audit_log;
}

-- `SELECT count(*) FROM attestations WHERE last_run_id = run`
abbrev pub count_matches : ℕ → List Attestation → ℕ
count_matches run [] = 0
count_matches run (a ∷ rows) = (if a.last_run_id == run then 1 else 0) + count_matches run rows

abbrev pub complete : ℕ → List ℕ → ℕ → Run → Run
complete now succeeded matches r = record r {
  status = completed;
  providers_succeeded = succeeded;
  matches_found = matches;
  completed_at = some now;
}

-- `(retier.now - created_at).days` of a seed that is not from the future.
abbrev pub age_days : DateTime → DateTime → ℕ
age_days now created = (now.local - created.local) / day_us

abbrev pub retiered : CadenceInput → Seed → Option CadenceUpdate
retiered retier seed =
    update_for seed.scan_tier seed.consecutive_empty_scans retier.found_matches
      (age_days retier.moment seed.created_at) retier.moment retier.policy

-- `some none` where there is nothing to update; `none` where `update_for` raises.
abbrev pub on_seed : CadenceInput → Option Seed → Option (Option CadenceUpdate)
on_seed retier none = some none
on_seed retier (some seed) = elim (retiered retier seed) [ none ↦ none | some u ↦ some (some u) ]

abbrev pub cadence_of : Option CadenceInput → Option Seed → Option (Option CadenceUpdate)
cadence_of none seed = some none
cadence_of (some retier) seed = on_seed retier seed

-- _UPDATE_CADENCE_SQL
abbrev pub set_cadence : CadenceUpdate → Seed → Seed
set_cadence u seed = record seed {
  scan_tier = u.scan_tier;
  consecutive_empty_scans = u.consecutive_empty_scans;
  next_scan_after = some u.next_scan_after;
  tier_next_scan_after = some u.tier_next_scan_after;
}

abbrev pub apply_cadence : ℕ → Option CadenceUpdate → Dict Seed → Dict Seed
apply_cadence seed none rows = rows
apply_cadence seed (some u) rows = update seed (set_cadence u) rows

abbrev pub touched_by : ℕ → ℕ → List Attestation → Bool
touched_by run id [] = false
touched_by run id (a ∷ rows) =
    if a.infringement_id == id && a.last_run_id == run then true else touched_by run id rows

abbrev pub is_unconfirmed : ConfirmState → Bool
is_unconfirmed unconfirmed = true
is_unconfirmed (other state) = false

-- _ENQUEUE_CONFIRM_HITS_SQL: one message for each row, since DISTINCT joins those of one id.
pub confirms : ℕ → List Attestation → Dict Infringement → List OutboxMessage
confirms run rows [] = []
confirms run rows ((id, hit) ∷ hits) =
    if touched_by run id rows && is_unconfirmed hit.confirm_state
    then confirm_requested id ∷ confirms run rows hits
    else confirms run rows hits

abbrev pub finish :
    ℕ
    → ℕ
    → ℕ
    → List ℕ
    → Bool
    → Option (Option CadenceUpdate)
    → Tables
    → Option (Option CadenceUpdate × Tables)
finish now id seed succeeded enqueue_confirm none t = none
finish now id seed succeeded enqueue_confirm (some u) t = some (
  u,
  record t {
    runs = update id (complete now succeeded (count_matches id t.attestations)) t.runs;
    seeds = apply_cadence seed u t.seeds;
    outbox =
        if enqueue_confirm
        then confirms id t.attestations t.infringements ++ t.outbox
        else t.outbox;
  },
)

-- One transaction on a locked seed; `none` where it raises and nothing is written.
unfoldable pub complete_run :
    ℕ
    → ℕ
    → ℕ
    → List ℕ
    → Option CadenceInput
    → Bool
    → Tables
    → Option (Option CadenceUpdate × Tables)
unfolding confirms
complete_run now id seed succeeded retier enqueue_confirm t =
    finish now id seed succeeded enqueue_confirm (cadence_of retier (lookup seed t.seeds)) t
