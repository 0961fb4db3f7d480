-- ===== src/Confirm/Worker/Examples.antt =====
-- The worker at a concrete message: an explicit picture with one face that matches its user.
use silver_invention.Prelude.{ℕ, none, some, true, [], ◌∷◌, ltb, leb, ◌*◌}
use silver_invention.Prelude.Int.{pos}
use silver_invention.Providers.Models.{ProviderRuntime}
use silver_invention.Providers.Breaker.{closed}
use silver_invention.Providers.Store.{World, Settings}
use silver_invention.Confirm.Store.{Hit, Tables}
use silver_invention.Confirm.Worker.{Float, ConfirmDeps, Times, fetched, returned}
use silver_invention.Review.Moves.Standing.{Standing}
use silver_invention.Review.Steps.{apply_all, no_rows, discover, found_hit}

abbrev whole : Float
whole = record {
  F = ℕ;
  ge = λ a b. leb b a;
  lt = ltb;
  mul = λ a b. a * b;
  zero_f = 0;
  is_truthy = λ a. ltb 0 a;
  explicit_min_confidence = 80;
}

abbrev deps : ConfirmDeps whole some
deps = record {
  fetch = fetched;
  dhash = λ image. some 1234567;
  to_rekognition_jpeg = some;
  detect_faces = λ image. returned (
      record {
        face_index = 0;
        bbox = record { x = 1; y = 1; w = 5; h = 5 };
        detect_confidence = 99;
      }
      ∷ []);
  search_face = λ image face. returned (record { external_image_id = 9; similarity = 97 } ∷ []);
  assess = λ image. returned (record {
    labels = record { name = "Explicit Nudity"; parent_name = ""; confidence = 95 } ∷ [];
    min_age_low = some 25;
  });
  face_match_threshold = 90;
  max_faces = 3;
  phash_hamming_max = 4;
  csam_age_low_threshold = 18;
  column = λ score. score;
  labels_payload = λ labels. 3;
  triage_payload = λ url box score labels degenerate. url;
  outcome_payload = λ faces score moderation. faces;
  skip_reason = λ reason. 51;
  skip_detail = λ detail. 52;
}

abbrev times : Times
times = record { monotonic = 1; claim_at = 2; record_at = 3; now = 4; day = 20; elapsed_ms = 5 }

abbrev settings : Settings
settings = record {
  cache_seconds = 30;
  policy = record {
    failure_threshold = 3;
    default_cooldown_seconds = 300;
    max_cooldown_seconds = 3600;
  };
}

abbrev rekognition : ProviderRuntime
rekognition = record {
  enabled = true;
  cost_per_call_usd = some (pos 2);
  daily_budget_usd = some (pos 10);
  monthly_budget_usd = none;
  rate_limit_per_min = none;
  breaker_state = closed;
  breaker_opened_at = none;
  breaker_reason = none;
  breaker_consecutive_failures = 0;
  breaker_cooldown_seconds = none;
  kind = 0;
}

abbrev world : World
world = record {
  providers = (7, rekognition) ∷ [];
  spend = [];
  calls = [];
  audit = [];
  cached = none;
  cached_at = none;
}

abbrev found : Hit
found = found_hit 9 100 (some 101) 1

abbrev tables : Tables
tables = apply_all (discover 5 9 100 (some 101) 1 ∷ []) no_rows
