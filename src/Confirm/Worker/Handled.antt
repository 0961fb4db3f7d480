-- ===== src/Confirm/Worker/Handled.antt =====
-- What handle_message (imageshield/confirm/worker.py) promises of a hit that is open.
use silver_invention.Prelude.{ℕ, ◌≡◌, ◌⊎◌, Option, none, some, true, false, ◌≢◌}
use silver_invention.Prelude.Dict.{lookup}
use silver_invention.Confirm.Store.{Hit, Tables, is_open}
use silver_invention.Confirm.Worker.{
  crashed, unavailable, returned, Float, ConfirmDeps, ConfirmContext, Times, rekognition_bundle,
  fetched, rekognition_confirm, Answer, runtimes, unavailable, returned,
}
use silver_invention.Confirm.Worker.Handle.{Handled}
use silver_invention.Confirm.Worker.Attended.{AttendedAt}
use silver_invention.Providers.Store.{runtimes, Settings, World}
use silver_invention.Review.Moves.Standing.{Standing}

-- The calls of Rekognition did not end in a value.
abbrev pub Failed : {A : Type 0} → Answer A → Type 0
Failed (returned x) = ⊥
Failed (unavailable text) = Unit
Failed crashed = Unit

-- The hit `h` is open, and stands as the transactions keep it.
module _ (fl : Float) (parse_user_ref : ℕ → Option ℕ) (s : Settings)
    (deps : ConfirmDeps fl parse_user_ref) (times : Times) (id : ℕ) (h : Hit) (t : Tables) where
  -- A message may stay in the queue for one of two reasons. The hit has a run to log for and the
  -- control store has no row for Rekognition, so that the log's write raises; or the image of the hit's
  -- own URL was fetched and converted, and a call of Rekognition on it ended in an exception.
  abbrev pub Excused : World → Type 0
  Excused w =
      ((h.last_run_id ≢ none) × (lookup rekognition_confirm w.providers ≡ none))
      ⊎ ((url : ℕ) × (image : ℕ) × (jpeg : ℕ) × (h.image_url ≡ some url)
          × (deps.fetch url ≡ fetched image)
          × (deps.to_rekognition_jpeg image ≡ some jpeg)
          × Failed (rekognition_bundle fl parse_user_ref deps jpeg h.user_ref))

  -- Deleted from the queue with the hit attended, or left there with the hits untouched.
  abbrev pub Settled : World → Handled → Type 0
  Settled w r = ((r.0 ≡ true) × AttendedAt id r.2) ⊎ ((r.0 ≡ false) × (r.2 ≡ t) × Excused w)

  module _ (found : lookup id t.hits ≡ some h) (is : is_open h.confirm_state ≡ true)
      (good : Standing h (lookup id t.tasks)) where
    abbrev ctx : ConfirmContext
    ctx = record {
      infringement_id = id;
      user_ref = h.user_ref;
      confirm_state = h.confirm_state;
      image_url = h.image_url;
      page_url = h.page_url;
      run_id = h.last_run_id;
    }
