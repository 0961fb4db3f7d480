-- ===== src/Providers/Store/Steps.antt =====
-- What happens to the tables: every operation of the control store as one step, by any worker, with
-- any arguments, at any time (providers/store.py).
use silver_invention.Prelude.{ℕ, Option, some, ◌≡◌, Bool}
use silver_invention.Prelude.Int.{ℤ}
use silver_invention.Providers.Models.{ProviderResult, SkipReason, Detail}
use silver_invention.Providers.Store.{
  World, Settings, runtimes, invalidate, claim_half_open_probe, record_outcome, record_skip,
  set_enabled, reset_breaker,
}

pub data Step (s : Settings) : World → World → Type 0 where
  read : (t : ℕ) (w : World) → Step s w (runtimes s t w).1
  drop_cache : (w : World) → Step s w (invalidate w)
  claim : (t pid : ℕ) (w : World) → Step s w (claim_half_open_probe s t pid w).1
  outcome :
      (t : ℕ) (run intel : Option ℕ) (result : ProviderResult) (cost : Option ℤ) (day : ℕ)
      (w w' : World)
      → record_outcome s t run intel result cost day w ≡ some w'
      → Step s w w'
  skip_call :
      (run intel : Option ℕ) (pid : ℕ) (reason : SkipReason) (detail : Detail) (w w' : World)
      → record_skip run intel pid reason detail w ≡ some w'
      → Step s w w'
  enable :
      (pid : ℕ) (enabled : Bool) (actor reason : ℕ) (w : World)
      → Step s w (set_enabled pid enabled actor reason w).1
  reset : (pid actor reason : ℕ) (w : World) → Step s w (reset_breaker pid actor reason w).1

pub data Reach (s : Settings) (w : World) : World → Type 0 where
  here : Reach s w w
  next : {v u : World} → Reach s w v → Step s v u → Reach s w u
