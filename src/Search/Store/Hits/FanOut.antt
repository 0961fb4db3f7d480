-- ===== src/Search/Store/Hits/FanOut.antt =====
-- The pages that a provider's matches stand for (fan_out of imageshield/search/store.py).
use silver_invention.Search.Store.Hits.{
  Urls, add_targets, ProviderMatch, add_matches, fan_out, InfringementKey, KeyedOn, seen, targets,
}
use silver_invention.Prelude.{
  ℕ, ◌≡◌, refl, sym, subst, true, false, List, [], ◌∷◌, ◌++◌, ◌==◌, if◌then◌else◌, Bool-cases, inl,
  inr, arith, All, Any, All-map, Any-map, All-self, All-append,
}

module _ (urls : Urls) where
  abbrev pub new_key : ProviderMatch → ℕ × KeyedOn → InfringementKey
  new_key m (url, on) = record {
    url_hash = urls.url_hash url;
    key_url = url;
    keyed_on = on;
    hit = m;
  }

  add_targets-All :
      (P : InfringementKey → Type 0) (m : ProviderMatch) (ts : List (ℕ × KeyedOn))
      (keys : List InfringementKey)
      → All (λ p. P (new_key m p)) ts
      → All P keys
      → All P (add_targets urls m ts keys)
  unfolding add_targets
  add_targets-All P m [] keys new old = old
  add_targets-All P m ((url, on) ∷ ts) keys (first, new) old =
      elim (Bool-cases (seen (urls.url_hash url) keys)) [
        | inl known ↦ rw known (add_targets-All P m ts keys new old)
        | inr fresh ↦ rw fresh (
            add_targets-All P m ts (keys ++ (new_key m (url, on) ∷ [])) new
              (All-append P keys (new_key m (url, on) ∷ []) old (first, tt)))
      ]

  add_matches-All :
      (P : InfringementKey → Type 0) (ms : List ProviderMatch) (keys : List InfringementKey)
      → All (λ m. All (λ p. P (new_key m p)) (targets m)) ms
      → All P keys
      → All P (add_matches urls ms keys)
  unfolding add_matches
  add_matches-All P [] keys new old = old
  add_matches-All P (m ∷ ms) keys (first, new) old =
      add_matches-All P ms (add_targets urls m (targets m) keys) new
        (add_targets-All P m (targets m) keys first old)

  -- What holds of the key of every target holds of every key.
  pub fan_out-All :
      (P : InfringementKey → Type 0) (matches : List ProviderMatch)
      → All (λ m. All (λ p. P (new_key m p)) (targets m)) matches
      → All P (fan_out urls matches)
  unfolding fan_out
  fan_out-All P matches h = add_matches-All P matches [] h tt

  abbrev pub DistinctKeys : List InfringementKey → Type 0
  DistinctKeys [] = Unit
  DistinctKeys (k ∷ ks) = (seen k.url_hash ks ≡ false) × DistinctKeys ks

  seen-append :
      (digest : ℕ) (keys : List InfringementKey) (k : InfringementKey)
      → seen digest (keys ++ (k ∷ []))
        ≡ (if seen digest keys then true else if k.url_hash == digest then true else false)
  seen-append digest [] k = refl
  seen-append digest (j ∷ keys) k = ground (arith, seen-append digest keys k)

  append_distinct :
      (keys : List InfringementKey) (k : InfringementKey)
      → seen k.url_hash keys ≡ false
      → DistinctKeys keys
      → DistinctKeys (keys ++ (k ∷ []))
  append_distinct [] k e d = (refl, tt)
  append_distinct (j ∷ keys) k e (first, d) =
      (ground (arith, seen-append j.url_hash keys k), append_distinct keys k (ground arith) d)

  -- The keys so far, with what `digests` have been seen.
  add_targets_distinct :
      (m : ProviderMatch) (ts : List (ℕ × KeyedOn)) (keys : List InfringementKey)
      → DistinctKeys keys
      → DistinctKeys (add_targets urls m ts keys)
  unfolding add_targets
  add_targets_distinct m [] keys d = d
  add_targets_distinct m ((url, on) ∷ ts) keys d =
      elim (Bool-cases (seen (urls.url_hash url) keys)) [
        | inl known ↦ rw known (add_targets_distinct m ts keys d)
        | inr fresh ↦ rw fresh (
            add_targets_distinct m ts (keys ++ (new_key m (url, on) ∷ []))
              (append_distinct keys (new_key m (url, on)) fresh d))
      ]

  add_targets_seen :
      (digest : ℕ) (m : ProviderMatch) (ts : List (ℕ × KeyedOn)) (keys : List InfringementKey)
      → seen digest keys ≡ true
      → seen digest (add_targets urls m ts keys) ≡ true
  unfolding add_targets
  add_targets_seen digest m [] keys s = s
  add_targets_seen digest m ((url, on) ∷ ts) keys s =
      elim (Bool-cases (seen (urls.url_hash url) keys)) [
        | inl known ↦ rw known (add_targets_seen digest m ts keys s)
        | inr fresh ↦ rw fresh (
            add_targets_seen digest m ts (keys ++ (new_key m (url, on) ∷ []))
              (ground (arith, seen-append digest keys (new_key m (url, on)))))
      ]

  now_seen :
      (m : ProviderMatch) (url : ℕ) (on : KeyedOn) (keys : List InfringementKey)
      → seen
          (urls.url_hash url)
          (if seen (urls.url_hash url) keys then keys else keys ++ (new_key m (url, on) ∷ []))
        ≡ true
  now_seen m url on keys =
      ground (arith, seen-append (urls.url_hash url) keys (new_key m (url, on)))

  add_targets_every :
      (m : ProviderMatch) (ts : List (ℕ × KeyedOn)) (keys : List InfringementKey)
      → All (λ p. seen (urls.url_hash p.0) (add_targets urls m ts keys) ≡ true) ts
  unfolding add_targets
  add_targets_every m [] keys = tt
  add_targets_every m ((url, on) ∷ ts) keys =
      let keys' =
        if seen (urls.url_hash url) keys then keys else keys ++ (new_key m (url, on) ∷ []) in
      (
        add_targets_seen (urls.url_hash url) m ts keys' (now_seen m url on keys),
        add_targets_every m ts keys',
      )

  add_matches_distinct :
      (ms : List ProviderMatch) (keys : List InfringementKey)
      → DistinctKeys keys
      → DistinctKeys (add_matches urls ms keys)
  unfolding add_matches
  add_matches_distinct [] keys d = d
  add_matches_distinct (m ∷ ms) keys d =
      add_matches_distinct ms (add_targets urls m (targets m) keys)
        (add_targets_distinct m (targets m) keys d)

  add_matches_seen :
      (digest : ℕ) (ms : List ProviderMatch) (keys : List InfringementKey)
      → seen digest keys ≡ true
      → seen digest (add_matches urls ms keys) ≡ true
  unfolding add_matches
  add_matches_seen digest [] keys s = s
  add_matches_seen digest (m ∷ ms) keys s =
      add_matches_seen digest ms (add_targets urls m (targets m) keys)
        (add_targets_seen digest m (targets m) keys s)

  abbrev pub Reached : List InfringementKey → ProviderMatch → Type 0
  Reached keys m = All (λ p. seen (urls.url_hash p.0) keys ≡ true) (targets m)

  add_matches_every :
      (ms : List ProviderMatch) (keys : List InfringementKey)
      → All (Reached (add_matches urls ms keys)) ms
  unfolding add_matches
  add_matches_every [] keys = tt
  add_matches_every (m ∷ ms) keys =
      let keys' = add_targets urls m (targets m) keys in
      (
        All-map (targets m) (λ p s. add_matches_seen (urls.url_hash p.0) ms keys' s)
            (add_targets_every m (targets m) keys),
        add_matches_every ms keys',
      )

  -- The key is that of a target of one of the matches.
  abbrev pub IsTarget : List ProviderMatch → InfringementKey → Type 0
  IsTarget matches k =
      (k.url_hash ≡ urls.url_hash k.key_url)
      × Any (λ m. (m ≡ k.hit) × Any (λ p. p ≡ (k.key_url, k.keyed_on)) (targets m)) matches

  IsTarget-of :
      (matches : List ProviderMatch) (m : ProviderMatch)
      → Any (λ n. n ≡ m) matches
      → All (λ p. IsTarget matches (new_key m p)) (targets m)
  IsTarget-of matches m among =
      All-map (targets m)
        (λ p h. (
          refl,
          Any-map matches (λ n e. (e, subst (λ x. Any (λ q. q ≡ p) (targets x)) (sym e) h)) among,
        ))
        (All-self (targets m))

  -- `fan_out` gives one key for each page that the matches stand for, the image where a match has no
  -- page: no two keys have the same hash, every key is a target of one of the matches, which it
  -- carries, under its own hash, and the hash of every target of every match is that of a key.
  pub fan_out_lem :
      (matches : List ProviderMatch)
      → DistinctKeys (fan_out urls matches)
        × All (IsTarget matches) (fan_out urls matches)
        × All (Reached (fan_out urls matches)) matches
  unfolding fan_out
  fan_out_lem matches = (
    add_matches_distinct matches [] tt,
    fan_out-All (IsTarget matches) matches
        (All-map matches (λ m h. IsTarget-of matches m h) (All-self matches)),
    add_matches_every matches [],
  )
