-- ===== src/Fetcher/Cache/Freshness.antt =====
-- What the cache answers, after any sequence of calls (RobotsCache of fetcher/robots.py).
use silver_invention.Prelude.{
  ℕ, ◌+◌, ◌≤◌, ◌<◌, ◌≡◌, refl, Option, none, some, List, [], ◌∷◌, if◌then◌else◌, leb, length, ◌==◌,
  arith, Bool-cases, inl, inr, ◌∙◌, ap,
}
use mathlib.Core.Option.{some-injective, none-ne-some}
use silver_invention.Prelude.Dict.{lookup, Unique}
use silver_invention.Fetcher.Cache.{RobotsCache, move_to_end, get_entry, get, put}
use silver_invention.Fetcher.Cache.Entries.{
  lookup-move_to_end, move_to_end-Unique, erase-Unique, length-erase, length-move_to_end,
  evict_bound, lookup-evict, evict-Unique, erase_keeps, move_keeps,
}

module _ (R : Type 0) where
  -- A call: `get` of an origin, or `put` of rules for one, at a time.
  pub data Op : Type 0 where
    got : ℕ → ℕ → Op
    stored : ℕ → ℕ → R → Op

  -- A call at a cache, and the last call first.
  abbrev pub apply : Op → RobotsCache R → RobotsCache R
  apply (got now origin) cache = (get R now origin cache).1
  apply (stored now origin rules) cache = put R now origin rules cache

  unfoldable pub after_calls : ℕ → ℕ → List Op → RobotsCache R
  after_calls ttl max [] = record { ttl = ttl; max = max; entries = [] }
  after_calls ttl max (op ∷ ops) = apply op (after_calls ttl max ops)

  unfoldable pub last_put : ℕ → List Op → Option (ℕ × R)
  last_put origin [] = none
  last_put origin (got now o ∷ ops) = last_put origin ops
  last_put origin (stored now o rules ∷ ops) =
      let rest = last_put origin ops in if o == origin then some (now, rules) else rest

  abbrev Sound : ℕ → ℕ → List Op → RobotsCache R → Type 0
  Sound ttl max ops cache =
      (cache.ttl ≡ ttl)
      × (cache.max ≡ max)
      × Unique cache.entries
      × (length cache.entries ≤ max)
      × ((o : ℕ) (v : ℕ × R) → lookup o cache.entries ≡ some v → last_put o ops ≡ some v)

  put_last :
      (now k : ℕ) (rules : R) (ops : List Op) (cache : RobotsCache R) (o : ℕ) (v : ℕ × R)
      → ((j : ℕ) (w : ℕ × R) → lookup j cache.entries ≡ some w → last_put j ops ≡ some w)
      → lookup o (move_to_end R k (now, rules) cache.entries) ≡ some v
      → last_put o (stored now k rules ∷ ops) ≡ some v
  unfolding last_put
  put_last now k rules ops cache o v s e = elim (Bool-cases (k == o)) [
    | inl same ↦
        let h : some (now, rules) ≡ some v =
          rw (lookup-move_to_end R o k (now, rules) cache.entries, same) at e in
        rw same h
    | inr other ↦
        let h : lookup o cache.entries ≡ some v =
          rw (lookup-move_to_end R o k (now, rules) cache.entries, other) at e in
        rw other (s o v h)
  ]

  get-Sound :
      (ttl max now origin : ℕ) (ops : List Op) (cache : RobotsCache R) (e : Option (ℕ × R))
      → lookup origin cache.entries ≡ e
      → Sound ttl max ops cache
      → Sound ttl max ops (get_entry R now origin cache e).1
  get-Sound ttl max now origin ops cache none q (a, b, u, l, s) = (a, b, u, l, s)
  get-Sound ttl max now origin ops cache (some (t, rules)) q (a, b, u, l, s) =
      elim (Bool-cases (leb (t + cache.ttl) now)) [
        | inl old ↦ rw old (
          a,
          b,
          erase-Unique R origin cache.entries u,
          ground (arith, length-erase R origin cache.entries),
          λ o v e. s o v (erase_keeps R origin o v cache.entries e),
        )
        | inr fresh ↦ rw fresh (
          a,
          b,
          move_to_end-Unique R origin (t, rules) cache.entries u,
          ground (arith, length-move_to_end R origin (t, rules) (t, rules) cache.entries q),
          λ o v e. s o v (move_keeps R origin o (t, rules) v cache.entries q e),
        )
      ]

  put-Sound :
      (ttl max now origin : ℕ) (rules : R) (ops : List Op) (cache : RobotsCache R)
      → Sound ttl max ops cache
      → Sound ttl max (stored now origin rules ∷ ops) (put R now origin rules cache)
  unfolding put last_put
  put-Sound ttl max now origin rules ops cache (a, b, u, l, s) =
      let moved = move_to_end R origin (now, rules) cache.entries in
      let moved_u = move_to_end-Unique R origin (now, rules) cache.entries u in
      (
        a,
        b,
        evict-Unique R cache.max moved moved_u,
        ground (arith, evict_bound R cache.max moved),
        λ o v e.
            put_last now origin rules ops cache o v s
              (lookup-evict R cache.max o v moved moved_u e),
      )

  calls-Sound : (ttl max : ℕ) (ops : List Op) → Sound ttl max ops (after_calls ttl max ops)
  unfolding after_calls get last_put
  calls-Sound ttl max [] = (refl, refl, tt, ground arith, λ o v e. absurd (none-ne-some v e))
  calls-Sound ttl max (got now origin ∷ ops) =
      get-Sound ttl max now origin ops _ _ refl (calls-Sound ttl max ops)
  calls-Sound ttl max (stored now origin rules ∷ ops) =
      put-Sound ttl max now origin rules ops _ (calls-Sound ttl max ops)

  -- The answer of an entry.
  answer :
      (ttl max now origin : ℕ) (ops : List Op) (cache : RobotsCache R) (rules : R)
      (e : Option (ℕ × R))
      → Sound ttl max ops cache
      → lookup origin cache.entries ≡ e
      → (get_entry R now origin cache e).0 ≡ some rules
      → (t : ℕ) × (last_put origin ops ≡ some (t, rules)) × (now < t + ttl)
  answer ttl max now origin ops cache rules none sound q h = absurd (none-ne-some rules h)
  answer ttl max now origin ops cache rules (some (t, kept)) (a, b, u, l, s) q h =
      elim (Bool-cases (leb (t + cache.ttl) now)) [
        | inl old ↦ absurd (none-ne-some rules (rw old at h))
        | inr fresh ↦
            let same_rules : kept ≡ rules = some-injective kept rules (rw fresh at h) in
            (t, s origin (t, kept) q ∙ ap (λ r. some (t, r)) same_rules, ground arith)
      ]

  -- After any calls, what `get` answers for an origin are the rules of the last `put` for that
  -- origin, from less than `ttl` before: never another origin's, never rules that were replaced,
  -- never stale ones.
  pub get_fresh :
      (ttl max now origin : ℕ) (ops : List Op) (rules : R)
      → (get R now origin (after_calls ttl max ops)).0 ≡ some rules
      → (t : ℕ) × (last_put origin ops ≡ some (t, rules)) × (now < t + ttl)
  unfolding get
  get_fresh ttl max now origin ops rules h =
      answer ttl max now origin ops _ rules _ (calls-Sound ttl max ops) refl h

  -- After any calls, the cache holds each origin once and at most `max` of them.
  pub calls_bound :
      (ttl max : ℕ) (ops : List Op)
      → Unique (after_calls ttl max ops).entries × (length (after_calls ttl max ops).entries ≤ max)
  calls_bound ttl max ops = let (a, b, u, l, s) = calls-Sound ttl max ops in (u, l)
