-- ===== src/Search/Store/Hits/Counts.antt =====
-- What one upsert does to the number of rows and to a row that is there (imageshield/search/store.py).
use silver_invention.Search.Store.Hits.Rows.{KeepsKey, merge-Merged}
use silver_invention.Search.Store.Hits.{merge, find_hit, upsert_found, touch_url}
use silver_invention.Prelude.{
  ℕ, ◌≡◌, ◌≢◌, refl, sym, ap, ◌∙◌, subst, Option, none, some, Bool, true, false, List, [], ◌∷◌,
  if◌then◌else◌, ◌==◌, arith, inl, inr, ◌&&◌, length, suc,
}
use mathlib.Core.Option.{some-injective}
use silver_invention.Prelude.Dict.{Dict, lookup, update, lookup-update}
use silver_invention.Search.Store.{Infringement, Attestation, ContentUrl}

-- The attestation of an infringement by a provider is there.
abbrev pub attested : ℕ → ℕ → List Attestation → Bool
attested id pid [] = false
attested id pid (a ∷ rows) =
    if a.infringement_id == id && a.provider_id == pid then true else attested id pid rows

pub length-update :
    {V : Type 0} (id : ℕ) (f : V → V) (d : Dict V) → length (update id f d) ≡ length d
unfolding update
length-update id f [] = refl
length-update id f ((j, v) ∷ d) = ground (arith, length-update id f d)

pub find_hit-update :
    (user hash id : ℕ) (f : Infringement → Infringement) (d : Dict Infringement)
    → KeepsKey f
    → find_hit user hash (update id f d) ≡ find_hit user hash d
unfolding update
find_hit-update user hash id f [] keeps = refl
find_hit-update user hash id f ((j, r) ∷ d) keeps =
    let (u, h) = keeps r in ground (arith, find_hit-update user hash id f d keeps)

pub find_hit_new :
    (user hash hash' n : ℕ) (new : Infringement) (d : Dict Infringement) (id : ℕ)
    → new.url_hash ≡ hash'
    → find_hit user hash' d ≡ none
    → find_hit user hash d ≡ some id
    → find_hit user hash ((n, new) ∷ d) ≡ some id
find_hit_new user hash hash' n new d id q miss e = ground arith

pub attested-merge :
    (id pid : ℕ) (new : Attestation) (rows rows' : List Attestation)
    → merge new rows ≡ some rows'
    → attested id pid rows ≡ true
    → attested id pid rows' ≡ true
unfolding merge
attested-merge id pid new [] rows' e h = ground arith
attested-merge id pid new (old ∷ rows) rows' e h = elim (merge-Merged new old rows rows' e) [
  | inl (same, q) ↦ subst (λ r. attested id pid r ≡ true) (sym q) (ground arith)
  | inr (rest, other, m, q) ↦
      subst (λ r. attested id pid r ≡ true) (sym q)
        (ground (arith, attested-merge id pid new rows rest m))
]

pub merge-attested :
    (new : Attestation) (rows rows' : List Attestation)
    → merge new rows ≡ some rows'
    → attested new.infringement_id new.provider_id rows' ≡ true
unfolding merge
merge-attested new [] rows' e =
    subst (λ r. attested new.infringement_id new.provider_id r ≡ true)
      (some-injective (new ∷ []) rows' e) (ground arith)
merge-attested new (old ∷ rows) rows' e = elim (merge-Merged new old rows rows' e) [
  | inl (same, q) ↦
      subst (λ r. attested new.infringement_id new.provider_id r ≡ true) (sym q) (ground arith)
  | inr (rest, other, m, q) ↦
      subst (λ r. attested new.infringement_id new.provider_id r ≡ true) (sym q)
        (ground (arith, merge-attested new rows rest m))
]

pub length-merge :
    (new : Attestation) (rows rows' : List Attestation)
    → merge new rows ≡ some rows'
    → attested new.infringement_id new.provider_id rows ≡ true
    → length rows' ≡ length rows
unfolding merge
length-merge new [] rows' e h = ground arith
length-merge new (old ∷ rows) rows' e h = elim (merge-Merged new old rows rows' e) [
  | inl (same, q) ↦ ap length q
  | inr (rest, other, m, q) ↦ ap length q ∙ ap suc (length-merge new rows rest m (ground arith))
]

pub url_own :
    (k : ℕ) (new : ContentUrl) (rows : Dict ContentUrl) (o : Option ContentUrl)
    → lookup k rows ≡ o
    → lookup k (upsert_found k new o rows) ≢ none
url_own k new rows none e h = ground arith
url_own k new rows (some old) e h =
    ground (arith, lookup-update k k (touch_url new.last_seen_at) rows)

pub url_kept :
    (k j : ℕ) (new : ContentUrl) (rows : Dict ContentUrl) (o : Option ContentUrl)
    → lookup j rows ≢ none
    → lookup j (upsert_found k new o rows) ≢ none
url_kept k j new rows none seen h = ground arith
url_kept k j new rows (some old) seen h =
    ground (arith, lookup-update k j (touch_url new.last_seen_at) rows)

pub url_length :
    (k : ℕ) (new : ContentUrl) (rows : Dict ContentUrl) (o : Option ContentUrl)
    → o ≢ none
    → length (upsert_found k new o rows) ≡ length rows
url_length k new rows none h = absurd (h refl)
url_length k new rows (some old) h = length-update k (touch_url new.last_seen_at) rows
