-- ===== src/Fetcher/Robots/Wildcards.antt =====
-- The leftmost search for the parts of a pattern (_matches of fetcher/robots.py) is complete.
use silver_invention.Prelude.{
  ℕ, ◌≡◌, refl, sym, inl, inr, Option, none, some, Bool, true, false, ◌&&◌, ◌||◌, List, [], ◌∷◌,
  if◌then◌else◌, ◌==◌, arith, Bool-cases, Option-cases,
}
use mathlib.Core.Path.{◌∙◌}
use mathlib.Core.Option.{some-injective, none-ne-some}
use silver_invention.Fetcher.Robots.{
  Text, star, is_empty, same, ends_with, strip, after, found, split_star, is_anchored, body_of,
  matches_parts, matches,
}

abbrev some_suffix : (Text → Bool) → Text → Bool
some_suffix f [] = f []
some_suffix f (d ∷ s) = f (d ∷ s) || some_suffix f s

abbrev head_is : ℕ → (Text → Bool) → Text → Bool
head_is c f [] = false
head_is c f (d ∷ s) = c == d && f s

-- The meaning of a pattern, by trying everything: "*" is any run of code points, another code point
-- is itself, and at the end of the pattern the path ends too where the pattern is anchored.
abbrev pub glob : Bool → Text → Text → Bool
glob anchored [] s = if anchored then is_empty s else true
glob anchored (c ∷ p) s =
    if c == star then some_suffix (glob anchored p) s else head_is c (glob anchored p) s

abbrev behind : (Text → Bool) → Option Text → Bool
behind f none = false
behind f (some r) = f r

-- The parts behind the first, each behind any run.
abbrev parts_glob : Bool → List Text → Text → Bool
parts_glob anchored [] s = if anchored then is_empty s else true
parts_glob anchored (m ∷ ms) s = some_suffix (λ x. behind (parts_glob anchored ms) (strip m x)) s

some_suffix_cong :
    (f g : Text → Bool) (s : Text) → ((x : Text) → f x ≡ g x) → some_suffix f s ≡ some_suffix g s
some_suffix_cong f g [] h = h []
some_suffix_cong f g (d ∷ s) h = rw (h (d ∷ s), some_suffix_cong f g s h) refl

plain_split :
    (anchored : Bool) (c : ℕ) (p s : Text)
    → ((x : Text)
        → glob anchored p x
          ≡ behind (parts_glob anchored (split_star p).1) (strip (split_star p).0 x))
    → head_is c (glob anchored p) s
      ≡ behind (parts_glob anchored (split_star p).1) (strip (c ∷ (split_star p).0) s)
plain_split anchored c p [] h = refl
plain_split anchored c p (d ∷ s) h = elim (Bool-cases (c == d)) [
  | inl equal ↦ rw equal (h s)
  | inr other ↦ rw other refl
]

glob_split :
    (anchored : Bool) (p s : Text)
    → glob anchored p s ≡ behind (parts_glob anchored (split_star p).1) (strip (split_star p).0 s)
glob_split anchored [] s = refl
glob_split anchored (c ∷ p) s = elim (Bool-cases (c == star)) [
  | inl wild ↦ rw wild (some_suffix_cong _ _ s (glob_split anchored p))
  | inr plain ↦ rw plain (plain_split anchored c p s (glob_split anchored p))
]

abbrev drop_text : Text → Text → Text
drop_text [] s = s
drop_text (c ∷ m) [] = []
drop_text (c ∷ m) (d ∷ s) = drop_text m s

strip-drop_text : (m s r : Text) → strip m s ≡ some r → drop_text m s ≡ r
strip-drop_text [] s r e = some-injective s r e
strip-drop_text (c ∷ m) [] r e = ground arith
strip-drop_text (c ∷ m) (d ∷ s) r e = elim (Bool-cases (c == d)) [
  | inl same_head ↦ strip-drop_text m s r (rw same_head at e)
  | inr other ↦ absurd (none-ne-some r (rw other at e))
]

-- A test that stays true with more in front.
abbrev Upward : (Text → Bool) → Type 0
Upward f = (d : ℕ) (x : Text) → f x ≡ true → f (d ∷ x) ≡ true

drop_nil : (m : Text) → drop_text m [] ≡ []
drop_nil [] = refl
drop_nil (c ∷ m) = refl

drop_up :
    (f : Text → Bool) (m : Text) (d : ℕ) (s : Text)
    → Upward f
    → f (drop_text m s) ≡ true
    → f (drop_text m (d ∷ s)) ≡ true
drop_up f [] d s up h = up d s h
drop_up f (c ∷ m) d [] up h = rw (drop_nil m) h
drop_up f (c ∷ m) d (e ∷ s) up h = drop_up f m e s up h

strip_holds :
    (f : Text → Bool) (m s : Text) → behind f (strip m s) ≡ true → f (drop_text m s) ≡ true
strip_holds f m s h = elim (Option-cases (strip m s)) [
  | inl e ↦ ground arith
  | inr (r, e) ↦ rw (strip-drop_text m s r e) (rw e at h)
]

suffix_holds :
    (f : Text → Bool) (m s : Text)
    → Upward f
    → some_suffix (λ x. behind f (strip m x)) s ≡ true
    → f (drop_text m s) ≡ true
suffix_holds f m [] up h = strip_holds f m [] h
suffix_holds f m (d ∷ s) up h = elim (Bool-cases (behind f (strip m (d ∷ s)))) [
  | inl here ↦ strip_holds f m (d ∷ s) here
  | inr later ↦ drop_up f m d s up (suffix_holds f m s up (rw later at h))
]

or_here :
    (f : Text → Bool) (m : Text) (d : ℕ) (s r : Text)
    → Upward f
    → strip m (d ∷ s) ≡ some r
    → (f r || some_suffix (λ x. behind f (strip m x)) s) ≡ f r
or_here f m d s r up e = elim (Bool-cases (some_suffix (λ x. behind f (strip m x)) s)) [
  | inl later ↦
      let above = drop_up f m d s up (suffix_holds f m s up later) in
      let top : f r ≡ true = rw (strip-drop_text m (d ∷ s) r e) at above in rw top refl
  | inr none_later ↦ rw none_later (ground arith)
]

-- For an upward test, the leftmost place is enough.
leftmost :
    (f : Text → Bool) (m s : Text)
    → Upward f
    → some_suffix (λ x. behind f (strip m x)) s ≡ behind f (after m s)
leftmost f m [] up = refl
leftmost f m (d ∷ s) up = elim (Option-cases (strip m (d ∷ s))) [
  | inl e ↦ rw (e, after) (leftmost f m s up)
  | inr (r, e) ↦ rw (e, after) (or_here f m d s r up e)
]

same-strip : (m s : Text) → same m s ≡ behind is_empty (strip m s)
same-strip [] s = refl
same-strip (c ∷ m) [] = refl
same-strip (c ∷ m) (d ∷ s) = ground (arith, same-strip m s)

ends_with_suffix : (m s : Text) → ends_with m s ≡ some_suffix (λ x. behind is_empty (strip m x)) s
ends_with_suffix m [] = same-strip m []
ends_with_suffix m (d ∷ s) = rw (same-strip m (d ∷ s), ends_with_suffix m s) refl

parts_glob-Upward :
    (anchored : Bool) (m : Text) (ms : List Text) → Upward (parts_glob anchored (m ∷ ms))
parts_glob-Upward anchored m ms d x h = ground arith

found_behind : (r : Option Text) → found r ≡ behind (λ y. true) r
found_behind none = refl
found_behind (some r) = refl

behind_cong :
    (f g : Text → Bool) (r : Option Text) → ((x : Text) → f x ≡ g x) → behind f r ≡ behind g r
behind_cong f g none h = refl
behind_cong f g (some r) h = h r

matches_parts_glob :
    (anchored : Bool) (parts : List Text) (s : Text)
    → matches_parts anchored parts s ≡ parts_glob anchored parts s
unfolding matches_parts
matches_parts_glob anchored [] s = refl
matches_parts_glob true (last ∷ []) s = ends_with_suffix last s
matches_parts_glob false (last ∷ []) s =
    found_behind (after last s) ∙ sym (leftmost (λ y. true) last s (λ d x h. refl))
matches_parts_glob anchored (m ∷ (n ∷ ms)) s =
    rw (leftmost (parts_glob anchored (n ∷ ms)) m s (parts_glob-Upward anchored n ms))
      (behind_cong _ _ (after m s) (matches_parts_glob anchored (n ∷ ms)))

-- `_matches` agrees with the meaning of the pattern: taking each part at its leftmost place, and an
-- anchored last part at the end, misses no match and finds no false one.
pub matches_glob :
    (pattern path : Text) → matches pattern path ≡ glob (is_anchored pattern) (body_of pattern) path
unfolding matches
matches_glob pattern path =
    behind_cong _ _ (strip (split_star (body_of pattern)).0 path)
      (matches_parts_glob (is_anchored pattern) (split_star (body_of pattern)).1)
    ∙ sym (glob_split (is_anchored pattern) (body_of pattern) path)
