-- ===== src/Recheck/Probe/Identity.antt =====
-- A check's result is about the row that was checked (recheck/client.py).
use silver_invention.Recheck.Probe.Guards.{Reply-cases, Guard-cases}
use silver_invention.Prelude.{
  ℕ, zero, suc, ◌+◌, ◌≡◌, refl, Option, none, some, List, Option-cases, inr, inl, Bool-cases,
}
use silver_invention.Recheck.Ssrf.{Web, refusal_reason}
use silver_invention.Recheck.Probe.{DueInfringement, CheckResult, check, check_loop, is_redirect}

-- The result, where there is one, is about the row.
abbrev pub IsAbout : ℕ → Option CheckResult → Type 0
IsAbout item none = Unit
IsAbout item (some result) = result.infringement_id ≡ item

check_loop_id :
    (web : Web) (allowed : List ℕ) (item limit rounds hop url : ℕ)
    → IsAbout item (check_loop web allowed item limit rounds hop url).0
unfolding check_loop
check_loop_id web allowed item limit zero hop url = refl
check_loop_id web allowed item limit (suc rounds) hop url =
    elim (Guard-cases (refusal_reason web hop url allowed)) [
      | inr (inr e) ↦ rw (check_loop, e) tt
      | inr (inl (reason, e)) ↦ rw (check_loop, e) refl
      | inl e ↦ elim (Reply-cases (web.head hop url)) [
        | inr (inr h) ↦ rw (check_loop, e, h) tt
        | inr (inl h) ↦ rw (check_loop, e, h) refl
        | inl (r, h) ↦ elim (Bool-cases (is_redirect r.status_code)) [
          | inr final ↦ rw (check_loop, e, h, final) refl
          | inl again ↦ elim (Option-cases r.location) [
            | inl l ↦ rw (check_loop, e, h, again, l) refl
            | inr (target, l) ↦ elim (Option-cases (web.join url target)) [
              | inl j ↦ rw (check_loop, e, h, again, l, j) tt
              | inr (next, j) ↦
                  rw (check_loop, e, h, again, l, j)
                    (check_loop_id web allowed item limit rounds (hop + 1) next)
            ]
          ]
        ]
      ]
    ]

pub check_id :
    (web : Web) (max_redirects : ℕ) (item : DueInfringement) (allowed : List ℕ)
    → IsAbout item.infringement_id (check web max_redirects item allowed).0
unfolding check
check_id web max_redirects item allowed =
    check_loop_id web allowed item.infringement_id max_redirects (max_redirects + 1) 0 item.page_url
