-- ===== src/Recheck/Probe.antt =====
-- The prober (UrlChecker.check of imageshield/recheck/client.py). Beside its result a check returns
-- the requests that it sent, each with its hop; where it raises it has sent them too.
use silver_invention.Prelude.{
  ℕ, zero, suc, ◌+◌, Option, none, some, Bool, true, false, ◌||◌, List, [], ◌∷◌, if◌then◌else◌,
  ◌==◌,
}
use silver_invention.Recheck.Policy.{Verdict, alive, dead, unchanged, verdict_for_status}
use silver_invention.Recheck.Ssrf.{
  passes, refuses, guard_raised, replied, transport_error, raised, Web, Response, RefusalReason,
  refusal_reason,
}
pub mod Guards
pub mod Identity

pub record DueInfringement : Type 0 where
  pub infringement_id : ℕ
  pub page_url : ℕ
  pub source_domain : ℕ

pub record CheckResult : Type 0 where
  pub infringement_id : ℕ
  pub verdict : Verdict
  pub status_code : Option ℕ
  pub refused : Option RefusalReason
  pub redirects : ℕ

abbrev pub is_redirect : ℕ → Bool
is_redirect code = code == 301 || code == 302 || code == 303 || code == 307 || code == 308

abbrev pub unknown_result : ℕ → Option ℕ → Option RefusalReason → ℕ → CheckResult
unknown_result item code refused hop = record {
  infringement_id = item;
  verdict = unchanged;
  status_code = code;
  refused = refused;
  redirects = hop;
}

abbrev pub judged : ℕ → ℕ → ℕ → CheckResult
judged item code hop = record {
  infringement_id = item;
  verdict = verdict_for_status code;
  status_code = some code;
  refused = none;
  redirects = hop;
}

-- What a check comes to, `none` where it raises, and the requests that it sent.
abbrev pub Checking : Type 0
Checking = Option CheckResult × List (ℕ × ℕ)

abbrev pub after_request : ℕ × ℕ → Checking → Checking
after_request request (result, sent) = (result, request ∷ sent)

-- The `for` loop: the rounds left, the hop, the URL to ask.
pub check_loop : Web → List ℕ → ℕ → ℕ → ℕ → ℕ → ℕ → Checking
check_loop web allowed item limit zero hop url = (some (unknown_result item none none limit), [])
check_loop web allowed item limit (suc rounds) hop url = elim (refusal_reason web hop url allowed) [
  | guard_raised ↦ (none, [])
  | refuses reason ↦ (some (unknown_result item none (some reason) hop), [])
  | passes ↦ elim (web.head hop url) [
    | raised ↦ (none, (hop, url) ∷ [])
    | transport_error ↦ (some (unknown_result item none none hop), (hop, url) ∷ [])
    | replied r ↦
        if is_redirect r.status_code
        then (elim r.location [
          | none ↦ (some (unknown_result item (some r.status_code) none hop), (hop, url) ∷ [])
          | some target ↦ elim (web.join url target) [
            | none ↦ (none, (hop, url) ∷ [])
            | some next ↦
                after_request (hop, url) (check_loop web allowed item limit rounds (hop + 1) next)
          ]
        ])
        else (some (judged item r.status_code hop), (hop, url) ∷ [])
  ]
]

unfoldable pub check : Web → ℕ → DueInfringement → List ℕ → Checking
unfolding check_loop
check web max_redirects item allowed =
    check_loop web allowed item.infringement_id max_redirects (max_redirects + 1) 0 item.page_url
