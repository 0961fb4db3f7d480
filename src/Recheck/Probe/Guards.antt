-- ===== src/Recheck/Probe/Guards.antt =====
-- Every request is guarded, and only an explicit answer says that a page is gone (recheck/client.py,
-- recheck/ssrf.py, recheck/policy.py).
use silver_invention.Prelude.{
  Any, ◌==◌, zero, suc, ◌≤◌, length, ℕ, zero, suc, ◌+◌, ◌≤◌, ◌≡◌, ◌≢◌, ◌⊎◌, inl, inr, refl, Option,
  none, some, true, false, List, [], ◌∷◌, length, arith, Option-cases, Bool-cases,
}
use silver_invention.Recheck.Policy.{unchanged, verdict_for_status}
use silver_invention.Recheck.Ssrf.{
  Parts, passes, refuses, guard_raised, Guard, Resolution, resolved, os_error, resolve_raised,
  replied, transport_error, raised, Reply, Web, Response, Address, address, unparseable,
  RefusalReason, refusal_reason, host_of, mem, address_loop, addresses_refusal,
}
use silver_invention.Recheck.Probe.{
  Checking, after_request, DueInfringement, CheckResult, check, check_loop, is_redirect,
  unknown_result, judged,
}

abbrev pub AllGlobal : List Address → Type 0
AllGlobal [] = Unit
AllGlobal (unparseable ∷ addresses) = ⊥
AllGlobal (address is_global ∷ addresses) = (is_global ≡ true) × AllGlobal addresses

-- What may be asked: an http URL with a host of the allowlist for which the guard's resolution, before
-- this request, returns at least one address, and global addresses only.
pub record IsSafe (web : Web) (allowed : List ℕ) (hop url : ℕ) : Type 0 where
  pub host : ℕ
  pub parts : Parts
  pub is_url : web.split url ≡ some parts
  pub over_http : parts.is_http ≡ true
  pub has_host : parts.hostname ≡ some host
  pub allowlisted : Any (λ domain. domain ≡ host) allowed
  pub addresses : List Address
  pub resolves : web.resolve hop host ≡ resolved addresses
  pub some_address : addresses ≢ []
  pub all_global : AllGlobal addresses

address_loop-AllGlobal :
    (addresses : List Address) → address_loop addresses ≡ passes → AllGlobal addresses
unfolding address_loop
address_loop-AllGlobal [] h = tt
address_loop-AllGlobal (unparseable ∷ rest) h = cc
address_loop-AllGlobal (address true ∷ rest) h = (refl, address_loop-AllGlobal rest h)
address_loop-AllGlobal (address false ∷ rest) h = cc

addresses_safe :
    (r : Resolution)
    → addresses_refusal r ≡ passes
    → (addresses : List Address) × (r ≡ resolved addresses) × (addresses ≢ []) × AllGlobal addresses
unfolding addresses_refusal
addresses_safe os_error h = cc
addresses_safe resolve_raised h = cc
addresses_safe (resolved []) h = cc
addresses_safe (resolved (a ∷ rest)) h =
    (a ∷ rest, refl, λ e. cc, address_loop-AllGlobal (a ∷ rest) h)

host_of-Parts :
    (web : Web) (url host : ℕ)
    → host_of web url ≡ some host
    → (parts : Parts) × (web.split url ≡ some parts)
      × (parts.is_http ≡ true)
      × (parts.hostname ≡ some host)
unfolding host_of
host_of-Parts web url host h = elim (Option-cases (web.split url)) [
  | inl failed ↦ absurd (ground arith)
  | inr (parts, e) ↦ (parts, e, ground arith, ground arith)
]

mem-Any : (x : ℕ) (ys : List ℕ) → mem x ys ≡ true → Any (λ y. y ≡ x) ys
unfolding mem
mem-Any x [] h = absurd (ground arith)
mem-Any x (y ∷ ys) h = elim (Bool-cases (x == y)) [
  | inl same ↦ inl (ground arith)
  | inr apart ↦ inr (mem-Any x ys (ground arith))
]

resolved-IsSafe :
    (web : Web) (allowed : List ℕ) (hop url host : ℕ)
    → host_of web url ≡ some host
    → mem host allowed ≡ true
    → addresses_refusal (web.resolve hop host) ≡ passes
    → IsSafe web allowed hop url
resolved-IsSafe web allowed hop url host eh em er =
    let (addresses, ea, ne, global) = addresses_safe (web.resolve hop host) er in
    let (parts, split, http, named) = host_of-Parts web url host eh in
    record {
      host = host;
      parts = parts;
      is_url = split;
      over_http = http;
      has_host = named;
      allowlisted = mem-Any host allowed em;
      addresses = addresses;
      resolves = ea;
      some_address = ne;
      all_global = global;
    }

refusal_reason-IsSafe :
    (web : Web) (allowed : List ℕ) (hop url : ℕ)
    → refusal_reason web hop url allowed ≡ passes
    → IsSafe web allowed hop url
unfolding refusal_reason
refusal_reason-IsSafe web allowed hop url h = elim (Option-cases (host_of web url)) [
  | inl no_host ↦ absurd (ground arith)
  | inr (host, eh) ↦ resolved-IsSafe web allowed hop url host eh (ground arith) (ground arith)
]

-- A property of every request sent, and a request being among them.
abbrev pub AllSent : (ℕ → ℕ → Type 0) → List (ℕ × ℕ) → Type 0
AllSent P [] = Unit
AllSent P ((hop, url) ∷ sent) = P hop url × AllSent P sent

abbrev pub Among : ℕ → ℕ → List (ℕ × ℕ) → Type 0
Among hop url [] = ⊥
Among hop url ((h, u) ∷ sent) = ((hop ≡ h) × (url ≡ u)) ⊎ Among hop url sent

-- A verdict other than unchanged rests on an answer to a request that was sent.
pub record Answered (web : Web) (sent : List (ℕ × ℕ)) (result : CheckResult) : Type 0 where
  pub url : ℕ
  pub asked : Among result.redirects url sent
  pub reply : Response
  pub answer : web.head result.redirects url ≡ replied reply
  pub final : is_redirect reply.status_code ≡ false
  pub read : result.verdict ≡ verdict_for_status reply.status_code
  pub not_refused : result.refused ≡ none

abbrev pub AnsweredIf : Web → List (ℕ × ℕ) → Option CheckResult → Type 0
AnsweredIf web sent none = Unit
AnsweredIf web sent (some result) = result.verdict ≢ unchanged → Answered web sent result

-- What is promised of a check that sends at most `most` requests, whether it returns or raises.
pub record Checked (web : Web) (allowed : List ℕ) (most : ℕ) (out : Checking) : Type 0 where
  pub guarded : AllSent (IsSafe web allowed) out.1
  pub at_most : length out.1 ≤ most
  pub answered : AnsweredIf web out.1 out.0

grow :
    (web : Web) (hop url : ℕ) (sent : List (ℕ × ℕ)) (o : Option CheckResult)
    → AnsweredIf web sent o
    → AnsweredIf web ((hop, url) ∷ sent) o
grow web hop url sent none a = tt
grow web hop url sent (some result) a = λ h. record {
  url = (a h).url;
  asked = inr (a h).asked;
  reply = (a h).reply;
  answer = (a h).answer;
  final = (a h).final;
  read = (a h).read;
  not_refused = (a h).not_refused;
}

-- A check that ends without a verdict, after `sent`.
quiet :
    (web : Web) (allowed : List ℕ) (most : ℕ) (sent : List (ℕ × ℕ)) (item hop : ℕ) (code : Option ℕ)
    (refused : Option RefusalReason)
    → AllSent (IsSafe web allowed) sent
    → length sent ≤ most
    → Checked web allowed most (some (unknown_result item code refused hop), sent)
quiet web allowed most sent item hop code refused safe h = record {
  guarded = safe;
  at_most = h;
  answered = λ no. absurd (no refl);
}

-- A check that raises after one request.
aborted :
    (web : Web) (allowed : List ℕ) (rounds hop url : ℕ)
    → IsSafe web allowed hop url
    → Checked web allowed (suc rounds) (none, (hop, url) ∷ [])
aborted web allowed rounds hop url safe = record {
  guarded = (safe, tt);
  at_most = omega arith;
  answered = tt;
}

pub Guard-cases :
    (g : Guard)
    → (g ≡ passes) ⊎ ((reason : RefusalReason) × (g ≡ refuses reason)) ⊎ (g ≡ guard_raised)
Guard-cases passes = inl refl
Guard-cases (refuses reason) = inr (inl (reason, refl))
Guard-cases guard_raised = inr (inr refl)

pub Reply-cases :
    (r : Reply) → ((x : Response) × (r ≡ replied x)) ⊎ (r ≡ transport_error) ⊎ (r ≡ raised)
Reply-cases (replied x) = inl (x, refl)
Reply-cases transport_error = inr (inl refl)
Reply-cases raised = inr (inr refl)

module _ (web : Web) (allowed : List ℕ) (item limit : ℕ) where
  answered_Checked :
      (rounds hop url : ℕ) (r : Response)
      → IsSafe web allowed hop url
      → web.head hop url ≡ replied r
      → is_redirect r.status_code ≡ false
      → Checked web allowed (suc rounds) (some (judged item r.status_code hop), (hop, url) ∷ [])
  answered_Checked rounds hop url r safe er final = record {
    guarded = (safe, tt);
    at_most = omega arith;
    answered = λ _. record {
      url = url;
      asked = inl (refl, refl);
      reply = r;
      answer = er;
      final = final;
      read = refl;
      not_refused = refl;
    };
  }

  redirected_Checked :
      (rounds hop url : ℕ) (out : Checking)
      → IsSafe web allowed hop url
      → Checked web allowed rounds out
      → Checked web allowed (suc rounds) (after_request (hop, url) out)
  redirected_Checked rounds hop url (o, sent) safe c = record {
    guarded = (safe, c.guarded);
    at_most = omega (arith, c.at_most);
    answered = grow web hop url sent o c.answered;
  }

  loop_Checked :
      (rounds hop url : ℕ)
      → Checked web allowed rounds (check_loop web allowed item limit rounds hop url)
  unfolding check_loop
  loop_Checked zero hop url = quiet web allowed 0 [] item limit none none tt (omega arith)
  loop_Checked (suc rounds) hop url = elim (Guard-cases (refusal_reason web hop url allowed)) [
    | inr (inr e) ↦
        rw (e, check_loop) (record { guarded = tt; at_most = omega arith; answered = tt })
    | inr (inl (reason, e)) ↦
        rw (e, check_loop)
          (quiet web allowed (suc rounds) [] item hop none (some reason) tt (omega arith))
    | inl e ↦
        let safe = refusal_reason-IsSafe web allowed hop url e in
        elim (Reply-cases (web.head hop url)) [
          | inr (inr failed) ↦ rw (e, failed, check_loop) (aborted web allowed rounds hop url safe)
          | inr (inl lost) ↦
              rw (e, lost, check_loop)
                (quiet web allowed (suc rounds) ((hop, url) ∷ []) item hop none none (safe, tt)
                  (omega arith))
          | inl (r, er) ↦ elim (Bool-cases (is_redirect r.status_code)) [
            | inr final ↦
                rw (e, er, final, check_loop) (answered_Checked rounds hop url r safe er final)
            | inl again ↦ elim (Option-cases r.location) [
              | inl nowhere ↦
                  rw (e, er, again, nowhere, check_loop)
                    (quiet web allowed (suc rounds) ((hop, url) ∷ []) item hop (some r.status_code)
                      none (safe, tt) (omega arith))
              | inr (target, el) ↦ elim (Option-cases (web.join url target)) [
                | inl malformed ↦
                    rw (e, er, again, el, malformed, check_loop)
                      (aborted web allowed rounds hop url safe)
                | inr (next, en) ↦
                    rw (e, er, again, el, en, check_loop)
                      (redirected_Checked rounds hop url _ safe
                        (loop_Checked rounds (hop + 1) next))
              ]
            ]
          ]
        ]
  ]

-- Whatever the pages, redirects, names and servers do, and whether the check returns or raises, every
-- request of a check, the redirected ones included, goes to an http URL with an allowlisted host for
-- which the guard's own resolution, before this request, returned at least one address, and global
-- addresses only; at most `max_redirects + 1` requests are sent; and a verdict other than unchanged is
-- what the policy reads from an answer, no redirect, to one of them. The request resolves the name once
-- more, and what that resolution returns is not covered.
pub check-Checked :
    (web : Web) (max_redirects : ℕ) (item : DueInfringement) (allowed : List ℕ)
    → Checked web allowed (max_redirects + 1) (check web max_redirects item allowed)
unfolding check
check-Checked web max_redirects item allowed =
    loop_Checked web allowed item.infringement_id max_redirects (max_redirects + 1) 0 item.page_url
