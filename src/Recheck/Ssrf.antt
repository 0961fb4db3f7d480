-- ===== src/Recheck/Ssrf.antt =====
-- The egress guards (imageshield/recheck/ssrf.py). URLs and hosts are only compared and passed on:
-- numbers. What `urlsplit` reads from a URL, what a name resolves to and what a server answers are
-- the record `Web`, an argument; `hop` numbers the request, so that an answer may change between two.
use silver_invention.Prelude.{
  ℕ, Option, none, some, Bool, false, ◌||◌, List, [], ◌∷◌, if◌then◌else◌, ◌==◌,
}

-- An address that `ipaddress` parses, with its `is_global`, or one that it does not.
pub data Address : Type 0 where
  address : Bool → Address
  unparseable : Address

-- The scheme is http or https, and the hostname, lowercased, if there is one.
pub record Parts : Type 0 where
  pub is_http : Bool
  pub hostname : Option ℕ

pub record Response : Type 0 where
  pub status_code : ℕ
  -- the `location` header, `none` where it is missing or empty
  pub location : Option ℕ

-- How a request ends: with an answer, with a TransportError, or with another exception.
pub data Reply : Type 0 where
  replied : Response → Reply
  transport_error : Reply
  raised : Reply

pub data Resolution : Type 0 where
  resolved : List Address → Resolution
  os_error : Resolution
  resolve_raised : Resolution

pub record Web : Type 0 where
  -- `none` is a ValueError of `urlsplit`
  pub split : ℕ → Option Parts
  -- `none` is a ValueError of `urljoin`
  pub join : ℕ → ℕ → Option ℕ
  -- the guard's own resolution; the request resolves the name again
  pub resolve : ℕ → ℕ → Resolution
  pub head : ℕ → ℕ → Reply

pub data RefusalReason : Type 0 where
  not_an_http_url domain_not_allowlisted dns_failure dns_empty unparseable_address private_address :
      RefusalReason

unfoldable pub host_of : Web → ℕ → Option ℕ
host_of web url = elim (web.split url) [
  | none ↦ none
  | some parts ↦ if parts.is_http then parts.hostname else none
]

unfoldable pub mem : ℕ → List ℕ → Bool
mem x [] = false
mem x (y ∷ ys) = x == y || mem x ys

-- What a guard says: the request may go out, it may not, or the resolution raised something else than
-- an OSError.
pub data Guard : Type 0 where
  passes : Guard
  refuses : RefusalReason → Guard
  guard_raised : Guard

unfoldable pub address_loop : List Address → Guard
address_loop [] = passes
address_loop (unparseable ∷ addresses) = refuses unparseable_address
address_loop (address is_global ∷ addresses) =
    if is_global then address_loop addresses else refuses private_address

unfoldable pub addresses_refusal : Resolution → Guard
unfolding address_loop
addresses_refusal os_error = refuses dns_failure
addresses_refusal resolve_raised = guard_raised
addresses_refusal (resolved []) = refuses dns_empty
addresses_refusal (resolved (a ∷ addresses)) = address_loop (a ∷ addresses)

unfoldable pub address_refusal : Web → ℕ → ℕ → Guard
unfolding addresses_refusal host_of
address_refusal web hop url = elim (host_of web url) [
  | none ↦ refuses not_an_http_url
  | some host ↦ addresses_refusal (web.resolve hop host)
]

unfoldable pub refusal_reason : Web → ℕ → ℕ → List ℕ → Guard
unfolding address_refusal mem
refusal_reason web hop url allowed = elim (host_of web url) [
  | none ↦ refuses not_an_http_url
  | some host ↦
      if mem host allowed then address_refusal web hop url else refuses domain_not_allowlisted
]
