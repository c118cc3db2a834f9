-- ===== src/Http/Sent.antt =====
-- What goes out on the network, whatever the servers answer.
use retro_cloud_sync.Prelude.{
  ℕ, zero, suc, ◌≡◌, ◌≢◌, refl, ◌⊎◌, inl, inr, Bool, true, false, ◌∷◌, arith, ◌==◌, Bool-cases,
  Result-cases, Bytes, Result, ok,
}
use retro_cloud_sync.Http.Model.{Response, Request, Trace, Client, Transfer, Network}
use retro_cloud_sync.Http.Request.{
  validate_destination, is_conditional, transfer, Next, done, follow, after_transfer,
  request_rounds, perform_request,
}

-- The request of a caller, sent to some URL.
pub record SameRequest (q r : Request) : Type 0 where
  pub method : r.method ≡ q.method
  pub depth : r.depth ≡ q.depth
  pub content_type : r.content_type ≡ q.content_type
  pub if_match : r.if_match ≡ q.if_match
  pub if_none_match : r.if_none_match ≡ q.if_none_match
  pub destination : r.destination ≡ q.destination
  pub body : r.body ≡ q.body

-- A request may go out: to an HTTPS URL on an allowed host, with what the caller asked for.
pub record MaySend (net : Network) (client : Client) (q r : Request) : Type 0 where
  pub valid : validate_destination net r.url client.allowed_host_suffix ≡ ok tt
  pub same : SameRequest q r

-- `after` is `before` with at most `n` more requests, each of which passes `P`.
pub data Extends (P : Request → Type 0) (before : Trace) : ℕ → Trace → Type 0 where
  still : {n : ℕ} → Extends P before n before
  sent :
      {n : ℕ} {r : Request} {after : Trace}
      → P r
      → Extends P before n after
      → Extends P before (suc n) (r ∷ after)

SameRequest_refl : (q : Request) → SameRequest q q
SameRequest_refl q = ground arith

Extends-weaken :
    {P : Request → Type 0} {a b : Trace} (m : ℕ) → Extends P a 1 b → Extends P a (suc m) b
Extends-weaken m still = still
Extends-weaken m (sent h still) = sent h still

Extends-more :
    {P : Request → Type 0} {a b c : Trace} {m : ℕ}
    → Extends P a 1 b
    → Extends P b m c
    → Extends P a (suc m) c
Extends-more {m} p still = Extends-weaken m p
Extends-more p (sent h s) = sent h (Extends-more p s)

transfer-Extends :
    (net : Network) (client : Client) (q r : Request) (trace : Trace)
    → MaySend net client q r
    → Extends (MaySend net client q) trace 1 (transfer net r trace).0
unfolding transfer
transfer-Extends net client q r trace h = elim (Bool-cases (net.stop_before trace)) [
  | inl t ↦ rw (t, transfer) still
  | inr t ↦ rw (t, transfer) (sent h still)
]

same_at_url :
    (q r : Request) (url : Bytes) → SameRequest q r → SameRequest q (record r { url = url })
same_at_url q r url s = ground arith

Next-cases :
    (n : Next) → ((r : Result Response) × (n ≡ done r)) ⊎ ((url : Bytes) × (n ≡ follow url))
Next-cases (done r) = inl (r, refl)
Next-cases (follow url) = inr (url, refl)

validated : {r : Result (Unit {0})} (u : Unit {0}) → r ≡ ok u → r ≡ ok tt
validated tt e = e

request_rounds-Extends :
    (rounds : ℕ) (net : Network) (client : Client) (q r : Request) (trace : Trace)
    → SameRequest q r
    → Extends (MaySend net client q) trace rounds (request_rounds rounds net client r trace).0
unfolding request_rounds
request_rounds-Extends zero net client q r trace s = still
request_rounds-Extends (suc rounds) net client q r trace s =
    elim (Result-cases (validate_destination net r.url client.allowed_host_suffix)) [
      | inr (c, m, e) ↦ rw (e, request_rounds) still
      | inl (_, e) ↦
          let (trace', t) = transfer net r trace in
          let first : Extends (MaySend net client q) trace 1 trace' =
            transfer-Extends net client q r trace (record { valid = validated _ e; same = s }) in
          elim (Next-cases (after_transfer net (rounds == 0) r trace' t)) [
            | inl (o, n) ↦ rw (e, n, request_rounds) (Extends-weaken rounds first)
            | inr (url, n) ↦
                rw (e, n, request_rounds)
                  (Extends-more first (
                    request_rounds-Extends rounds net client q (record r { url = url }) trace'
                      (same_at_url q r url s)))
          ]
    ]

-- Whatever the servers answer, one request of a caller sends at most six, each to an HTTPS URL
-- on an allowed host, all with the method, headers and body of the caller.
pub perform_request-Extends :
    (net : Network) (client : Client) (q : Request) (trace : Trace)
    → Extends (MaySend net client q) trace 6 (perform_request net client q trace).0
unfolding perform_request
perform_request-Extends net client q trace =
    request_rounds-Extends 6 net client q q trace (SameRequest_refl q)

-- The answer to a conditional request is the answer of the first round.
conditional_after :
    (net : Network) (last : Bool) (q : Request) (trace : Trace) (t : Transfer) (url : Bytes)
    → is_conditional q ≡ true
    → after_transfer net last q trace t ≢ follow url
unfolding after_transfer
conditional_after net last q trace t url c = ground arith

-- A conditional request is sent at most once and never follows a redirect: the trace grows by
-- the very request, or not at all.
pub perform_request_conditional :
    (net : Network) (client : Client) (q : Request) (trace : Trace)
    → is_conditional q ≡ true
    → let after = (perform_request net client q trace).0 in (after ≡ trace) ⊎ (after ≡ q ∷ trace)
unfolding perform_request request_rounds transfer
perform_request_conditional net client q trace c =
    elim (Result-cases (validate_destination net q.url client.allowed_host_suffix)) [
      | inr (d, m, e) ↦ inl (ground (arith, e))
      | inl (_, e) ↦
          let (trace', t) = transfer net q trace in
          elim (Next-cases (after_transfer net false q trace' t)) [
            | inl (o, n) ↦ ground (arith, e, n)
            | inr (url, n) ↦ absurd (conditional_after net false q trace' t url c n)
          ]
    ]
