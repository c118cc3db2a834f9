-- ===== src/Writer/Probes.antt =====
-- The probes of a write attempt: its GETs, and what it sends at most.
use retro_cloud_sync.Prelude.{
  to_lower, same_case, ℕ, suc, ◌≤◌, ◌≡◌, refl, sym, subst, inl, inr, false, none, ◌∷◌,
  if◌then◌else◌, Result-cases, Bytes, codes, Result, column_of,
}
use retro_cloud_sync.Journal.Model.{State, is_create, Operation}
use retro_cloud_sync.Http.Model.{Response, Request, Trace, Client, Network}
use retro_cloud_sync.Http.Request.{perform_request, client_request, is_mutation}
use retro_cloud_sync.Http.Sent.{MaySend, Extends, still, sent, perform_request-Extends}
use retro_cloud_sync.Writer.Attempt.{
  Worker, World, body_buffer, record_response, get_resource, with_resource, method_of,
}

-- A request that changes nothing: a GET with no condition and no body.
pub record IsProbe (r : Request) : Type 0 where
  pub method : r.method ≡ codes "GET"
  pub if_match : r.if_match ≡ none
  pub if_none_match : r.if_none_match ≡ false
  pub body : r.body ≡ none

-- The one write of an operation: to its own href, under If-Match with its base tag, or under
-- If-None-Match for a create.
unfoldable pub write_request : Worker → Operation → Request
write_request w o = record {
  method = method_of o.kind;
  url = o.href;
  depth = none;
  content_type = w.media_type;
  if_match = if is_create o.kind then none else o.base_etag;
  if_none_match = is_create o.kind;
  destination = none;
  body = column_of (body_buffer o.desired_body);
}

-- `after` is `before` with probes and `n` writes of the operation behind it.
pub data Sends (w : Worker) (o : Operation) (before : Trace) : ℕ → Trace → Type 0 where
  quiet : Sends w o before 0 before
  probe :
      {n : ℕ} {r : Request} {after : Trace}
      → IsProbe r
      → Sends w o before n after
      → Sends w o before n (r ∷ after)
  mutate :
      {n : ℕ} {r : Request} {after : Trace}
      → r ≡ write_request w o
      → Sends w o before n after
      → Sends w o before (suc n) (r ∷ after)

-- At most one write.
pub record AtMostOne (w : Worker) (o : Operation) (before after : Trace) : Type 0 where
  pub writes : ℕ
  pub bound : writes ≤ 1
  pub sends : Sends w o before writes after

unfoldable pub get_request : Bytes → Request
get_request href = record {
  method = codes "GET";
  url = href;
  depth = none;
  content_type = none;
  if_match = none;
  if_none_match = false;
  destination = none;
  body = none;
}

pub IsProbe-MaySend :
    (net : Network) (client : Client) (href : Bytes) {r : Request}
    → MaySend net client (get_request href) r
    → IsProbe r
unfolding get_request
IsProbe-MaySend net client href m = record {
  method = m.same.method;
  if_match = m.same.if_match;
  if_none_match = m.same.if_none_match;
  body = m.same.body;
}

pub Sends-Extends :
    (w : Worker) (o : Operation) (href : Bytes) {before mid : Trace} {n m : ℕ} {after : Trace}
    → Sends w o before n mid
    → Extends (MaySend w.net w.client (get_request href)) mid m after
    → Sends w o before n after
Sends-Extends w o href s still = s
Sends-Extends w o href s (sent h e) =
    probe (IsProbe-MaySend w.net w.client href h) (Sends-Extends w o href s e)

pub get_is_no_mutation : is_mutation (codes "GET") ≡ false
unfolding is_mutation same_case to_lower
get_is_no_mutation = refl

pub get_resource-trace :
    (w : Worker) (href : Bytes) (trace : Trace)
    → (get_resource w href trace).0 ≡ (perform_request w.net w.client (get_request href) trace).0
unfolding get_resource client_request get_request
get_resource-trace w href trace = rw (get_is_no_mutation, get_resource, client_request) refl

pub get_resource-Sends :
    (w : Worker) (o : Operation) (href : Bytes) (before trace : Trace) {n : ℕ}
    → Sends w o before n trace
    → Sends w o before n (get_resource w href trace).0
get_resource-Sends w o href before trace {n} s =
    subst (Sends w o before n) (sym (get_resource-trace w href trace))
      (Sends-Extends w o href s (perform_request-Extends w.net w.client (get_request href) trace))

-- A GET in front of `next`: if `next` goes on well after any probes, so does the whole.
pub with_resource-Sends :
    (w : Worker) (o : Operation) (before : Trace) {n : ℕ}
    (next : Response → World → World × Result (Unit {0})) (world : World)
    → n ≤ 1
    → Sends w o before n world.trace
    → ((r : Response) (world' : World)
        → Sends w o before n world'.trace
        → AtMostOne w o before (next r world').0.trace)
    → AtMostOne w o before (with_resource w o.href next world).0.trace
unfolding with_resource
with_resource-Sends w o before {n} next world b s f =
    let t = get_resource-Sends w o o.href before world.trace s in
    elim (Result-cases (get_resource w o.href world.trace).1) [
      | inr (c, m, e) ↦ rw (e, with_resource) (record { writes = n; bound = b; sends = t })
      | inl (r, e) ↦
          rw (e, with_resource)
            (f r (record world { trace = (get_resource w o.href world.trace).0 }) t)
    ]

pub record_response-trace :
    (w : Worker) (id : ℕ) (state : State) (r : Response) (world : World)
    → (record_response w id state r world).0.trace ≡ world.trace
unfolding record_response
record_response-trace w id state r world = refl

pub record_response-Sends :
    (w : Worker) (o : Operation) (before : Trace) {n : ℕ} (id : ℕ) (state : State) (r : Response)
    (world : World)
    → n ≤ 1
    → Sends w o before n world.trace
    → AtMostOne w o before (record_response w id state r world).0.trace
record_response-Sends w o before {n} id state r world b s =
    rw record_response-trace (record { writes = n; bound = b; sends = s })
