-- ===== src/Writer/Sends.antt =====
-- What one attempt of the writer sends: probes, and at most one conditional write.
use retro_cloud_sync.Prelude.{
  ◌||◌, ℕ, ◌+◌, ◌≤◌, ◌≡◌, refl, ◌⊎◌, inl, inr, Bool, true, false, not, ◌&&◌, Option, none, some,
  ◌∷◌, arith, if◌then◌else◌, Bool-cases, Result-cases, Bytes, Buffer, is_some, ok,
}
use retro_cloud_sync.Journal.Model.{State, is_create, is_delete, Operation}
use retro_cloud_sync.Journal.Attempt.{get, begin_attempt}
use retro_cloud_sync.Http.Model.{Response, Trace}
use retro_cloud_sync.Http.Request.{conditional_request, is_valid_mutation}
use retro_cloud_sync.Http.Sent.{perform_request_conditional}
use retro_cloud_sync.Writer.Attempt.{
  Worker, World, body_buffer, record_response, is_wanted, is_written, conflict_or_uncertain,
  verify_write, after_write, method_of, write, decide, attempt, send_write, write, decide,
}
use retro_cloud_sync.Writer.Probes.{
  write_request, Sends, quiet, mutate, AtMostOne, with_resource-Sends, record_response-Sends,
}

after_write-Sends :
    (w : Worker) (o : Operation) (before : Trace) (written : Response) {n : ℕ} (world : World)
    → n ≤ 1
    → Sends w o before n world.trace
    → AtMostOne w o before (after_write w o written world).0.trace
unfolding after_write verify_write
after_write-Sends w o before written {n} world b s = ground (
  arith,
  with_resource-Sends w o before
      (λ remote. record_response w o.id (conflict_or_uncertain remote) remote) world b s
      (λ r world' t. record_response-Sends w o before o.id (conflict_or_uncertain r) r world' b t),
  with_resource-Sends w o before
      (λ remote.
        record_response w o.id
          (if is_wanted o remote || (not (is_delete o.kind) && is_written written remote)
            then State.applied
            else conflict_or_uncertain remote)
          remote)
      world b s (λ r world' t. record_response-Sends w o before o.id _ r world' b t),
  record_response-Sends w o before o.id State.uncertain written world b s,
)

valid_conditional :
    (method : Bytes) (body : Buffer) (if_match : Option Bytes) (if_none_match : Bool)
    → is_valid_mutation method body if_match if_none_match ≡ true
    → (is_some if_match || if_none_match) ≡ true
unfolding is_valid_mutation
valid_conditional method body none true v = refl
valid_conditional method body (some tag) b v = refl
valid_conditional method body none false v = ground arith

-- The conditional write is sent once or not at all.
write_sent :
    (w : Worker) (o : Operation) (trace : Trace)
    → let after = (send_write w o trace).0 in (after ≡ trace) ⊎ (after ≡ write_request w o ∷ trace)
unfolding send_write conditional_request write_request
write_sent w o trace =
    let tag = if is_create o.kind then none else o.base_etag in
    elim (Bool-cases
      (is_valid_mutation (method_of o.kind) (body_buffer o.desired_body) tag (is_create o.kind))) [
        | inr v ↦ inl (ground (arith, v))
        | inl v ↦ ground (
          arith,
          v,
          perform_request_conditional w.net w.client (write_request w o) trace
              (valid_conditional _ _ _ _ v),
        )
      ]

send_write-Sends :
    (w : Worker) (o : Operation) (before trace : Trace)
    → Sends w o before 0 trace
    → AtMostOne w o before (send_write w o trace).0
send_write-Sends w o before trace s = elim (write_sent w o trace) [
  | inl e ↦ rw e (record { writes = 0; bound = omega arith; sends = s })
  | inr e ↦ rw e (record { writes = 1; bound = omega arith; sends = mutate refl s })
]

write-Sends :
    (w : Worker) (o : Operation) (before : Trace) (world : World)
    → Sends w o before 0 world.trace
    → AtMostOne w o before (write w o world).0.trace
unfolding write
write-Sends w o before world s =
    let t = send_write-Sends w o before world.trace s in
    elim (Result-cases (send_write w o world.trace).1) [
      | inr (c, m, e) ↦ rw (e, write) t
      | inl (r, e) ↦
          rw (e, write)
            (after_write-Sends w o before r
              (record world { trace = (send_write w o world.trace).0 }) t.bound t.sends)
    ]

decide-Sends :
    (w : Worker) (o : Operation) (before : Trace) (remote : Response) (world : World)
    → Sends w o before 0 world.trace
    → AtMostOne w o before (decide w o remote world).0.trace
unfolding decide
decide-Sends w o before remote world s =
    let kept =
      λ (state : State). record_response-Sends w o before o.id state remote world (omega arith) s in
    ground (
      arith,
      kept State.applied,
      kept State.uncertain,
      kept State.conflict,
      write-Sends w o before world s,
    )

sent_after_begin :
    (w : Worker) (id : ℕ) (world : World)
    → ((attempt w id world).0.trace ≡ world.trace)
      ⊎ ((begin_attempt (λ k. w.io (1 + k)) w.account id w.now world.db).1 ≡ ok tt)
unfolding attempt
sent_after_begin w id world =
    elim (Result-cases (begin_attempt (λ k. w.io (1 + k)) w.account id w.now world.db).1) [
      | inl (tt, b) ↦ inr b
      | inr (c, m, b) ↦ inl (ground (arith, b))
    ]

-- An attempt on a stored operation sends probes and at most one write, which is the conditional
-- request of the operation; and it sends anything at all only if the attempt was recorded in the
-- journal first.
pub attempt-Sends :
    (w : Worker) (id : ℕ) (world : World) {o : Operation}
    → get w.io w.account id world.db ≡ ok o
    → AtMostOne w o world.trace (attempt w id world).0.trace
      × (((attempt w id world).0.trace ≡ world.trace)
          ⊎ ((begin_attempt (λ k. w.io (1 + k)) w.account id w.now world.db).1 ≡ ok tt))
unfolding attempt
attempt-Sends w id world {o} e =
    let none_sent : AtMostOne w o world.trace world.trace = record {
      writes = 0;
      bound = omega arith;
      sends = quiet;
    } in
    let begun =
      with_resource-Sends w o world.trace (decide w o)
        (record world { db = (begin_attempt (λ k. w.io (1 + k)) w.account id w.now world.db).0 })
        (omega arith) quiet (λ r world' s. decide-Sends w o world.trace r world' s) in
    (ground (arith, e, none_sent, begun), sent_after_begin w id world)
