-- ===== src/Writer/Verdicts.antt =====
-- Source: source/shared/RCDAVWriter.c. What an attempt concludes from the answers of the server.
use retro_cloud_sync.Prelude.{
  Bool, ◌≤◌, ◌<◌, ◌≡◌, ◌≢◌, ◌↔◌, refl, sym, subst, ap, ◌∙◌, ◌⊎◌, inl, inr, true, false, not, ◌||◌,
  ◌&&◌, Option, none, some, arith, if◌then◌else◌, ◌==◌, leb, ltb, Bool-cases, Result-cases, Bytes,
  bytes_of, is_some, same, same_iff, Result, ok, err≢ok,
}
use retro_cloud_sync.Journal.Model.{
  State, uncertain, applied, conflict, is_create, is_delete, Operation,
}
use retro_cloud_sync.Journal.Etag.{etag_is_strong}
use retro_cloud_sync.Http.Model.{Response}
use retro_cloud_sync.Writer.Attempt.{
  Worker, World, holds, desired, record_response, get_resource, with_resource, is_wanted,
  is_written, conflict_or_uncertain, found_or_gone, is_missing, is_diverged, verify_write,
  after_write, write, decide,
}

-- The server holds what the operation wants: nothing behind a delete, and else its body, under a
-- strong tag.
abbrev pub IsSeen : Operation → Response → Type 0
IsSeen o r =
    ((is_delete o.kind ≡ true) × (r.status_code ≡ 404))
    ⊎ ((is_delete o.kind ≡ false)
        × (r.status_code ≡ 200)
        × (etag_is_strong r.etag ≡ true)
        × ((body : Bytes) × (r.body ≡ some body) × (o.desired_body ≡ some body)))

-- The server holds the revision that the operation is pinned to: nothing for a create, and else one
-- with the tag of the base.
abbrev pub IsPinned : Operation → Response → Type 0
IsPinned o r =
    ((is_create o.kind ≡ true) × (r.status_code ≡ 404))
    ⊎ ((is_create o.kind ≡ false)
        × (r.status_code ≡ 200)
        × ((tag : Bytes) × (r.etag ≡ some tag) × (bytes_of o.base_etag ≡ tag)))

abbrev pub IsKnown : Response → Type 0
IsKnown r = (r.status_code ≡ 200) ⊎ (r.status_code ≡ 404)

holds_iff :
    (a b : Option Bytes) → (holds a b ≡ true) ↔ ((body : Bytes) × (a ≡ some body) × (b ≡ some body))
unfolding holds
holds_iff none b = ((λ h. absurd (ground arith)), (λ (c, e, f). absurd (ground (arith, e))))
holds_iff (some a) none = ((λ h. absurd (ground arith)), (λ (c, e, f). absurd (ground (arith, f))))
holds_iff (some a) (some b) = (
  (λ h. (a, refl, ap some (sym ((same_iff a b).0 h)))),
  (λ (c, e, f). (same_iff a b).1 (ground (arith, e, f))),
)

is_wanted_iff : (o : Operation) (r : Response) → (is_wanted o r ≡ true) ↔ IsSeen o r
unfolding is_wanted desired
is_wanted_iff o r = ground (arith, holds_iff r.body o.desired_body)

tag_iff :
    (base etag : Option Bytes)
    → ((is_some etag && same (bytes_of base) (bytes_of etag)) ≡ true)
      ↔ ((tag : Bytes) × (etag ≡ some tag) × (bytes_of base ≡ tag))
tag_iff base none = ((λ h. absurd (ground arith)), (λ (c, e, f). absurd (ground (arith, e))))
tag_iff base (some etag) = (
  (λ h. (etag, refl, (same_iff (bytes_of base) etag).0 h)),
  (λ (c, e, f). (same_iff (bytes_of base) etag).1 (ground (arith, e, f))),
)

is_diverged_iff : (o : Operation) (r : Response) → (is_diverged o r ≡ false) ↔ IsPinned o r
unfolding is_diverged
is_diverged_iff o r = ground (arith, tag_iff o.base_etag r.etag)

found_or_gone_iff : (r : Response) → (found_or_gone r ≡ true) ↔ IsKnown r
found_or_gone_iff r = ground arith

-- What follows from the first answer.
pub data Decided (w : Worker) (o : Operation) (r : Response) (world : World)
    (after : World × Result (Unit {0})) : Type 0 where
  confirmed :
      IsSeen o r → after ≡ record_response w o.id applied r world → Decided w o r world after
  unknown :
      ¬ IsSeen o r
      → ¬ IsKnown r
      → after ≡ record_response w o.id uncertain r world
      → Decided w o r world after
  collides :
      ¬ IsSeen o r
      → IsKnown r
      → ¬ IsPinned o r
      → after ≡ record_response w o.id conflict r world
      → Decided w o r world after
  writes : ¬ IsSeen o r → IsPinned o r → after ≡ write w o world → Decided w o r world after

refuted : {b : Bool} {P : Type 0} → (b ≡ true) ↔ P → b ≡ false → ¬ P
refuted h f p = absurd (ground (arith, h.1 p, f))

-- What an attempt does with its first answer: if the server holds what the operation wants,
-- applied is recorded; else, if the answer is neither 200 nor 404, uncertain; else, if the
-- server does not hold the revision that the operation is pinned to, a conflict; and it writes
-- only if the server holds that revision and not what is wanted.
pub decide_lem :
    (w : Worker) (o : Operation) (r : Response) (world : World)
    → Decided w o r world (decide w o r world)
unfolding decide
decide_lem w o r world = elim (Bool-cases (is_wanted o r)) [
  | inl t ↦ confirmed ((is_wanted_iff o r).0 t) (rw (t, decide) refl)
  | inr t ↦
      let unseen = refuted (is_wanted_iff o r) t in
      elim (Bool-cases (found_or_gone r)) [
        | inr u ↦ unknown unseen (refuted (found_or_gone_iff r) u) (ground (arith, t, u))
        | inl u ↦ elim (Bool-cases (is_diverged o r)) [
          | inl v ↦
              collides unseen ((found_or_gone_iff r).0 u)
                (λ p. absurd (ground (arith, v, (is_diverged_iff o r).1 p)))
                (ground (arith, t, u, v))
          | inr v ↦ writes unseen ((is_diverged_iff o r).0 v) (ground (arith, t, u, v))
        ]
      ]
]

-- The server holds a resource with the strong tag that it gave to the write.
abbrev pub IsAccepted : Response → Response → Type 0
IsAccepted written r =
    (r.status_code ≡ 200)
    × (is_missing r.body ≡ false)
    × (etag_is_strong written.etag ≡ true)
    × (etag_is_strong r.etag ≡ true)
    × (bytes_of written.etag ≡ bytes_of r.etag)

is_written_iff : (written r : Response) → (is_written written r ≡ true) ↔ IsAccepted written r
unfolding is_written
is_written_iff written r = ground (arith, same_iff (bytes_of written.etag) (bytes_of r.etag))

-- The state of an operation whose write is not confirmed.
abbrev pub Unconfirmed : Response → State → Type 0
Unconfirmed r state = (IsKnown r × (state ≡ conflict)) ⊎ ((¬ IsKnown r) × (state ≡ uncertain))

-- What follows from the last answer, after a write with an answer like `written`.
pub data Concluded (o : Operation) (written r : Response) : State → Type 0 where
  rejected :
      {state : State}
      → written.status_code ≡ 412
      → Unconfirmed r state
      → Concluded o written r state
  verified :
      written.status_code ≢ 412
      → IsSeen o r ⊎ ((is_delete o.kind ≡ false) × IsAccepted written r)
      → Concluded o written r applied
  differs :
      {state : State}
      → written.status_code ≢ 412
      → ¬ IsSeen o r
      → (is_delete o.kind ≡ false → ¬ IsAccepted written r)
      → Unconfirmed r state
      → Concluded o written r state

-- The end of an attempt behind the answer to its write.
pub data Ends (w : Worker) (o : Operation) (written : Response) (world : World)
    (after : World × Result (Unit {0})) : Type 0 where
  turned_down :
      written.status_code ≢ 412
      → (written.status_code < 200) ⊎ (300 ≤ written.status_code)
      → after ≡ record_response w o.id uncertain written world
      → Ends w o written world after
  unread :
      ((r : Response) → (get_resource w o.href world.trace).1 ≢ ok r)
      → after.0 ≡ record world { trace = (get_resource w o.href world.trace).0 }
      → after.1 ≢ ok tt
      → Ends w o written world after
  read :
      (r : Response) (state : State)
      → (written.status_code ≡ 412) ⊎ ((200 ≤ written.status_code) × (written.status_code < 300))
      → (get_resource w o.href world.trace).1 ≡ ok r
      → Concluded o written r state
      → after
        ≡ record_response w o.id state r
            (record world { trace = (get_resource w o.href world.trace).0 })
      → Ends w o written world after

unconfirmed : (r : Response) → Unconfirmed r (conflict_or_uncertain r)
unconfirmed r = elim (Bool-cases (found_or_gone r)) [
  | inl t ↦ inl ((found_or_gone_iff r).0 t, rw t refl)
  | inr t ↦ inr (refuted (found_or_gone_iff r) t, rw t refl)
]

-- The last GET, for any way to choose the state.
read_lem :
    (w : Worker) (o : Operation) (written : Response) (world : World) (state : Response → State)
    → (written.status_code ≡ 412) ⊎ ((200 ≤ written.status_code) × (written.status_code < 300))
    → ((r : Response) → Concluded o written r (state r))
    → Ends w o written world
        (with_resource w o.href (λ r. record_response w o.id (state r) r) world)
unfolding with_resource
read_lem w o written world state h conclude =
    elim (Result-cases (get_resource w o.href world.trace).1) [
      | inr (c, m, e) ↦
          unread (λ r f. err≢ok (sym e ∙ f)) (rw (e, with_resource) refl)
            (rw (e, with_resource) (λ f. err≢ok f))
      | inl (r, e) ↦ read r (state r) h e (conclude r) (rw (e, with_resource) refl)
    ]

verify_write_lem :
    (o : Operation) (written r : Response)
    → written.status_code ≢ 412
    → Concluded o written r (
        if is_wanted o r || (not (is_delete o.kind) && is_written written r)
        then applied
        else conflict_or_uncertain r)
verify_write_lem o written r n =
    elim (Bool-cases (is_wanted o r || (not (is_delete o.kind) && is_written written r))) [
      | inl t ↦ rw t (verified n (ground (arith, t, is_wanted_iff o r, is_written_iff written r)))
      | inr t ↦ rw t (
          differs n (refuted (is_wanted_iff o r) (ground (arith, t)))
            (λ d. refuted (is_written_iff written r) (ground (arith, t, d))) (unconfirmed r))
    ]

-- What an attempt does with the answer to its write: for a status other than 412 outside 200 to
-- 299 it records uncertain; else it reads the resource again, fails with the journal unchanged
-- if that fails, and records applied exactly if the write was not refused with 412 and the
-- server holds what the operation wants, or, unless it deletes, a resource that has a body and
-- the strong tag that the write was given; else a conflict for 200 and 404, and uncertain for
-- any other status.
pub after_write_lem :
    (w : Worker) (o : Operation) (written : Response) (world : World)
    → Ends w o written world (after_write w o written world)
unfolding after_write verify_write
after_write_lem w o written world = elim (Bool-cases (written.status_code == 412)) [
  | inl t ↦
      let e : written.status_code ≡ 412 = ground arith in
      let step : after_write w o written world ≡ (
          with_resource w o.href (λ r. record_response w o.id (conflict_or_uncertain r) r) world) =
        rw (t, after_write) refl in
      subst (Ends w o written world) (sym step)
        (read_lem w o written world conflict_or_uncertain (inl e) (λ r. rejected e (unconfirmed r)))
  | inr t ↦
      let n : written.status_code ≢ 412 = ground arith in
      elim (Bool-cases (ltb written.status_code 200 || leb 300 written.status_code)) [
        | inl u ↦ turned_down n (ground (arith, u)) (rw (t, u, after_write) refl)
        | inr u ↦
            let step : after_write w o written world ≡ verify_write w o written world =
              rw (t, u, after_write) refl in
            subst (Ends w o written world) (sym step) (
              read_lem w o written world
                (λ r.
                  if is_wanted o r || (not (is_delete o.kind) && is_written written r)
                  then applied
                  else conflict_or_uncertain r)
                (inr (ground (arith, u))) (λ r. verify_write_lem o written r n))
      ]
]
