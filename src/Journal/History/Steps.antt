-- ===== src/Journal/History/Steps.antt =====
-- Each call lets the operations evolve, and so does every sequence of calls.
use retro_cloud_sync.Prelude.{
  ℕ, ◌≡◌, sym, subst, ◌⊎◌, inl, inr, Bool, true, false, Option, none, some, [], ◌∷◌, arith,
  Bool-cases, Result-cases, Bytes, Buffer, ℤ, pos, negsuc, Result, err,
}
use retro_cloud_sync.Journal.Model.{
  Kind, State, queued, uncertain, applied, conflict, acknowledged, cancelled, Operation, Db, Io,
  insert_operation, close_savepoint,
}
use retro_cloud_sync.Journal.Attempt.{
  attempted, may_attempt, update_one, outside_transaction, begin_attempt, is_result_state,
  is_valid_result, may_record, recorded, record_result, may_acknowledge, may_cancel, with_state,
  acknowledge, cancel,
}
use retro_cloud_sync.Journal.Enqueue.{
  Intent, queued_operation, enqueue, enqueue_intent, enqueue_inside, enqueue_new, check_intent,
}
use retro_cloud_sync.Journal.History.{
  begin, verify, collide, accept, withdraw, give_up, ◌⟶*◌, stay, move, Descends, Evolves,
  Evolves-refl, Evolves-append, Evolves-update_where,
}

attempted-⟶* :
    (account id now : ℕ) (o : Operation)
    → may_attempt account id now o ≡ true
    → o.state ⟶* uncertain
unfolding may_attempt
attempted-⟶* account id now o h = go o.state (ground arith)
  where
    go : (s : State) → ((s ≡ queued) ⊎ (s ≡ uncertain)) → s ⟶* uncertain
    go queued e = move begin stay
    go uncertain e = stay
    go applied e = ground arith
    go conflict e = ground arith
    go acknowledged e = ground arith
    go cancelled e = ground arith

result-⟶* : (s : State) → is_result_state s ≡ true → uncertain ⟶* s
result-⟶* uncertain e = stay
result-⟶* applied e = move verify stay
result-⟶* conflict e = move collide stay
result-⟶* queued e = cc
result-⟶* acknowledged e = cc
result-⟶* cancelled e = cc

finished-⟶* : (s : State) → ((s ≡ applied) ⊎ (s ≡ acknowledged)) → s ⟶* acknowledged
finished-⟶* applied e = move accept stay
finished-⟶* acknowledged e = stay
finished-⟶* queued e = ground arith
finished-⟶* uncertain e = ground arith
finished-⟶* conflict e = ground arith
finished-⟶* cancelled e = ground arith

withdrawn-⟶* : (s : State) → ((s ≡ queued) ⊎ ((s ≡ conflict) ⊎ (s ≡ cancelled))) → s ⟶* cancelled
withdrawn-⟶* queued e = move withdraw stay
withdrawn-⟶* conflict e = move give_up stay
withdrawn-⟶* cancelled e = stay
withdrawn-⟶* applied e = ground arith
withdrawn-⟶* acknowledged e = ground arith
withdrawn-⟶* uncertain e = ground arith

update_one-Evolves :
    (stepped : Bool) (p : Operation → Bool) (f : Operation → Operation)
    (refusal : Result (Unit {0})) (db : Db)
    → ((o : Operation) → p o ≡ true → Descends o (f o))
    → Evolves db.operations (update_one stepped p f refusal db).0.operations
unfolding update_one
update_one-Evolves true p f refusal db d = Evolves-update_where p f db.operations d
update_one-Evolves false p f refusal db d = Evolves-refl db.operations

pub begin_attempt-Evolves :
    (io : Io) (account id : ℕ) (now : ℤ) (db : Db)
    → Evolves db.operations (begin_attempt io account id now db).0.operations
unfolding begin_attempt outside_transaction
begin_attempt-Evolves io account id (negsuc n) db = Evolves-refl db.operations
begin_attempt-Evolves io account id (pos now) db = ground (
  arith,
  Evolves-refl db.operations,
  update_one-Evolves (io 1) (may_attempt account id now) (attempted now)
      (err 1 "Outgoing operation is not due or cannot be attempted") db
      (λ o h. record {
        intent = unfold attempted in ground arith;
        moves = unfold attempted in attempted-⟶* account id now o h;
        attempts = unfold attempted in omega arith;
      }),
)

recorded-Descends :
    (account id : ℕ) (state : State) (status : ℕ) (etag : Option Bytes) (body : Buffer)
    (o : Operation)
    → is_valid_result state status etag body ≡ true
    → may_record account id state status o ≡ true
    → Descends o (recorded state status etag body o)
unfolding recorded may_record is_valid_result
recorded-Descends account id state status etag body o v m = record {
  intent = ground arith;
  moves =
      let u : o.state ≡ uncertain = ground arith in
      subst (λ s. s ⟶* state) (sym u) (result-⟶* state (ground arith));
  attempts = omega arith;
}

pub record_result-Evolves :
    (io : Io) (account id : ℕ) (state : Option State) (status : ℕ) (etag : Option Bytes)
    (body : Buffer) (db : Db)
    → Evolves db.operations (record_result io account id state status etag body db).0.operations
unfolding record_result outside_transaction
record_result-Evolves io account id none status etag body db = Evolves-refl db.operations
record_result-Evolves io account id (some state) status etag body db =
    elim (Bool-cases (is_valid_result state status etag body)) [
      | inl v ↦ ground (
        arith,
        v,
        Evolves-refl db.operations,
        update_one-Evolves (io 1) (may_record account id state status)
            (recorded state status etag body)
            (err 1 "Outgoing write result cannot be recorded in this state") db
            (λ o. recorded-Descends account id state status etag body o v),
      )
      | inr v ↦ ground (arith, v, Evolves-refl db.operations)
    ]

cancelled-Descends :
    (account id : ℕ) (o : Operation)
    → may_cancel account id o ≡ true
    → Descends o (with_state cancelled o)
unfolding may_cancel
cancelled-Descends account id o h = record {
  intent = ground arith;
  moves = withdrawn-⟶* o.state (ground arith);
  attempts = omega arith;
}

pub acknowledge-Evolves :
    (io : Io) (account id : ℕ) (db : Db)
    → Evolves db.operations (acknowledge io account id db).0.operations
unfolding acknowledge
acknowledge-Evolves io account id db = elim (Bool-cases (io 0)) [
  | inr t ↦ rw t (Evolves-refl db.operations)
  | inl t ↦ rw t (
      update_one-Evolves (io 1) _ _ _ db (λ o h. record {
        intent = ground arith;
        moves = unfold may_acknowledge in finished-⟶* o.state (ground arith);
        attempts = omega arith;
      }))
]

pub cancel-Evolves :
    (io : Io) (account id : ℕ) (db : Db)
    → Evolves db.operations (cancel io account id db).0.operations
unfolding cancel
cancel-Evolves io account id db = elim (Bool-cases (io 0)) [
  | inr t ↦ rw t (Evolves-refl db.operations)
  | inl t ↦ rw t (update_one-Evolves (io 1) _ _ _ db (cancelled-Descends account id))
]

enqueue_new-Evolves :
    (io : Io) (i : Intent) (db : Db) → Evolves db.operations (enqueue_new io i db).0.operations
unfolding enqueue_new insert_operation
enqueue_new-Evolves io i db =
    ground
      (arith, Evolves-refl db.operations, Evolves-append db.operations (queued_operation i db ∷ []))

pub enqueue-Evolves :
    (io : Io) (account : ℕ) (change key href : Option Bytes) (kind : Option Kind) (revision : ℤ)
    (body : Buffer) (db : Db)
    → Evolves db.operations (enqueue io account change key href kind revision body db).0.operations
unfolding enqueue enqueue_intent enqueue_inside close_savepoint
enqueue-Evolves io account change key href kind revision body db =
    elim (Result-cases (check_intent account change key href kind revision body)) [
      | inl (i, e) ↦ ground (arith, e, Evolves-refl db.operations, enqueue_new-Evolves io i db)
      | inr (c, m, e) ↦ ground (arith, e, Evolves-refl db.operations)
    ]
