-- ===== src/Journal/Invariant/Kept/Updates.antt =====
-- The calls that update one row: attempts, results, acknowledgement and cancelling.
use retro_cloud_sync.Prelude.{
  ℕ, ◌≡◌, inl, inr, Bool, true, false, Option, none, some, arith, Bool-cases, Bytes, Buffer, ℤ, pos,
  negsuc, Result, err,
}
use retro_cloud_sync.Journal.Model.{State, acknowledged, cancelled, is_applied, Operation, Db, Io}
use retro_cloud_sync.Journal.Attempt.{
  attempted, may_attempt, update_one, outside_transaction, begin_attempt, is_valid_result,
  may_record, recorded, record_result, may_acknowledge, may_cancel, with_state, acknowledge, cancel,
}
use retro_cloud_sync.Journal.Invariant.Rows.{
  body_of_size, IsVerified, WellFormed, SameIntent, Advances, WellFormed-update_where,
}

pub SameIntent-refl : (o : Operation) → SameIntent o o
SameIntent-refl o = ground arith

attempted-Advances :
    (account id now : ℕ) (o : Operation)
    → may_attempt account id now o ≡ true
    → Advances o (attempted now o)
unfolding attempted may_attempt
attempted-Advances account id now o h = record {
  intent = ground arith;
  live = λ _. ground arith;
  verified = λ _ e. cc;
}

-- What the checks of `record_result` say of an applied result.
recorded-IsVerified :
    (account id : ℕ) (state : State) (status : ℕ) (etag : Option Bytes) (body : Buffer)
    (o : Operation)
    → is_valid_result state status etag body ≡ true
    → may_record account id state status o ≡ true
    → is_applied state ≡ true
    → IsVerified (recorded state status etag body o)
unfolding is_valid_result may_record recorded
recorded-IsVerified account id state status etag body o v m a = record {
  status = ground arith;
  strong = λ d. ground arith;
  body = λ d. body_of_size body (ground arith) (ground arith);
}

recorded-Advances :
    (account id : ℕ) (state : State) (status : ℕ) (etag : Option Bytes) (body : Buffer)
    (o : Operation)
    → is_valid_result state status etag body ≡ true
    → may_record account id state status o ≡ true
    → Advances o (recorded state status etag body o)
recorded-Advances account id state status etag body o v m = record {
  intent = unfold recorded in ground arith;
  live = λ _. unfold may_record in ground arith;
  verified = λ _ e.
      recorded-IsVerified account id state status etag body o v m
        (unfold is_valid_result recorded in ground arith);
}

acknowledged-Advances :
    (account id : ℕ) (db : Db) (o : Operation)
    → may_acknowledge account id db o ≡ true
    → Advances o (with_state acknowledged o)
unfolding may_acknowledge
acknowledged-Advances account id db o h = record {
  intent = ground arith;
  live = λ e. cc;
  verified = λ p _.
      let v = p.verified (ground arith) in
      record { status = v.status; strong = v.strong; body = v.body };
}

pub cancelled-Advances :
    (account id : ℕ) (o : Operation)
    → may_cancel account id o ≡ true
    → Advances o (with_state cancelled o)
cancelled-Advances account id o h = record {
  intent = ground arith;
  live = λ e. cc;
  verified = λ p e. cc;
}

update_one-WellFormed :
    (stepped : Bool) (p : Operation → Bool) (f : Operation → Operation)
    (refusal : Result (Unit {0})) (db : Db)
    → ((o : Operation) → p o ≡ true → Advances o (f o))
    → WellFormed db.operations
    → WellFormed (update_one stepped p f refusal db).0.operations
unfolding update_one
update_one-WellFormed true p f refusal db a w = WellFormed-update_where p f db.operations a w
update_one-WellFormed false p f refusal db a w = w

pub begin_attempt-WellFormed :
    (io : Io) (account id : ℕ) (now : ℤ) (db : Db)
    → WellFormed db.operations
    → WellFormed (begin_attempt io account id now db).0.operations
unfolding begin_attempt outside_transaction
begin_attempt-WellFormed io account id (negsuc n) db w = w
begin_attempt-WellFormed io account id (pos now) db w = ground (
  arith,
  update_one-WellFormed (io 1) (may_attempt account id now) (attempted now)
      (err 1 "Outgoing operation is not due or cannot be attempted") db
      (attempted-Advances account id now) w,
)

pub record_result-WellFormed :
    (io : Io) (account id : ℕ) (state : Option State) (status : ℕ) (etag : Option Bytes)
    (body : Buffer) (db : Db)
    → WellFormed db.operations
    → WellFormed (record_result io account id state status etag body db).0.operations
unfolding record_result outside_transaction
record_result-WellFormed io account id none status etag body db w = w
record_result-WellFormed io account id (some state) status etag body db w =
    elim (Bool-cases (is_valid_result state status etag body)) [
      | inl v ↦ ground (
        arith,
        v,
        update_one-WellFormed (io 1) (may_record account id state status)
            (recorded state status etag body)
            (err 1 "Outgoing write result cannot be recorded in this state") db
            (λ o. recorded-Advances account id state status etag body o v) w,
      )
      | inr v ↦ rw v w
    ]

pub acknowledge-WellFormed :
    (io : Io) (account id : ℕ) (db : Db)
    → WellFormed db.operations
    → WellFormed (acknowledge io account id db).0.operations
unfolding acknowledge
acknowledge-WellFormed io account id db w = elim (Bool-cases (io 0)) [
  | inl t ↦ rw t (update_one-WellFormed (io 1) _ _ _ db (acknowledged-Advances account id db) w)
  | inr t ↦ rw t w
]

pub cancel-WellFormed :
    (io : Io) (account id : ℕ) (db : Db)
    → WellFormed db.operations
    → WellFormed (cancel io account id db).0.operations
unfolding cancel
cancel-WellFormed io account id db w = elim (Bool-cases (io 0)) [
  | inl t ↦ rw t (update_one-WellFormed (io 1) _ _ _ db (cancelled-Advances account id) w)
  | inr t ↦ rw t w
]
