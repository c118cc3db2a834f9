-- ===== src/Journal/Invariant/Kept/Inserts.antt =====
-- The calls that insert a row: new operations, and successors of conflicts.
use retro_cloud_sync.Prelude.{
  ℕ, ◌≡◌, inl, inr, Bool, true, false, Option, none, some, arith, Bool-cases, Option-cases,
  Result-cases, Bytes, Buffer, ℤ, Result, ok, err, find, any, find-none, any-false, All-row, Row,
  same_iff,
}
use retro_cloud_sync.Journal.Model.{
  Kind, Operation, Db, Io, is_change, is_base, insert_operation, close_savepoint,
}
use retro_cloud_sync.Journal.Enqueue.{
  Intent, has_valid_body, check_intent, blocks, base_allows, queued_operation, insert_and_return,
  enqueue_new, enqueue_inside, enqueue_intent, enqueue,
}
use retro_cloud_sync.Journal.Invariant.Rows.{
  Before, body_of_size, IsProper, WellFormed, WellFormed-append, le-last_rowid,
}

-- The tables and the request when the INSERT of `enqueue` is reached.
record IsFree (i : Intent) (db : Db) : Type 0 where
  valid : has_valid_body i ≡ true
  unused : find (is_change i.account i.change) db.operations ≡ none
  unblocked : any (blocks i) db.operations ≡ false
  based : base_allows i (find (is_base i.account i.key) db.bases) ≡ true

queued_operation-IsProper : (i : Intent) (db : Db) → IsFree i db → IsProper (queued_operation i db)
unfolding queued_operation has_valid_body base_allows
queued_operation-IsProper i db f = record {
  positive = omega arith;
  pinned = λ e. ground (arith, f.based);
  absent = λ e. ground (arith, f.valid);
  present = λ e. body_of_size i.body (ground (arith, f.valid)) (ground (arith, f.valid));
  verified = λ e. cc;
}

queued_operation-Before :
    (i : Intent) (db : Db)
    → IsFree i db
    → (o : Operation) → Row o db.operations
    → Before o (queued_operation i db)
unfolding queued_operation blocks
queued_operation-Before i db f o r =
    let unused = All-row _ (find-none _ _ f.unused) r in
    let unblocked = All-row _ (any-false _ _ f.unblocked) r in
    record {
      ordered = omega (arith, le-last_rowid db.operations r);
      fresh_change = λ e c. ground (arith, same_iff o.change_id i.change);
      one_live = λ l _ e. (
        λ k. ground (arith, same_iff o.resource_key i.key),
        λ h. ground (arith, same_iff o.href i.href),
      );
    }

insert-WellFormed :
    (i : Intent) (db : Db)
    → IsFree i db
    → WellFormed db.operations
    → WellFormed (insert_and_return (queued_operation i db) db).0.operations
unfolding insert_and_return insert_operation
insert-WellFormed i db f w =
    let n = queued_operation i db in
    elim (Bool-cases (any (is_change n.account n.change_id) db.operations)) [
      | inl t ↦ rw (t, insert_and_return) w
      | inr t ↦
          rw (t, insert_and_return)
            (WellFormed-append db.operations n w (queued_operation-IsProper i db f)
              (queued_operation-Before i db f))
    ]

enqueue_new-WellFormed :
    (io : Io) (i : Intent) (db : Db)
    → has_valid_body i ≡ true
    → find (is_change i.account i.change) db.operations ≡ none
    → WellFormed db.operations
    → WellFormed (enqueue_new io i db).0.operations
unfolding enqueue_new
enqueue_new-WellFormed io i db v u w = elim (Bool-cases (any (blocks i) db.operations)) [
  | inl t ↦ ground (arith, t)
  | inr t ↦ elim (Bool-cases (base_allows i (find (is_base i.account i.key) db.bases))) [
    | inl b ↦ ground (
      arith,
      t,
      b,
      insert-WellFormed i db (record { valid = v; unused = u; unblocked = t; based = b }) w,
    )
    | inr b ↦ ground (arith, t, b)
  ]
]

pub close_savepoint-WellFormed {ℓ} :
    {A : Type ℓ} (released : Bool) (before : Db) (r : Db × Result A)
    → WellFormed before.operations
    → WellFormed r.0.operations
    → WellFormed (close_savepoint released before r).0.operations
unfolding close_savepoint
close_savepoint-WellFormed true before (after, ok a) w v = v
close_savepoint-WellFormed false before (after, ok a) w v = w
close_savepoint-WellFormed released before (after, err c m) w v = w

enqueue_inside-WellFormed :
    (io : Io) (i : Intent) (db : Db)
    → has_valid_body i ≡ true
    → WellFormed db.operations
    → WellFormed (enqueue_inside io i db).0.operations
unfolding enqueue_inside
enqueue_inside-WellFormed io i db v w = elim (Bool-cases (io 1)) [
  | inr t ↦ rw t w
  | inl t ↦ elim (Option-cases (find (is_change i.account i.change) db.operations)) [
    | inl u ↦ rw (t, u) (enqueue_new-WellFormed io i db v u w)
    | inr (o, u) ↦ rw (t, u) w
  ]
]

enqueue_intent-WellFormed :
    (io : Io) (i : Intent) (db : Db)
    → has_valid_body i ≡ true
    → WellFormed db.operations
    → WellFormed (enqueue_intent io i db).0.operations
unfolding enqueue_intent
enqueue_intent-WellFormed io i db v w = ground (
  arith,
  close_savepoint-WellFormed (io 5) db (enqueue_inside io i db) w
      (enqueue_inside-WellFormed io i db v w),
)

pub check_intent_valid :
    (account : ℕ) (change key href : Option Bytes) (kind : Option Kind) (revision : ℤ)
    (body : Buffer) {i : Intent}
    → check_intent account change key href kind revision body ≡ ok i
    → has_valid_body i ≡ true
unfolding check_intent
check_intent_valid account none key href kind revision body e = cc
check_intent_valid account (some change) none href kind revision body e = cc
check_intent_valid account (some change) (some key) none kind revision body e = cc
check_intent_valid account (some change) (some key) (some href) none revision body e = cc
check_intent_valid account (some change) (some key) (some href) (some kind) revision body e =
    ground arith

pub enqueue-WellFormed :
    (io : Io) (account : ℕ) (change key href : Option Bytes) (kind : Option Kind) (revision : ℤ)
    (body : Buffer) (db : Db)
    → WellFormed db.operations
    → WellFormed (enqueue io account change key href kind revision body db).0.operations
unfolding enqueue
enqueue-WellFormed io account change key href kind revision body db w =
    elim (Result-cases (check_intent account change key href kind revision body)) [
      | inl (i, e) ↦
          rw (e, enqueue)
            (enqueue_intent-WellFormed io i db
              (check_intent_valid account change key href kind revision body e) w)
      | inr (c, m, e) ↦ rw (e, enqueue) w
    ]
