-- ===== src/Journal/Due.antt =====
-- Scheduling: which operation is due, and what an attempt does to it.
use native.Mathlib.Numerals.{towards_suc}
use retro_cloud_sync.Prelude.{
  ℕ, zero, suc, ◌+◌, ◌*◌, ◌-◌, ◌^◌, ◌≤◌, ◌<◌, ◌≡◌, refl, ap, ◌⊎◌, none, inl, inr, Bool, true, false,
  List, [], ◌∷◌, arith, Bool-cases, Option-cases, ℤ, pos, Row, All-row, All-of_row, Pairwise,
  count_where, count_where_none, update_where_row, find, find_sound, find-none, find_first, ok,
}
use retro_cloud_sync.Journal.Model.{uncertain, Operation, Db, Io}
use retro_cloud_sync.Journal.Attempt.{
  backoff, attempted, may_attempt, update_one, outside_transaction, begin_attempt, is_due, next,
  llong_max,
}
use retro_cloud_sync.Journal.Invariant.{Before, IsProper, WellFormed, SameIntent}

-- Rows with one rowid: an update that names it changes one row at most.
pub count-row :
    (p : Operation → Bool) (id : ℕ) (os : List Operation) {o : Operation}
    → ((x : Operation) → p x ≡ true → x.id ≡ id)
    → Pairwise Before os
    → Row o os
    → p o ≡ true
    → count_where p os ≡ 1
unfolding count_where
count-row p id [] only w r t = elim r [ ]
count-row p id (x ∷ os) only w Row.here t =
    rw t (omega (arith, count_where_none p os (All-of_row _ os later)))
  where
    later : (y : Operation) → Row y os → p y ≡ false
    later y s = elim (Bool-cases (p y)) [
      | inl q ↦ absurd (omega (arith, (All-row _ w.0 s).ordered, only x t, only y q))
      | inr q ↦ q
    ]
count-row p id (x ∷ os) {o} only w (Row.there r) t = elim (Bool-cases (p x)) [
  | inl q ↦ absurd (omega (arith, (All-row _ w.0 r).ordered, only x q, only o t))
  | inr q ↦ rw q (omega (arith, count-row p id os only w.1 r t))
]

doubled : (n : ℕ) → n < 10 → (5 ≤ 5 * 2 ^ n) × (5 * 2 ^ n ≤ 2560)
doubled zero h = omega arith
doubled (suc zero) h = omega arith
doubled (suc (suc zero)) h = omega arith
doubled (suc (suc (suc zero))) h = omega arith
doubled (suc (suc (suc (suc zero)))) h = omega arith
doubled (suc (suc (suc (suc (suc zero))))) h = omega arith
doubled (suc (suc (suc (suc (suc (suc zero)))))) h = omega arith
doubled (suc (suc (suc (suc (suc (suc (suc zero))))))) h = omega arith
doubled (suc (suc (suc (suc (suc (suc (suc (suc zero)))))))) h = omega arith
doubled (suc (suc (suc (suc (suc (suc (suc (suc (suc zero))))))))) h = omega arith
doubled (suc (suc (suc (suc (suc (suc (suc (suc (suc (suc n)))))))))) h = absurd (omega arith)

-- The delay before the next attempt is at least five seconds and never more than an hour.
pub backoff_bounds : (n : ℕ) → (5 ≤ backoff n) × (backoff n ≤ 3600)
unfolding backoff
backoff_bounds n = ground (arith, doubled n)

-- The delay never shrinks from one attempt to the next.
pub backoff_mono : (n : ℕ) → backoff n ≤ backoff (n + 1)
unfolding backoff
backoff_mono n =
    let twice : 2 ^ (n + 1) ≡ 2 * 2 ^ n = simp towards_suc (omega arith) in
    ground (arith, doubled n, twice)

-- An attempt that the journal accepts, told apart from the tables before and after it.
pub record Attempt (account id now : ℕ) (before after : List Operation) : Type 0 where
  pub operation : Operation
  pub stored : Row operation before
  pub due : is_due account (pos now) operation ≡ true
  pub named : operation.id ≡ id
  pub updated : Operation
  pub row : Row updated after
  pub intent : SameIntent operation updated
  pub is_uncertain_now : updated.state ≡ uncertain
  pub counted : updated.attempts ≡ operation.attempts + 1
  pub forgotten :
      (updated.http_status ≡ none) × (updated.result_etag ≡ none) × (updated.result_body ≡ none)
  pub later : now + 5 ≤ updated.retry_at
  pub within_hour : updated.retry_at ≤ now + 3600
  pub fits : updated.retry_at ≤ llong_max

may_attempt-is_due :
    (account id now : ℕ) (o : Operation)
    → may_attempt account id now o ≡ true
    → (is_due account (pos now) o ≡ true) × (o.id ≡ id)
unfolding may_attempt is_due
may_attempt-is_due account id now o h = ground arith

-- A call of begin_attempt that returns 1 has attempted one due operation of the account with
-- this id: in its place the table has an operation with the same intent that is uncertain,
-- counts one attempt more, has no result of an earlier attempt, and has its next attempt between
-- five seconds and an hour ahead, in the range of long long.
pub begin_attempt_ok :
    (io : Io) (account id now : ℕ) (db : Db)
    → (begin_attempt io account id (pos now) db).1 ≡ ok tt
    → Attempt account id now db.operations (begin_attempt io account id (pos now) db).0.operations
unfolding begin_attempt outside_transaction update_one
begin_attempt_ok io account id now db e =
    elim (Option-cases (find (may_attempt account id now) db.operations)) [
      | inl n ↦ absurd (ground (arith, count_where_none _ _ (find-none _ _ n)))
      | inr (o, f) ↦
          let (t, r) = find_sound (may_attempt account id now) db.operations f in
          let (due, named) = may_attempt-is_due account id now o t in
          let bounds = backoff_bounds o.attempts in
          record {
            operation = o;
            stored = r;
            due = due;
            named = named;
            updated = attempted now o;
            row = ground (arith, update_where_row (may_attempt account id now) (attempted now) t r);
            intent = unfold attempted in ground arith;
            is_uncertain_now = unfold attempted in refl;
            counted = unfold attempted in refl;
            forgotten = unfold attempted in (refl, refl, refl);
            later = unfold attempted in omega (arith, bounds);
            within_hour = unfold attempted in omega (arith, bounds);
            fits = unfold attempted in ground (arith, bounds);
          }
    ]

-- On a well-formed journal with no failing statement, outside a transaction and before the end
-- of time, begin_attempt returns 1 for every due operation of the account.
pub begin_attempt_due :
    (io : Io) (account id now : ℕ) (db : Db) {o : Operation}
    → WellFormed db.operations
    → db.autocommit ≡ true
    → io 0 ≡ true
    → io 1 ≡ true
    → now ≤ llong_max - 3600
    → Row o db.operations
    → is_due account (pos now) o ≡ true
    → o.id ≡ id
    → (begin_attempt io account id (pos now) db).1 ≡ ok tt
unfolding begin_attempt outside_transaction update_one
begin_attempt_due io account id now db {o} w auto prepared stepped time r due named =
    let one =
      count-row (may_attempt account id now) id db.operations {o = o}
        (λ x t. (may_attempt-is_due account id now x t).1) w.distinct r
        (unfold may_attempt is_due in ground arith) in
    ground (arith, one)

-- A due operation of the account with the least id.
pub record Scheduled (account : ℕ) (now : ℤ) (os : List Operation) (o : Operation) : Type 0 where
  pub stored : Row o os
  pub due : is_due account now o ≡ true
  pub least : (x : Operation) → Row x os → is_due account now x ≡ true → o.id ≤ x.id

-- On a well-formed journal with no failing statement, next returns 0 and no operation of the
-- account is due, or it returns the positive id of a due operation, which is the least id of
-- those that are due.
pub next_lem :
    (io : Io) (account : ℕ) (now : ℤ) (db : Db)
    → WellFormed db.operations
    → io 0 ≡ true
    → ((next io account now db ≡ ok 0)
        × ((x : Operation) → Row x db.operations → is_due account now x ≡ false))
      ⊎ ((o : Operation) × (next io account now db ≡ ok o.id)
          × (0 < o.id)
          × Scheduled account now db.operations o)
unfolding next
next_lem io account now db w t = elim (Option-cases (find (is_due account now) db.operations)) [
  | inl n ↦ inl (ground (arith, n), λ x r. All-row _ (find-none _ _ n) r)
  | inr (o, f) ↦
      let (due, r) = find_sound (is_due account now) db.operations f in
      inr (
        o,
        ground (arith, f),
        (All-row IsProper w.proper r).positive,
        record {
          stored = r;
          due = due;
          least = λ x s d.
              elim (find_first Before (is_due account now) db.operations w.distinct f s d) [
                | inl e ↦ omega (arith, ap (λ (y : Operation). y.id) e)
                | inr b ↦ omega (arith, b.ordered)
              ];
        },
      )
]
