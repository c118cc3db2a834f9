-- ===== src/Journal/Replay.antt =====
-- A change identifier names one request for good: `enqueue` is idempotent.
use retro_cloud_sync.Prelude.{
  ℕ, ◌≡◌, refl, sym, subst, ◌∙◌, inl, inr, true, Option, List, [], ◌∷◌, ◌++◌, arith, Option-cases,
  Result-cases, Bytes, Buffer, bytes_of, column_of, ℤ, pos, negsuc, eq_ℤ, Row, Row-append_right,
  Pairwise-rows, Result, ok, find, find_sound, find_row, same_iff, same_refl,
}
use retro_cloud_sync.Journal.Model.{
  Kind, same_kind, Operation, Db, Io, is_change, insert_operation, close_savepoint,
}
use retro_cloud_sync.Journal.Enqueue.{
  Intent, queued_operation, is_replay, enqueue, enqueue_intent, enqueue_inside, enqueue_new,
  check_intent,
}
use retro_cloud_sync.Journal.Invariant.{SameIntent, Before, WellFormed}
use retro_cloud_sync.Journal.Invariant.Kept.Inserts.{enqueue-WellFormed}
use retro_cloud_sync.Journal.Calls.{Call, run, run-WellFormed}
use retro_cloud_sync.Journal.History.Resolved.{run-Evolves, Evolves-Row}

-- The request is stored under this id.
record IsStored (i : Intent) (n : ℕ) (os : List Operation) : Type 0 where
  operation : Operation
  row : Row operation os
  change : is_change i.account i.change operation ≡ true
  replay : is_replay i operation ≡ true
  named : operation.id ≡ n

same_kind_refl : (k : Kind) → same_kind k k ≡ true
same_kind_refl Kind.create = refl
same_kind_refl Kind.update = refl
same_kind_refl Kind.delete = refl

eq_ℤ_refl : (z : ℤ) → eq_ℤ z z ≡ true
eq_ℤ_refl (pos n) = ground arith
eq_ℤ_refl (negsuc n) = ground arith

enqueue_new-IsStored :
    (io : Io) (i : Intent) (db : Db) {db' : Db} {n : ℕ}
    → enqueue_new io i db ≡ (db', ok n)
    → IsStored i n db'.operations
unfolding enqueue_new insert_operation
enqueue_new-IsStored io i db {db'} {n} e =
    let q = queued_operation i db in
    let r : Row q (db.operations ++ q ∷ []) = Row-append_right db.operations Row.here in
    record {
      operation = q;
      row = ground (arith, r);
      change = unfold queued_operation in ground (arith, same_refl i.change);
      replay =
          unfold queued_operation is_replay in
          ground (
            arith,
            same_refl i.key,
            same_refl i.href,
            same_kind_refl i.kind,
            eq_ℤ_refl i.revision,
            same_refl (bytes_of (column_of i.body)),
          );
      named = ground arith;
    }

enqueue_intent-IsStored :
    (io : Io) (i : Intent) (db : Db) {db' : Db} {n : ℕ}
    → enqueue_intent io i db ≡ (db', ok n)
    → IsStored i n db'.operations
unfolding enqueue_intent enqueue_inside close_savepoint
enqueue_intent-IsStored io i db {db'} {n} e =
    elim (Option-cases (find (is_change i.account i.change) db.operations)) [
      | inl f ↦ enqueue_new-IsStored io i db {db' = db'} {n = n} (ground (arith, f))
      | inr (o, f) ↦
          let (c, r) = find_sound (is_change i.account i.change) db.operations f in
          record {
            operation = o;
            row = ground (arith, f, r);
            change = c;
            replay = ground (arith, f);
            named = ground (arith, f);
          }
    ]

is_change-SameIntent :
    (a : ℕ) (c : Bytes) {o o' : Operation}
    → SameIntent o o'
    → is_change a c o ≡ true
    → is_change a c o' ≡ true
is_change-SameIntent a c s h = ground arith

is_replay-SameIntent :
    (i : Intent) {o o' : Operation} → SameIntent o o' → is_replay i o ≡ true → is_replay i o' ≡ true
unfolding is_replay
is_replay-SameIntent i s h = ground arith

IsStored-run :
    (i : Intent) (n : ℕ) (cs : List Call) (db : Db)
    → IsStored i n db.operations
    → IsStored i n (run cs db).operations
IsStored-run i n cs db s =
    let (o, r, d) = Evolves-Row (run-Evolves cs db) s.row in
    record {
      operation = o;
      row = r;
      change = is_change-SameIntent i.account i.change d.intent s.change;
      replay = is_replay-SameIntent i d.intent s.replay;
      named = d.intent.id ∙ s.named;
    }

-- Only one row has a change identifier of an account.
one_change :
    (a : ℕ) (c : Bytes) (os : List Operation) {x y : Operation}
    → WellFormed os
    → Row x os
    → Row y os
    → is_change a c x ≡ true
    → is_change a c y ≡ true
    → x ≡ y
one_change a c os {x} {y} w r s p q = elim (Pairwise-rows Before w.distinct r s) [
  | inl e ↦ e
  | inr (inl b) ↦ ground (arith, b.fresh_change, same_iff x.change_id c, same_iff y.change_id c)
  | inr (inr b) ↦ ground (arith, b.fresh_change, same_iff x.change_id c, same_iff y.change_id c)
]

replay_intent :
    (io : Io) (i : Intent) (n : ℕ) (db : Db)
    → WellFormed db.operations
    → IsStored i n db.operations
    → ((k : ℕ) → io k ≡ true)
    → enqueue_intent io i db ≡ (db, ok n)
unfolding enqueue_intent enqueue_inside close_savepoint
replay_intent io i n db w s t =
    elim (Option-cases (find (is_change i.account i.change) db.operations)) [
      | inl f ↦ absurd (ground (arith, f, find_row (is_change i.account i.change) s.change s.row))
      | inr (o, f) ↦
          let (c, r) = find_sound (is_change i.account i.change) db.operations f in
          let e = one_change i.account i.change db.operations w r s.row c s.change in
          let p : is_replay i o ≡ true = subst (λ y. is_replay i y ≡ true) (sym e) s.replay in
          let d : o.id ≡ n = subst (λ (y : Operation). y.id ≡ n) (sym e) s.named in
          ground (arith, f, p, d, t 0, t 1, t 5)
    ]

-- On a well-formed journal, once a request was accepted as operation n, the same request returns
-- n again and changes nothing, after any further calls of the journal, if its own statements do
-- not fail.
pub enqueue-enqueue :
    (io io' : Io) (account : ℕ) (change key href : Option Bytes) (kind : Option Kind) (revision : ℤ)
    (body : Buffer) (db : Db) (cs : List Call) {db' : Db} {n : ℕ}
    → WellFormed db.operations
    → enqueue io account change key href kind revision body db ≡ (db', ok n)
    → ((k : ℕ) → io' k ≡ true)
    → enqueue io' account change key href kind revision body (run cs db') ≡ (run cs db', ok n)
unfolding enqueue
enqueue-enqueue io io' account change key href kind revision body db cs {db'} {n} w e t =
    elim (Result-cases (check_intent account change key href kind revision body)) [
      | inr (c, m, f) ↦ ground (arith, f)
      | inl (i, f) ↦
          let s = enqueue_intent-IsStored io i db {db' = db'} {n = n} (ground (arith, f)) in
          let v : WellFormed db'.operations =
            subst (λ (r : Db × Result ℕ). WellFormed r.0.operations) e
              (enqueue-WellFormed io account change key href kind revision body db w) in
          ground (
            arith,
            f,
            replay_intent io' i n (run cs db') (run-WellFormed cs db' v) (IsStored-run i n cs db' s)
                t,
          )
    ]
