-- ===== src/Journal/Invariant/Kept/Successors.antt =====
-- `resolve_conflict` keeps the invariant: the successor takes the place of the conflict.
use retro_cloud_sync.Prelude.{
  ◌==◌, refl, find, Option-cases, err, Result, ◌+◌, Result-cases, Bool, find_sound, ℕ, ◌≡◌, ◌≢◌,
  sym, subst, inl, inr, true, false, Option, none, some, [], ◌∷◌, ◌++◌, arith, if◌then◌else◌,
  Bool-cases, Buffer, null, at, is_null, column_of, update_where, ok, any, any-false, All-row, Row,
  Row-update_where, update_where-append, same_iff, Pairwise-rows,
}
use retro_cloud_sync.Journal.Model.{
  Resolution, is_operation, insert_operation, close_savepoint, Kind, cancelled, is_delete, is_live,
  Operation, Db, Io, is_change,
}
use retro_cloud_sync.Journal.Attempt.{get, may_cancel, with_state, update_one, cancel}
use retro_cloud_sync.Journal.Resolve.{
  resolve_conflict, resolve_inside, resolve_new, Decision, check_decision, is_usable, successor,
  insert_resolution, without_attention, clear_attention, retire,
}
use retro_cloud_sync.Journal.Invariant.Kept.Updates.{cancelled-Advances}
use retro_cloud_sync.Journal.Invariant.Rows.{
  Before, HasBody, has_body, IsProper, WellFormed, WellFormed-update_where, WellFormed-append,
  le-last_rowid,
}

-- What the argument checks say of a decision.
record IsDecision (d : Decision) : Type 0 where
  absent : is_delete d.kind ≡ true → is_null d.body ≡ true
  present : is_delete d.kind ≡ false → HasBody (column_of d.body)

check_decision_valid :
    (kind : Option Kind) (body receipt : Buffer) {d : Decision}
    → check_decision kind body receipt ≡ ok d
    → IsDecision d
unfolding check_decision
check_decision_valid none body receipt e = cc
check_decision_valid (some kind) body (null n) e = cc
check_decision_valid (some kind) (null n) (at receipt) e = record {
  absent = λ k. ground arith;
  present = λ k. ground arith;
}
check_decision_valid (some kind) (at []) (at receipt) e = record {
  absent = λ k. ground arith;
  present = λ k. ground arith;
}
check_decision_valid (some kind) (at (c ∷ rest)) (at receipt) {d} e = record {
  absent = λ k. ground arith;
  present = λ k. let q : d.body ≡ at (c ∷ rest) = ground arith in rw q has_body;
}

-- The conflict when its successor is inserted.
record IsResolvable (account : ℕ) (old : Operation) (d : Decision) (db : Db) : Type 0 where
  decided : IsDecision d
  row : Row old db.operations
  owner : old.account ≡ account
  usable : is_usable d.kind old ≡ true
  unused :
      any (is_change (successor old d db).account (successor old d db).change_id) db.operations
      ≡ false

module _ (account : ℕ) (old : Operation) (d : Decision) (db : Db)
    (u : IsResolvable account old d db) where
  successor-IsProper : IsProper (successor old d db)
  unfolding successor is_usable
  successor-IsProper = record {
    positive = omega arith;
    pinned = λ e. ground (arith, u.usable);
    absent = λ e. ground arith;
    present = λ e. subst HasBody (ground arith) (u.decided.present e);
    verified = λ e. cc;
  }

  old_cancelled : may_cancel account old.id old ≡ true
  unfolding may_cancel is_usable
  old_cancelled = ground (arith, u.usable, u.owner)

  old_live : is_live old.state ≡ true
  unfolding is_usable
  old_live = ground (arith, u.usable)

  -- A row that is live after the conflict was cancelled does not share its resource or its href.
  other_live :
      (o : Operation)
      → WellFormed db.operations
      → Row o db.operations
      → may_cancel account old.id o ≡ false
      → is_live o.state ≡ true
      → o.account ≡ old.account
      → (o.resource_key ≢ old.resource_key) × (o.href ≢ old.href)
  other_live o w r c l a = elim (Pairwise-rows Before w.distinct r u.row) [
    | inl e ↦ cc (old_cancelled, e)
    | inr (inl b) ↦ b.one_live l old_live a
    | inr (inr b) ↦ let n = b.one_live old_live l (sym a) in (λ e. n.0 (sym e), λ e. n.1 (sym e))
  ]

  successor_fresh :
      (o : Operation)
      → Row o db.operations
      → o.account ≡ (successor old d db).account
      → o.change_id ≢ (successor old d db).change_id
  successor_fresh o r a c =
      let unused = All-row _ (any-false _ _ u.unused) r in
      ground (arith, same_iff o.change_id (successor old d db).change_id)

  -- The row `o` after the update, against the successor.
  successor-Before :
      (o : Operation)
      → WellFormed db.operations
      → Row o db.operations
      → Before
          (if may_cancel account old.id o then with_state cancelled o else o)
          (successor old d db)
  successor-Before o w r = elim (Bool-cases (may_cancel account old.id o)) [
    | inl c ↦ rw c (record {
      ordered = unfold successor in omega (arith, le-last_rowid db.operations r);
      fresh_change = λ a e. successor_fresh o r a e;
      one_live = λ l _ _. cc;
    })
    | inr c ↦ rw c (record {
      ordered = unfold successor in omega (arith, le-last_rowid db.operations r);
      fresh_change = λ a e. successor_fresh o r a e;
      one_live = λ l _ a. unfold successor in other_live o w r c l a;
    })
  ]

  -- The table after the INSERT and the UPDATE.
  succeeded-WellFormed :
      WellFormed db.operations
      → WellFormed (
          update_where
            (may_cancel account old.id)
            (with_state cancelled)
            (db.operations ++ successor old d db ∷ []))
  succeeded-WellFormed w =
      rw (update_where-append, untouched)
        (WellFormed-append _ _
          (WellFormed-update_where (may_cancel account old.id) (with_state cancelled) db.operations
            (cancelled-Advances account old.id) w)
          successor-IsProper before)
    where
      untouched :
          update_where (may_cancel account old.id) (with_state cancelled) (successor old d db ∷ [])
          ≡ successor old d db ∷ []
      untouched =
          unfold update_where may_cancel successor in
          ground (arith, le-last_rowid db.operations u.row)

      before :
          (o : Operation)
          → Row o (update_where (may_cancel account old.id) (with_state cancelled) db.operations)
          → Before o (successor old d db)
      before o r =
          let (x, s, e) = Row-update_where _ _ db.operations r in rw e (successor-Before x w s)

  -- A successful call from the INSERT on.
  retire-WellFormed :
      (io : Io) {db' : Db} {n : ℕ}
      → WellFormed db.operations
      → (retire io account old
          (successor old d db)
          d
          (record db { operations = db.operations ++ successor old d db ∷ [] }))
        ≡ (db', ok n)
      → WellFormed db'.operations
  unfolding retire clear_attention insert_resolution without_attention cancel update_one
  retire-WellFormed io w e = ground (arith, succeeded-WellFormed w)

close_savepoint_success {ℓ} :
    {A : Type ℓ} (released : Bool) (before : Db) (r : Db × Result A)
    → WellFormed before.operations
    → ((db : Db) (a : A) → r ≡ (db, ok a) → WellFormed db.operations)
    → WellFormed (close_savepoint released before r).0.operations
unfolding close_savepoint
close_savepoint_success true before (after, ok a) w f = f after a refl
close_savepoint_success false before (after, ok a) w f = w
close_savepoint_success released before (after, err c m) w f = w

resolve_new-WellFormed :
    (io : Io) (account : ℕ) (old : Operation) (d : Decision) (db : Db) {db' : Db} {n : ℕ}
    → IsDecision d
    → Row old db.operations
    → old.account ≡ account
    → WellFormed db.operations
    → resolve_new io account old d db ≡ (db', ok n)
    → WellFormed db'.operations
unfolding resolve_new insert_operation
resolve_new-WellFormed io account old d db {db'} {n = m} v r o w e =
    let n = successor old d db in
    elim (Bool-cases (any (is_change n.account n.change_id) db.operations)) [
      | inl t ↦ ground (arith, t)
      | inr t ↦ elim (Bool-cases (is_usable d.kind old)) [
        | inl u ↦
            retire-WellFormed account old d db
              (record { decided = v; row = r; owner = o; usable = u; unused = t }) io {db' = db'}
              {n = m} w (ground (arith, t, u))
        | inr u ↦ ground (arith, u)
      ]
    ]

get-Row :
    (io : Io) (account id : ℕ) (db : Db) {o : Operation}
    → get io account id db ≡ ok o
    → Row o db.operations × (o.account ≡ account) × (o.id ≡ id)
unfolding get
get-Row io account id db {o} e =
    let (p, r) = find_sound (is_operation account id) db.operations {a = o} (ground arith) in
    (r, ground arith, ground arith)

resolve_inside-WellFormed :
    (io : Io) (account id : ℕ) (d : Decision) (db : Db) {db' : Db} {n : ℕ}
    → IsDecision d
    → WellFormed db.operations
    → resolve_inside io account id d db ≡ (db', ok n)
    → WellFormed db'.operations
unfolding resolve_inside
resolve_inside-WellFormed io account id d db {db'} {n} v w e =
    elim (Result-cases (get (λ k. io (1 + k)) account id db)) [
      | inr (c, m, g) ↦ ground (arith, g)
      | inl (old, g) ↦
          let (r, a, i) = get-Row _ account id db g in
          elim (Option-cases (find (λ (r : Resolution). r.operation_id == id) db.resolutions)) [
            | inl t ↦
                resolve_new-WellFormed io account old d db {db' = db'} {n = n} v r a w
                  (ground (arith, g, t))
            | inr (s, t) ↦ ground (arith, g, t)
          ]
    ]

pub resolve_conflict-WellFormed :
    (io : Io) (account id : ℕ) (kind : Option Kind) (body receipt : Buffer) (db : Db)
    → WellFormed db.operations
    → WellFormed (resolve_conflict io account id kind body receipt db).0.operations
unfolding resolve_conflict
resolve_conflict-WellFormed io account id kind body receipt db w =
    elim (Result-cases (check_decision kind body receipt)) [
      | inr (c, m, e) ↦ rw (e, resolve_conflict) w
      | inl (d, e) ↦
          let closed =
            close_savepoint_success (io 9) db (resolve_inside io account id d db) w (λ db' n s.
              resolve_inside-WellFormed io account id d db
                (check_decision_valid kind body receipt e) w s) in
          ground (arith, e, closed)
    ]
