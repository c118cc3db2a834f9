-- ===== src/Journal/Invariant/Rows.antt =====
-- The invariant of `write_operations`, and how one row's update or insertion keeps it.
use retro_cloud_sync.Prelude.{
  ◌==◌, Buffer, null, at, size, is_null, column_of, ℕ, ◌≤◌, ◌<◌, ◌≡◌, ◌≢◌, sym, subst, Bool, true,
  false, ◌||◌, Option, none, some, List, [], ◌∷◌, ◌++◌, arith, if◌then◌else◌, Bytes, All,
  All-of_row, All-append, All-update_where, Row, Pairwise, Pairwise-append, Pairwise-update_where,
  update_where,
}
use retro_cloud_sync.Journal.Model.{
  is_create, is_delete, is_live, is_applied, is_acknowledged, Operation, last_rowid,
}
use retro_cloud_sync.Journal.Etag.{etag_is_strong}

-- Two rows in rowid order: their change identifiers differ in one account, and if both are live
-- so do their resources and their hrefs.
pub record Before (x y : Operation) : Type 0 where
  pub ordered : x.id < y.id
  pub fresh_change : x.account ≡ y.account → x.change_id ≢ y.change_id
  pub one_live :
      is_live x.state ≡ true
      → is_live y.state ≡ true
      → x.account ≡ y.account
      → (x.resource_key ≢ y.resource_key) × (x.href ≢ y.href)

-- A body that the program accepts: there and not empty.
pub data HasBody : Option Bytes → Type 0 where
  has_body : {c : ℕ} {rest : Bytes} → HasBody (some (c ∷ rest))

pub body_of_size :
    (body : Buffer) → is_null body ≡ false → (size body == 0) ≡ false → HasBody (column_of body)
body_of_size (null n) h s = cc
body_of_size (at []) h s = cc
body_of_size (at (c ∷ rest)) h s = has_body

-- The server was seen to hold the result: gone after a delete, or a body with a strong tag.
pub record IsVerified (o : Operation) : Type 0 where
  pub status : o.http_status ≡ (if is_delete o.kind then some 404 else some 200)
  pub strong : is_delete o.kind ≡ false → etag_is_strong o.result_etag ≡ true
  pub body : is_delete o.kind ≡ false → HasBody o.result_body

pub record IsProper (o : Operation) : Type 0 where
  pub positive : 0 < o.id
  -- A conditional write is possible: all but creates are pinned to a strong tag.
  pub pinned : is_create o.kind ≡ false → etag_is_strong o.base_etag ≡ true
  pub absent : is_delete o.kind ≡ true → o.desired_body ≡ none
  pub present : is_delete o.kind ≡ false → HasBody o.desired_body
  pub verified : (is_applied o.state || is_acknowledged o.state) ≡ true → IsVerified o

pub record WellFormed (os : List Operation) : Type 0 where
  pub distinct : Pairwise Before os
  pub proper : All IsProper os

-- The intent of an operation, which no call changes once it is stored.
pub record SameIntent (o o' : Operation) : Type 0 where
  pub id : o'.id ≡ o.id
  pub account : o'.account ≡ o.account
  pub change_id : o'.change_id ≡ o.change_id
  pub resource_key : o'.resource_key ≡ o.resource_key
  pub href : o'.href ≡ o.href
  pub kind : o'.kind ≡ o.kind
  pub local_revision : o'.local_revision ≡ o.local_revision
  pub base_etag : o'.base_etag ≡ o.base_etag
  pub base_body : o'.base_body ≡ o.base_body
  pub desired_body : o'.desired_body ≡ o.desired_body

-- An update of a row that keeps the intent, brings nothing back to life, and sets `applied` or
-- `acknowledged` only on a verified result.
pub record Advances (o o' : Operation) : Type 0 where
  pub intent : SameIntent o o'
  pub live : is_live o'.state ≡ true → is_live o.state ≡ true
  pub verified :
      IsProper o → (is_applied o'.state || is_acknowledged o'.state) ≡ true → IsVerified o'

Before-left : (x x' y : Operation) → Advances x x' → Before x y → Before x' y
Before-left x x' y a b = record {
  ordered = omega (arith, b.ordered, a.intent.id);
  fresh_change = λ e f. b.fresh_change (cc (a.intent.account)) (cc (a.intent.change_id));
  one_live = λ l m e.
      let n = b.one_live (a.live l) m (cc (a.intent.account)) in
      (λ f. n.0 (cc (a.intent.resource_key)), λ f. n.1 (cc (a.intent.href)));
}

Before-right : (x y y' : Operation) → Advances y y' → Before x y → Before x y'
Before-right x y y' a b = record {
  ordered = omega (arith, b.ordered, a.intent.id);
  fresh_change = λ e f. b.fresh_change (cc (a.intent.account)) (cc (a.intent.change_id));
  one_live = λ l m e.
      let n = b.one_live l (a.live m) (cc (a.intent.account)) in
      (λ f. n.0 (cc (a.intent.resource_key)), λ f. n.1 (cc (a.intent.href)));
}

IsProper-advance : (o o' : Operation) → Advances o o' → IsProper o → IsProper o'
IsProper-advance o o' a p = record {
  positive = omega (arith, p.positive, a.intent.id);
  pinned = λ e. cc (p.pinned (cc (a.intent.kind)), a.intent.base_etag);
  absent = λ e. cc (p.absent (cc (a.intent.kind)), a.intent.desired_body);
  present = λ e. subst HasBody (sym a.intent.desired_body) (p.present (cc (a.intent.kind)));
  verified = λ e. a.verified p e;
}

pub WellFormed-update_where :
    (p : Operation → Bool) (f : Operation → Operation) (os : List Operation)
    → ((o : Operation) → p o ≡ true → Advances o (f o))
    → WellFormed os
    → WellFormed (update_where p f os)
WellFormed-update_where p f os a w = record {
  distinct =
      Pairwise-update_where Before p f os (λ x y t b. Before-left x (f x) y (a x t) b)
        (λ x y t b. Before-right x y (f y) (a y t) b) w.distinct;
  proper = All-update_where IsProper p f os (λ o t h. IsProper-advance o (f o) (a o t) h) w.proper;
}

pub le-last_rowid : (os : List Operation) {o : Operation} → Row o os → o.id ≤ last_rowid os
unfolding last_rowid
le-last_rowid [] r = elim r [ ]
le-last_rowid (o ∷ os) Row.here = omega arith
le-last_rowid (o ∷ os) (Row.there r) = omega (arith, le-last_rowid os r)

-- A new row behind the others.
pub WellFormed-append :
    (os : List Operation) (n : Operation)
    → WellFormed os
    → IsProper n
    → ((o : Operation) → Row o os → Before o n)
    → WellFormed (os ++ n ∷ [])
WellFormed-append os n w p b = record {
  distinct = Pairwise-append Before os n w.distinct (All-of_row (λ o. Before o n) os b);
  proper = All-append IsProper os (n ∷ []) w.proper (p, tt);
}
