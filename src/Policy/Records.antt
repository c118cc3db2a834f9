-- ===== src/Policy/Records.antt =====
-- Comparison of records, graphs and receipts: `RCRecordsEqual`, `RCGraphsEqual` and
-- `RCReceiptMatches` of source/shared/RCSyncPolicy.c. The adapter's functions are parameters.
use retro_cloud_sync.Prelude.{
  ℕ, Bool, true, false, not, ◌&&◌, ◌||◌, Option, none, some, is_some, List, [], ◌∷◌, ◌==◌, ◌≡◌,
  arith, if◌then◌else◌, ℤ, pos, negsuc, eq_ℤ, Bytes, codes, Row, refl,
}
use retro_cloud_sync.Policy.Lists.{is}
use retro_cloud_sync.Policy.Fields.{named, ignored_native_field, unordered_field}

-- `RCRecordAccess`: a record that is NULL is `none`; keys are never NULL.
pub record Access (Key : Type 0) : Type 0 where
  pub count : Option Key → ℕ
  pub keys : Option Key → List Key
  pub get : Option Key → Key → Option Key
  pub text : Key → Option Bytes
  pub entity : Option Key → Option Bytes
  pub property_equal : Option Bytes → Option Bytes → Option Key → Option Key → Bool
  pub unordered_equal : Option Key → Option Key → Bool
  pub alarm_equal : Option Key → Option Key → ℤ
  pub tombstone : Option Key → Bool
  pub scoped_equal : Option Key → Option Key → Option Key → Bool

unfoldable pub all {ℓ} : {A : Type ℓ} → (A → Bool) → List A → Bool
all p [] = true
all p (x ∷ xs) = p x && all p xs

pub all_row {ℓ} :
    {A : Type ℓ} (p : A → Bool) (xs : List A) {x : A} → all p xs ≡ true → Row x xs → p x ≡ true
unfolding all
all_row p (x ∷ xs) h Row.here = ground arith
all_row p (y ∷ xs) {x} h (Row.there r) = all_row p xs {x = x} (ground arith) r
all_row p [] h r = elim r [ ]

pub all_of_row {ℓ} :
    {A : Type ℓ} (p : A → Bool) (xs : List A) → ((x : A) → Row x xs → p x ≡ true) → all p xs ≡ true
unfolding all
all_of_row p [] h = refl
all_of_row p (x ∷ xs) h = ground (arith, h x Row.here, all_of_row p xs (λ y r. h y (Row.there r)))

module _ {Key : Type 0} (ops : Access Key) where
  -- The entity of both records, NULL if they differ.
  unfoldable pub common_entity : Option Key → Option Key → Option Bytes
  common_entity a b = if is (ops.entity a) (ops.entity b) then ops.entity a else none

  -- `alarm`: -1 for every entity but an audio alarm.
  unfoldable pub alarm_of : Option Key → Option Key → ℤ
  alarm_of a b =
      if named (common_entity a b) (codes "com.apple.calendars.AudioAlarm")
      then ops.alarm_equal a b
      else negsuc 0

  -- One turn of the loop over the keys, which goes on if the field is equal or left out.
  unfoldable pub field_equal : Option Key → Option Key → Key → Bool
  field_equal a b key =
      let name = ops.text key in
      let entity = common_entity a b in
      ignored_native_field entity name
      || (eq_ℤ (alarm_of a b) (pos 1)
          && (named name (codes "sound") || named name (codes "com.apple.ical.sound")))
      || ops.property_equal entity name (ops.get a key) (ops.get b key)
      || (unordered_field name && ops.unordered_equal (ops.get a key) (ops.get b key))

  -- `RCRecordsEqual`: the keys of `a`, then those of `b` that `a` has no value for.
  unfoldable pub records_equal : Option Key → Option Key → Bool
  records_equal none none = true
  records_equal none (some b) = false
  records_equal (some a) none = false
  records_equal (some a) (some b) =
      if eq_ℤ (alarm_of (some a) (some b)) (pos 0)
      then false
      else all (field_equal (some a) (some b)) (ops.keys (some a))
        && all (λ key. is_some (ops.get (some a) key) || field_equal (some a) (some b) key)
            (ops.keys (some b))

  -- `RCGraphsEqual`.
  unfoldable pub graphs_equal : Option Key → Option Key → Bool
  graphs_equal none none = true
  graphs_equal none (some b) = false
  graphs_equal (some a) none = false
  graphs_equal (some a) (some b) =
      if not (ops.count (some a) == ops.count (some b))
      then false
      else all (λ key. records_equal (ops.get (some a) key) (ops.get (some b) key))
          (ops.keys (some a))

  -- One turn of the loop over a receipt.
  unfoldable pub entry_matches : Option Key → Option Key → Option Key → Key → Bool
  entry_matches current receipt scopes key =
      let expected = ops.get receipt key in
      let stored = ops.get current key in
      let fields = ops.get scopes key in
      if ops.tombstone expected
      then not (is_some stored)
      else if is_some fields && ops.count fields == 0
      then true
      else is_some stored && ops.scoped_equal stored expected fields

  -- `RCReceiptMatches`.
  unfoldable pub receipt_matches : Option Key → Option Key → Option Key → Bool
  receipt_matches current receipt scopes =
      all (entry_matches current receipt scopes) (ops.keys receipt)
