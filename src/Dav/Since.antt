-- ===== src/Dav/Since.antt =====
-- Source: source/shared/RCDAVClient.c. The start of a calendar query, and the query.
use retro_cloud_sync.Prelude.{
  ℕ, zero, suc, ◌≤◌, ◌<◌, ◌≡◌, ◌↔◌, ◌⊎◌, refl, inl, inr, true, Bool-cases, Option, none, some, List,
  [], ◌∷◌, ◌++◌, length, Bytes, codes, All, arith, Result, err,
}
use retro_cloud_sync.Http.Model.{Trace, Client, Network}
use retro_cloud_sync.Dav.Tree.{Xml}
use retro_cloud_sync.Dav.Inventory.{
  Resource, char_at, has_digits, is_utc, query_head, query_tail, list_resources,
  list_calendar_resources_since,
}

-- A character of a UTC date-time: none of them means anything in XML.
abbrev pub IsPlain : ℕ → Type 0
IsPlain c = ((b'0' ≤ c) × (c ≤ b'9')) ⊎ ((c ≡ b'T') ⊎ (c ≡ b'Z'))

has_digits-IsPlain :
    (text : Bytes) (n i : ℕ)
    → has_digits text n ≡ true
    → i < n
    → (i ≡ 8) ⊎ ((b'0' ≤ char_at text i) × (char_at text i ≤ b'9'))
unfolding has_digits
has_digits-IsPlain text zero i h l = absurd (omega (arith, l))
has_digits-IsPlain text (suc n) i h l = ground (arith, has_digits-IsPlain text n i)

-- A UTC date-time: eight digits, T, six digits, Z.
pub record IsUtc (text : Bytes) : Type 0 where
  pub whole : length text ≡ 16
  pub middle : char_at text 8 ≡ b'T'
  pub zone : char_at text 15 ≡ b'Z'
  pub digits : (i : ℕ) → i < 15 → (i ≡ 8) ⊎ ((b'0' ≤ char_at text i) × (char_at text i ≤ b'9'))

digits-has_digits :
    (text : Bytes) (n : ℕ)
    → ((i : ℕ) → i < n → (i ≡ 8) ⊎ ((b'0' ≤ char_at text i) × (char_at text i ≤ b'9')))
    → has_digits text n ≡ true
unfolding has_digits
digits-has_digits text zero f = refl
digits-has_digits text (suc n) f =
    ground (arith, digits-has_digits text n (λ i l. f i (omega (arith, l))), f n (omega arith))

is_utc_iff : (start : Bytes) → (is_utc start ≡ true) ↔ IsUtc start
unfolding is_utc
is_utc_iff start = (
  (λ h. record {
    whole = ground arith;
    middle = ground arith;
    zone = ground arith;
    digits = λ i l. has_digits-IsPlain start 15 i (ground arith) l;
  }),
  (λ u. ground (arith, u.whole, u.middle, u.zone, digits-has_digits start 15 u.digits)),
)

is_utc-length : (start : Bytes) → is_utc start ≡ true → length start ≡ 16
unfolding is_utc
is_utc-length start h = ground arith

is_utc-IsPlain_at :
    (start : Bytes) (i : ℕ) → is_utc start ≡ true → i < 16 → IsPlain (char_at start i)
unfolding is_utc
is_utc-IsPlain_at start i h l = ground (arith, has_digits-IsPlain start 15 i)

all_at :
    (P : ℕ → Type 0) (text : Bytes) → ((i : ℕ) → i < length text → P (char_at text i)) → All P text
all_at P [] f = tt
all_at P (c ∷ text) f = (f 0 (omega arith), all_at P text (λ i l. f (suc i) (omega (arith, l))))

is_utc-IsPlain : (start : Bytes) → is_utc start ≡ true → All IsPlain start
is_utc-IsPlain start h =
    let n : length start ≡ 16 = is_utc-length start h in
    all_at IsPlain start (λ i l. is_utc-IsPlain_at start i h (omega (arith, l, n)))

-- A start that is refused.
pub record IsRefused (start : Option Bytes) (trace : Trace) (after : Trace × Result (List Resource))
    : Type 0 where
  pub not_utc : (text : Bytes) → start ≡ some text → ¬ IsUtc text
  pub answer : after ≡ (trace, err 1 "Calendar history start must be a UTC date-time")

-- A start that stands in a query.
pub record IsQueried (xml : Xml) (net : Network) (client : Client) (url : Bytes)
    (start : Option Bytes) (trace : Trace) (after : Trace × Result (List Resource)) : Type 0 where
  pub text : Bytes
  pub given : start ≡ some text
  pub utc : IsUtc text
  pub plain : All IsPlain text
  pub queried :
      after
      ≡ list_resources xml net client url (codes "REPORT") (query_head ++ text ++ query_tail) trace

-- A calendar query is made exactly for a start of eight digits, T, six digits and Z, and has it
-- between its head and its tail, so that none of its characters means anything in XML; for any
-- other start nothing is sent and the call fails.
pub list_calendar_resources_since_lem :
    (xml : Xml) (net : Network) (client : Client) (url : Bytes) (start : Option Bytes)
    (trace : Trace)
    → let after = list_calendar_resources_since xml net client url start trace in
      IsRefused start trace after ⊎ IsQueried xml net client url start trace after
unfolding list_calendar_resources_since
list_calendar_resources_since_lem xml net client url none trace =
    inl (record { not_utc = λ text e _. absurd (ground arith); answer = refl })
list_calendar_resources_since_lem xml net client url (some start) trace =
    elim (Bool-cases (is_utc start)) [
      | inr f ↦ inl (record {
        not_utc = λ text e u. absurd (ground (arith, f, (is_utc_iff start).1, e, u));
        answer = rw (f, list_calendar_resources_since) refl;
      })
      | inl t ↦ inr (record {
        text = start;
        given = refl;
        utc = (is_utc_iff start).0 t;
        plain = is_utc-IsPlain start t;
        queried = rw (t, list_calendar_resources_since) refl;
      })
    ]
