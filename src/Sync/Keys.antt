-- ===== src/Sync/Keys.antt =====
-- source/shared/RCDAVSyncState.c: what the statements on dav_sync_state do to the row of one key.
use retro_cloud_sync.Prelude.{
  same_iff, sym, ◌↔◌, ◌∙◌, ℕ, ◌≡◌, refl, Bool, true, false, Option, none, some, List, [], ◌∷◌, ◌++◌,
  if◌then◌else◌, Bytes, delete_where, find, arith, Bool-cases, inl, inr,
}
use retro_cloud_sync.Sync.Tokens.{TokenRow, is_token, replace_token}

-- What is left of a row where rows are deleted.
abbrev pub kept : {A : Type 0} → (A → Bool) → Option A → Option A
kept q none = none
kept q (some x) = if q x then none else some x

module _ {A : Type 0} where
  -- At most one row passes.
  unfoldable pub Single : (A → Bool) → List A → Type 0
  Single p [] = Unit
  Single p (x ∷ xs) = (p x ≡ true → find p xs ≡ none) × Single p xs

  find-delete_where-none :
      (p q : A → Bool) (xs : List A) → find p xs ≡ none → find p (delete_where q xs) ≡ none
  unfolding find delete_where
  find-delete_where-none p q [] h = refl
  find-delete_where-none p q (x ∷ xs) h = ground (arith, find-delete_where-none p q xs)

  pub find-delete_where :
      (p q : A → Bool) (xs : List A) → Single p xs → find p (delete_where q xs) ≡ kept q (find p xs)
  unfolding find delete_where Single
  find-delete_where p q [] s = refl
  find-delete_where p q (x ∷ xs) (first, rest) = elim (Bool-cases (p x)) [
    | inl t ↦ elim (Bool-cases (q x)) [
      | inl u ↦ rw (t, u) (find-delete_where-none p q xs (first t))
      | inr u ↦ rw (t, u, find, t) refl
    ]
    | inr t ↦ elim (Bool-cases (q x)) [
      | inl u ↦ rw (t, u) (find-delete_where p q xs rest)
      | inr u ↦ rw (t, u, find, t) (find-delete_where p q xs rest)
    ]
  ]

  pub Single-delete_where :
      (p q : A → Bool) (xs : List A) → Single p xs → Single p (delete_where q xs)
  unfolding Single delete_where
  Single-delete_where p q [] s = tt
  Single-delete_where p q (x ∷ xs) (first, rest) = elim (Bool-cases (q x)) [
    | inl u ↦ rw u (Single-delete_where p q xs rest)
    | inr u ↦
        rw (u, Single)
          ((λ t. find-delete_where-none p q xs (first t)), Single-delete_where p q xs rest)
  ]

  find-last :
      (p : A → Bool) (xs : List A) (x : A)
      → find p xs ≡ none
      → find p (xs ++ x ∷ []) ≡ (if p x then some x else none)
  unfolding find
  find-last p [] x h = refl
  find-last p (y ∷ xs) x h = ground (arith, find-last p xs x)

  find-append :
      (p : A → Bool) (xs : List A) (x : A) → p x ≡ false → find p (xs ++ x ∷ []) ≡ find p xs
  unfolding find
  find-append p [] x h = rw h refl
  find-append p (y ∷ xs) x h = ground (arith, find-append p xs x)

  find-delete_where-same :
      (p q : A → Bool) (xs : List A)
      → ((x : A) → p x ≡ true → q x ≡ true)
      → find p (delete_where q xs) ≡ none
  unfolding find delete_where
  find-delete_where-same p q [] h = refl
  find-delete_where-same p q (x ∷ xs) h = ground (arith, find-delete_where-same p q xs h, h x)

  find-delete_where-other :
      (p q : A → Bool) (xs : List A)
      → ((x : A) → p x ≡ true → q x ≡ false)
      → find p (delete_where q xs) ≡ find p xs
  unfolding find delete_where
  find-delete_where-other p q [] h = refl
  find-delete_where-other p q (x ∷ xs) h = ground (arith, find-delete_where-other p q xs h, h x)

  Single-last : (p : A → Bool) (xs : List A) (x : A) → find p xs ≡ none → Single p (xs ++ x ∷ [])
  unfolding find Single
  Single-last p [] x h = ((λ _. refl), tt)
  Single-last p (y ∷ xs) x h = ground (arith, Single-last p xs x)

  Single-append :
      (p : A → Bool) (xs : List A) (x : A) → p x ≡ false → Single p xs → Single p (xs ++ x ∷ [])
  unfolding find Single
  Single-append p [] x h s = ((λ _. refl), tt)
  Single-append p (y ∷ xs) x h (first, rest) =
      ((λ t. find-append p xs x h ∙ first t), Single-append p xs x h rest)

is_token_iff :
    (a : ℕ) (u : Bytes) (row : TokenRow)
    → (is_token a u row ≡ true) ↔ ((row.account ≡ a) × (row.url ≡ u))
is_token_iff a u row = ground (arith, same_iff row.url u)

same_key :
    (a : ℕ) (u : Bytes) (row other : TokenRow)
    → is_token a u row ≡ true
    → is_token a u other ≡ is_token row.account row.url other
same_key a u row other t = let (e, f) = (is_token_iff a u row).0 t in rw (e, f) refl

other_key :
    (a : ℕ) (u : Bytes) (row other : TokenRow)
    → is_token a u row ≡ false
    → is_token a u other ≡ true
    → is_token row.account row.url other ≡ false
other_key a u row other t h =
    let (e, f) = (is_token_iff a u other).0 h in
    elim (Bool-cases (is_token row.account row.url other)) [
      | inr v ↦ v
      | inl v ↦
          let (g, k) = (is_token_iff row.account row.url other).0 v in
          let h' = (is_token_iff a u row).1 (sym g ∙ e, sym k ∙ f) in absurd (cc (h', t))
    ]

pub find-replace_token :
    (a : ℕ) (u : Bytes) (row : TokenRow) (rows : List TokenRow)
    → find (is_token a u) (replace_token row rows)
      ≡ (if is_token a u row then some row else find (is_token a u) rows)
unfolding replace_token
find-replace_token a u row rows = elim (Bool-cases (is_token a u row)) [
  | inl t ↦ rw t (
      find-last (is_token a u) (delete_where (is_token row.account row.url) rows) row (
        find-delete_where-same (is_token a u) (is_token row.account row.url) rows
          (λ x h. sym (same_key a u row x t) ∙ h))
      ∙ rw t refl)
  | inr t ↦ rw t (
      find-append (is_token a u) (delete_where (is_token row.account row.url) rows) row t
      ∙ find-delete_where-other (is_token a u) (is_token row.account row.url) rows
          (λ x. other_key a u row x t))
]

pub Single-replace_token :
    (a : ℕ) (u : Bytes) (row : TokenRow) (rows : List TokenRow)
    → Single (is_token a u) rows
    → Single (is_token a u) (replace_token row rows)
unfolding replace_token
Single-replace_token a u row rows s = elim (Bool-cases (is_token a u row)) [
  | inl t ↦ Single-last (is_token a u) (delete_where (is_token row.account row.url) rows) row (
      find-delete_where-same (is_token a u) (is_token row.account row.url) rows
        (λ x h. sym (same_key a u row x t) ∙ h))
  | inr t ↦
      Single-append (is_token a u) (delete_where (is_token row.account row.url) rows) row t
        (Single-delete_where (is_token a u) (is_token row.account row.url) rows s)
]
