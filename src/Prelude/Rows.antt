-- ===== src/Prelude/Rows.antt =====
-- Membership of rows, predicates and relations of all rows, and what an update does to them.
use mathlib.Core.Path.{◌≡◌, refl, subst}
use mathlib.Core.Logic.{◌⊎◌, inl, inr}
use mathlib.Core.Bool.{Bool, true, false}
use mathlib.Core.List.{List, [], ◌∷◌, ◌++◌}
use mathlib.Core.Option.{Option, none, some}
use native.Mathlib.Omega.{arith}
use retro_cloud_sync.Prelude.Tests.{if◌then◌else◌, Bool-cases, is_some}
use retro_cloud_sync.Prelude.Lists.{find, any, update_where, count_where}

module _ {ℓ} {A : Type ℓ} where
  -- Membership as data: where the row stands.
  pub data Row (a : A) : List A → Type ℓ where
    here : {xs : List A} → Row a (a ∷ xs)
    there : {x : A} {xs : List A} → Row a xs → Row a (x ∷ xs)

  -- A predicate of every row.
  abbrev pub All {κ} : (A → Type κ) → List A → Type κ
  All P [] = Unit
  All P (x ∷ xs) = P x × All P xs

module _ {ℓ κ} {A : Type ℓ} (P : A → Type κ) where
  pub All-row : {a : A} {xs : List A} → All P xs → Row a xs → P a
  All-row h here = h.0
  All-row h (there r) = All-row h.1 r

  pub All-append : (xs ys : List A) → All P xs → All P ys → All P (xs ++ ys)
  All-append [] ys hx hy = hy
  All-append (x ∷ xs) ys hx hy = (hx.0, All-append xs ys hx.1 hy)

  pub All-of_row : (xs : List A) → ((a : A) → Row a xs → P a) → All P xs
  All-of_row [] f = tt
  All-of_row (x ∷ xs) f = (f x here, All-of_row xs (λ a r. f a (there r)))

module _ {ℓ} {A : Type ℓ} where
  find_pass :
      (p : A → Bool) (x : A) (rest : Option A) {a : A}
      → (if p x then some x else rest) ≡ some a
      → ((p x ≡ true) × (x ≡ a)) ⊎ ((p x ≡ false) × (rest ≡ some a))
  find_pass p x rest h = ground arith

  pub find_sound :
      (p : A → Bool) (xs : List A) {a : A} → find p xs ≡ some a → (p a ≡ true) × Row a xs
  unfolding find
  find_sound p [] h = cc
  find_sound p (x ∷ xs) h = elim (find_pass p x (find p xs) h) [
    | inl (t, e) ↦ subst (λ y. (p y ≡ true) × Row y (x ∷ xs)) e (t, here)
    | inr (t, e) ↦ let (q, r) = find_sound p xs e in (q, there r)
  ]

  pub find-none : (p : A → Bool) (xs : List A) → find p xs ≡ none → All (λ x. p x ≡ false) xs
  unfolding find
  find-none p [] h = tt
  find-none p (x ∷ xs) h = ground (arith, find-none p xs)

  pub any-false : (p : A → Bool) (xs : List A) → any p xs ≡ false → All (λ x. p x ≡ false) xs
  unfolding any
  any-false p [] h = tt
  any-false p (x ∷ xs) h = ground (arith, any-false p xs)

  pub update_where_none :
      (p : A → Bool) (f : A → A) (xs : List A) → count_where p xs ≡ 0 → update_where p f xs ≡ xs
  unfolding update_where count_where
  update_where_none p f [] h = refl
  update_where_none p f (x ∷ xs) h = ground (arith, update_where_none p f xs)

-- Every row stands in the relation to all rows behind it.
module _ {ℓ κ} {A : Type ℓ} (R : A → A → Type κ) where
  abbrev pub Pairwise : List A → Type κ
  Pairwise [] = Unit
  Pairwise (x ∷ xs) = All (R x) xs × Pairwise xs

  pub Pairwise-append :
      (xs : List A) (a : A) → Pairwise xs → All (λ x. R x a) xs → Pairwise (xs ++ a ∷ [])
  Pairwise-append [] a h l = (tt, tt)
  Pairwise-append (x ∷ xs) a h l =
      (All-append (R x) xs (a ∷ []) h.0 (l.0, tt), Pairwise-append xs a h.1 l.1)

  -- Of two rows of the list, one stands before the other, or they are the same row.
  pub Pairwise-rows :
      {a b : A} {xs : List A} → Pairwise xs → Row a xs → Row b xs → (a ≡ b) ⊎ (R a b ⊎ R b a)
  Pairwise-rows h here here = inl refl
  Pairwise-rows h here (there s) = inr (inl (All-row _ h.0 s))
  Pairwise-rows h (there r) here = inr (inr (All-row _ h.0 r))
  Pairwise-rows h (there r) (there s) = Pairwise-rows h.1 r s

module _ {ℓ κ} {A : Type ℓ} (P : A → Type κ) (p : A → Bool) (f : A → A) where
  pub All-update_where :
      (xs : List A)
      → ((x : A) → p x ≡ true → P x → P (f x))
      → All P xs
      → All P (update_where p f xs)
  unfolding update_where
  All-update_where [] keep h = tt
  All-update_where (x ∷ xs) keep h = (
    elim (Bool-cases (p x)) [ inl t ↦ rw t (keep x t h.0) | inr t ↦ rw t h.0 ],
    All-update_where xs keep h.1,
  )

module _ {ℓ κ} {A : Type ℓ} (R : A → A → Type κ) (p : A → Bool) (f : A → A) where
  -- An update keeps the relation if it may be made on either side.
  pub Pairwise-update_where :
      (xs : List A)
      → ((x y : A) → p x ≡ true → R x y → R (f x) y)
      → ((x y : A) → p y ≡ true → R x y → R x (f y))
      → Pairwise R xs
      → Pairwise R (update_where p f xs)
  unfolding update_where
  Pairwise-update_where [] left right h = tt
  Pairwise-update_where (x ∷ xs) left right h =
      let later = All-update_where (R x) p f xs (λ y t r. right x y t r) h.0 in
      (
        elim (Bool-cases (p x)) [
          | inl t ↦
              rw t
                (All-of_row (R (f x)) (update_where p f xs) (λ y r. left x y t (All-row _ later r)))
          | inr t ↦ rw t later
        ],
        Pairwise-update_where xs left right h.1,
      )

module _ {ℓ} {A : Type ℓ} where
  -- A row after an update was a row before it.
  pub Row-update_where :
      (p : A → Bool) (f : A → A) (xs : List A) {b : A}
      → Row b (update_where p f xs)
      → (a : A) × Row a xs × (b ≡ (if p a then f a else a))
  unfolding update_where
  Row-update_where p f [] r = elim r [ ]
  Row-update_where p f (x ∷ xs) here = (x, here, refl)
  Row-update_where p f (x ∷ xs) (there r) =
      let (a, s, e) = Row-update_where p f xs r in (a, there s, e)

  pub update_where-append :
      (p : A → Bool) (f : A → A) (xs ys : List A)
      → update_where p f (xs ++ ys) ≡ update_where p f xs ++ update_where p f ys
  unfolding update_where
  update_where-append p f [] ys = refl
  update_where-append p f (x ∷ xs) ys = rw (update_where-append p f xs ys)

  pub count_where_none :
      (p : A → Bool) (xs : List A) → All (λ x. p x ≡ false) xs → count_where p xs ≡ 0
  unfolding count_where
  count_where_none p [] h = refl
  count_where_none p (x ∷ xs) h = ground (arith, count_where_none p xs h.1)

  pub update_where_row :
      (p : A → Bool) (f : A → A) {a : A} {xs : List A}
      → p a ≡ true
      → Row a xs
      → Row (f a) (update_where p f xs)
  unfolding update_where
  update_where_row p f t here = rw t here
  update_where_row p f t (there r) = there (update_where_row p f t r)

  pub find_row :
      (p : A → Bool) {a : A} {xs : List A} → p a ≡ true → Row a xs → is_some (find p xs) ≡ true
  unfolding find
  find_row p t here = rw t
  find_row p {a} t (there {x} {xs} r) = ground (arith, find_row p {a = a} {xs = xs} t r)

  -- The row that `find` returns stands before every other one that passes.
  pub find_first {κ} :
      (R : A → A → Type κ) (p : A → Bool) {a b : A} (xs : List A)
      → Pairwise R xs
      → find p xs ≡ some a
      → Row b xs
      → p b ≡ true
      → (a ≡ b) ⊎ R a b
  unfolding find
  find_first R p [] w f r t = elim r [ ]
  find_first R p (x ∷ xs) w f here t = inl (ground arith)
  find_first R p {b = b} (x ∷ xs) w f (there s) t = elim (find_pass p x (find p xs) f) [
    | inl (q, e) ↦ inr (subst (λ y. R y b) e (All-row (R x) w.0 s))
    | inr (q, e) ↦ find_first R p xs w.1 e s t
  ]

  pub find-append_none :
      (p : A → Bool) (xs ys : List A) → find p xs ≡ none → find p (xs ++ ys) ≡ find p ys
  unfolding find
  find-append_none p [] ys h = refl
  find-append_none p (x ∷ xs) ys h = ground (arith, find-append_none p xs ys)

  pub Row-append_right : (xs : List A) {ys : List A} {a : A} → Row a ys → Row a (xs ++ ys)
  Row-append_right [] r = r
  Row-append_right (x ∷ xs) r = there (Row-append_right xs r)
