-- ===== src/Http/Limits.antt =====
-- What the callbacks keep: the size limit of a body, and trimmed headers.
use retro_cloud_sync.Prelude.{
  ℕ, zero, suc, leb, subst, ==_iff, ap, ◌+◌, ◌-◌, ◌*◌, ◌/◌, ◌%◌, ◌≤◌, ◌<◌, ◌≡◌, refl, inl, inr,
  true, false, [], ◌∷◌, ◌++◌, arith, ltb, ◌==◌, if◌then◌else◌, Bool-cases, Bytes, length, take,
  length-append,
}
use native.Mathlib.Nat.{mod-lt, mod-eq_of_lt, div-mul-le_self, mul_comm, mul-div_left}
use retro_cloud_sync.Http.Receive.{Receiving, size_mod, receive_body, exceed}

length-take_le : (n : ℕ) (xs : Bytes) → length (take n xs) ≤ n
length-take_le zero xs = omega arith
length-take_le (suc n) [] = omega arith
length-take_le (suc n) (x ∷ xs) = omega (arith, length-take_le n xs)

take_all : (xs : Bytes) → take (length xs) xs ≡ xs
take_all [] = refl
take_all (x ∷ xs) = ap (◌∷◌ x) (take_all xs)

-- From a body within a limit below 2^64, the body never grows past the limit, whatever sizes are
-- announced, and the limit stays.
pub receive_body_bounded :
    (size count : ℕ) (bytes : Bytes) (r : Receiving)
    → length r.body ≤ r.maximum_bytes
    → r.maximum_bytes < size_mod
    → let r' = (receive_body size count bytes r).0 in
      (length r'.body ≤ r'.maximum_bytes) × (r'.maximum_bytes ≡ r.maximum_bytes)
unfolding receive_body
receive_body_bounded size count bytes r h m =
    let n = (size * count) % size_mod in
    ground (arith, length-take_le n bytes, length-append r.body (take n bytes))

-- The test for an overflow of the product is exact.
product_fits :
    (size count : ℕ)
    → (size == 0) ≡ false
    → (((size * count) % size_mod) / size == count) ≡ true
    → size * count < size_mod
product_fits size count z e =
    let w : ℕ = (size * count) % size_mod in
    let q : w / size ≡ count = (==_iff (w / size) count).0 e in
    let l : count * size ≤ w = subst (λ c. c * size ≤ w) q (div-mul-le_self w size) in
    omega (arith, l, mod-lt (size * count) {m = size_mod} (omega arith))

product_exact : (size count : ℕ) → (size == 0) ≡ false → ((size * count) / size == count) ≡ true
product_exact size count z =
    (==_iff _ count).1 (rw (mul_comm size count) (mul-div_left count (ground arith)))

-- The room that is left, where nothing has wrapped around.
room :
    (maximum used : ℕ)
    → used ≤ maximum
    → maximum < size_mod
    → (maximum + size_mod - used) % size_mod ≡ maximum - used
room maximum used h m = omega arith

zero_product : (size count : ℕ) → (size == 0) ≡ true → size * count ≡ 0
zero_product size count z = rw ((==_iff size 0).0 z) (omega arith)

-- With a body within a limit below 2^64, a chunk of size * count bytes is appended whole and its
-- size returned if the body then still fits the limit; else the body stays, 0 is returned, and
-- the flag is set, also where the product does not fit size_t.
pub receive_body_exact :
    (size count : ℕ) (bytes : Bytes) (r : Receiving)
    → length bytes ≡ size * count
    → length r.body ≤ r.maximum_bytes
    → r.maximum_bytes < size_mod
    → receive_body size count bytes r ≡ (
        if leb (length r.body + size * count) r.maximum_bytes
        then (record r { body = r.body ++ bytes }, size * count)
        else (exceed r, 0))
unfolding receive_body
receive_body_exact size count bytes r n h m =
    let whole : take (size * count) bytes ≡ bytes = rw (← n) (take_all bytes) in
    rw (room r.maximum_bytes (length r.body) h m, receive_body)
      (elim (Bool-cases (ltb (size * count) size_mod)) [
        | inl t ↦
            rw (mod-eq_of_lt {n = size * count} {m = size_mod} (ground arith))
              (elim (Bool-cases (size == 0)) [
                | inl z ↦ ground (arith, z, whole, zero_product size count z)
                | inr z ↦ ground (arith, z, whole, product_exact size count z)
              ])
        | inr t ↦ elim (Bool-cases (size == 0)) [
          | inl z ↦ absurd (ground (arith, zero_product size count z))
          | inr z ↦ elim (Bool-cases (((size * count) % size_mod) / size == count)) [
            | inl e ↦ absurd (ground (arith, product_fits size count z e))
            | inr e ↦ ground (arith, z, e)
          ]
        ]
      ])
