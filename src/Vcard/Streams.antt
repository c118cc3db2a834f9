-- ===== src/Vcard/Streams.antt =====
-- The growing buffer of `RCUnfold` and the stream that libvc reads from: `RCAppendBytes`,
-- `RCReadInput` and `RCSeekInput` of source/shared/RCVCard.c. Memory does not run out.
use retro_cloud_sync.Prelude.{
  ℕ, zero, suc, ◌+◌, ◌-◌, ◌*◌, ◌/◌, ◌%◌, ◌^◌, ◌≤◌, ◌<◌, ◌≡◌, refl, inl, inr, Bool-cases, Option,
  none, some, List, [], ◌∷◌, ◌++◌, length, length-append, take-drop, take, drop, ltb, ◌==◌,
  if◌then◌else◌, Bytes, ℤ, pos, negsuc, arith,
}

abbrev size_mod : ℕ
size_mod = 2 ^ 64

abbrev size_max : ℕ
size_max = 2 ^ 64 - 1

-- The output of `RCUnfold`: what was written, and the size of the allocation.
pub record Output : Type 0 where
  pub written : Bytes
  pub capacity : ℕ

-- The loop that doubles the capacity, on fuel; `none` is an overflow.
unfoldable pub grow : ℕ → ℕ → ℕ → Option ℕ
grow zero capacity required = if ltb capacity required then none else some capacity
grow (suc fuel) capacity required =
    let rest = grow fuel (capacity * 2) required in
    if ltb capacity required
    then (if ltb (size_max / 2) capacity then none else rest)
    else some capacity

-- `RCAppendBytes`. From 1 on, 64 turns reach every size.
unfoldable pub append_bytes : Bytes → Output → Option Output
append_bytes bytes o =
    let required = (length o.written + length bytes + 1) % size_mod in
    if ltb o.capacity required
    then elim (grow 64 (if o.capacity == 0 then 1024 else o.capacity) required) [
      | none ↦ none
      | some capacity ↦ some (record { written = o.written ++ bytes; capacity = capacity })
    ]
    else some (record o { written = o.written ++ bytes })

-- The capacity after some turns.
doubled_by : ℕ → ℕ → ℕ
doubled_by zero c = c
doubled_by (suc n) c = doubled_by n (c * 2)

doubled_by_mono : (n c d : ℕ) → c ≤ d → doubled_by n c ≤ doubled_by n d
unfolding doubled_by
doubled_by_mono zero c d h = h
doubled_by_mono (suc n) c d h = doubled_by_mono n (c * 2) (d * 2) (omega arith)

doubled_by_one : doubled_by 64 1 ≡ 2 ^ 64
unfolding doubled_by
doubled_by_one = refl

grow_enough :
    (fuel capacity required : ℕ)
    → required ≤ doubled_by fuel capacity
    → required ≤ 2 ^ 63
    → (c : ℕ) × (grow fuel capacity required ≡ some c) × (required ≤ c)
unfolding grow doubled_by
grow_enough zero capacity required h l = (capacity, ground arith, h)
grow_enough (suc fuel) capacity required h l = elim (Bool-cases (ltb capacity required)) [
  | inr f ↦ (capacity, ground (arith, f), ground (arith, f))
  | inl t ↦
      let (c, e, b) = grow_enough fuel (capacity * 2) required h l in (c, ground (arith, t, e), b)
]

-- Whatever capacity the buffer has, bytes that leave it shorter than 2^63 are appended: the
-- doubling ends, without an overflow, and the new capacity has room for the end of the string.
pub append_bytes_lem :
    (bytes : Bytes) (o : Output)
    → length o.written + length bytes < 2 ^ 63
    → (o' : Output) × (append_bytes bytes o ≡ some o')
      × (o'.written ≡ o.written ++ bytes)
      × (length o'.written < o'.capacity)
unfolding append_bytes
append_bytes_lem bytes o h =
    elim (Bool-cases (ltb o.capacity (length o.written + length bytes + 1))) [
      | inr f ↦ (
        record o { written = o.written ++ bytes },
        ground (arith, f),
        refl,
        ground (arith, f, length-append o.written bytes),
      )
      | inl t ↦
          let from = if o.capacity == 0 then 1024 else o.capacity in
          let room = doubled_by_mono 64 1 from (ground arith) in
          let (c, e, b) =
            grow_enough 64 from (length o.written + length bytes + 1)
              (omega (arith, room, doubled_by_one, h)) (omega arith) in
          let small : (length o.written + length bytes + 1) % size_mod
              ≡ length o.written + length bytes + 1 =
            omega arith in
          (
            record { written = o.written ++ bytes; capacity = c },
            rw (small, t, e) refl,
            refl,
            omega (arith, b, length-append o.written bytes),
          )
    ]

-- `RCVCardInput`.
pub record Input : Type 0 where
  pub bytes : Bytes
  pub position : ℕ

-- `RCReadInput`: what it puts into the buffer.
unfoldable pub read_input : ℤ → Input → Input × Bytes
read_input (negsuc n) i = (i, [])
read_input (pos count) i =
    let rest = length i.bytes - i.position in
    let amount = if ltb count rest then count else rest in
    (record i { position = i.position + amount }, take amount (drop i.position i.bytes))

pub data Whence : Type 0 where
  from_start from_position from_end : Whence

abbrev base_of : Whence → Input → ℕ
base_of from_start i = 0
base_of from_position i = i.position
base_of from_end i = length i.bytes

-- `RCSeekInput`, with the new position or -1.
unfoldable pub seek_input : ℤ → Whence → Input → Input × Option ℕ
seek_input (pos n) whence i =
    let target = base_of whence i + n in
    if ltb (length i.bytes) target then (i, none) else (record i { position = target }, some target)
seek_input (negsuc n) whence i =
    if ltb (base_of whence i) (suc n)
    then (i, none)
    else (record i { position = base_of whence i - suc n }, some (base_of whence i - suc n))

-- What a program does with a stream.
pub data StreamAccess : Type 0 where
  reading : ℤ → StreamAccess
  seeking : ℤ → Whence → StreamAccess

unfoldable pub access : StreamAccess → Input → Input
access (reading count) i = (read_input count i).0
access (seeking offset whence) i = (seek_input offset whence i).0

unfoldable pub accesses : List StreamAccess → Input → Input
accesses [] i = i
accesses (a ∷ rest) i = accesses rest (access a i)

access_inside :
    (a : StreamAccess) (i : Input)
    → i.position ≤ length i.bytes
    → ((access a i).position ≤ length i.bytes) × ((access a i).bytes ≡ i.bytes)
unfolding access read_input seek_input
access_inside (reading (pos count)) i h = ground arith
access_inside (reading (negsuc n)) i h = ground arith
access_inside (seeking (pos n) whence) i h = ground arith
access_inside (seeking (negsuc n) from_start) i h = ground arith
access_inside (seeking (negsuc n) from_position) i h = ground arith
access_inside (seeking (negsuc n) from_end) i h = ground arith

-- From a position inside the text, any sequence of reads and seeks, with any counts and offsets,
-- keeps the position inside the text and does not change the text.
pub accesses_inside :
    (rest : List StreamAccess) (i : Input)
    → i.position ≤ length i.bytes
    → ((accesses rest i).position ≤ length i.bytes) × ((accesses rest i).bytes ≡ i.bytes)
unfolding accesses
accesses_inside [] i h = (h, refl)
accesses_inside (a ∷ rest) i h =
    let (inside, same) = access_inside a i h in
    let later = accesses_inside rest (access a i) (rw same inside) in ground (arith, later, same)

drop-drop : (m n : ℕ) (xs : Bytes) → drop (m + n) xs ≡ drop n (drop m xs)
drop-drop zero n xs = let e : zero + n ≡ n = omega arith in rw e refl
drop-drop (suc m) zero [] = let e : suc m + zero ≡ suc m = omega arith in rw e refl
drop-drop (suc m) (suc n) [] = let e : suc m + suc n ≡ suc (m + suc n) = omega arith in rw e refl
drop-drop (suc m) n (x ∷ xs) =
    let e : suc m + n ≡ suc (m + n) = omega arith in rw e (drop-drop m n xs)

length-take : (n : ℕ) (xs : Bytes) → n ≤ length xs → length (take n xs) ≡ n
length-take zero xs h = refl
length-take (suc n) [] h = absurd (omega arith)
length-take (suc n) (x ∷ xs) h = omega (arith, length-take n xs (omega arith))

length-drop : (n : ℕ) (xs : Bytes) → length (drop n xs) ≡ length xs - n
length-drop zero xs = omega arith
length-drop (suc n) [] = omega arith
length-drop (suc n) (x ∷ xs) = omega (arith, length-drop n xs)

-- From a position inside the text, a read for a number of bytes that is not negative returns
-- that many of the next bytes, or all that are left if there are fewer, and the rest of the text
-- stands behind the new position.
pub read_input_lem :
    (count : ℕ) (i : Input)
    → i.position ≤ length i.bytes
    → let (after, chunk) = read_input (pos count) i in
      (chunk ++ drop after.position i.bytes ≡ drop i.position i.bytes)
      × (length chunk ≡ (
          if ltb count (length i.bytes - i.position) then count else length i.bytes - i.position))
unfolding read_input
read_input_lem count i h =
    let rest = length i.bytes - i.position in
    let amount = if ltb count rest then count else rest in
    (
      rw (drop-drop i.position amount i.bytes) (take-drop amount (drop i.position i.bytes)),
      length-take amount (drop i.position i.bytes) (ground (arith, length-drop i.position i.bytes)),
    )
