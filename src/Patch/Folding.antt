-- ===== src/Patch/Folding.antt =====
-- `add`, `colon` and `folded` of source/shared/RCResourcePatch.c, and the reading of one line. Memory
-- does not run out; `add` still refuses what is longer than INT_MAX.
use retro_cloud_sync.Prelude.{
  ℕ, zero, suc, ◌+◌, ◌/◌, Bool, true, false, not, ◌&&◌, ◌||◌, Option, none, some, List, [], ◌∷◌,
  ◌++◌, ◌==◌, ltb, length, take, drop, get_elem?, if◌then◌else◌, Bytes, is_empty, int_max,
}
use retro_cloud_sync.Vcard.Text.{split_line, skip, after_fold}

-- `add`; its first check and its second are one on natural numbers.
unfoldable pub add : Bytes → Bytes → Option Bytes
add buffer bytes =
    if ltb int_max (length bytes) || ltb int_max (length buffer + length bytes)
    then none
    else some (buffer ++ bytes)

unfoldable pub add_all : Bytes → List Bytes → Option Bytes
add_all buffer [] = some buffer
add_all buffer (part ∷ parts) = elim (add buffer part) [
  | none ↦ none
  | some more ↦ add_all more parts
]

-- The loop of `colon`: what stands before the separator, and behind it.
unfoldable pub value_colon : Bool → Bytes → Option (Bytes × Bytes)
value_colon quoted [] = none
value_colon quoted (c ∷ line) =
    let rest = value_colon (if c == b'"' then not quoted else quoted) line in
    if c == b':' && not quoted
    then some ([], line)
    else elim rest [ none ↦ none | some p ↦ some (c ∷ p.0, p.1) ]

-- `colon`.
unfoldable pub colon : Bytes → Option (Bytes × Bytes)
colon line = value_colon false line

-- The inner loop of `RCResourcePatch`: a line without its folds, and what stands behind it.
unfoldable pub logical_line : ℕ → Bytes → Bytes × Bytes
logical_line zero text = ([], text)
logical_line (suc fuel) text =
    let split = split_line text in
    let next = after_fold (skip 10 (skip 13 split.1)) in
    let more = logical_line fuel next.0 in
    if next.1 && not (is_empty next.0) then (split.0 ++ more.0, more.1) else (split.0, next.0)

-- `(c & 0xc0) == 0x80`: a byte inside a UTF-8 character.
abbrev pub is_inner : Option ℕ → Bool
is_inner none = false
is_inner (some c) = c / 64 == 2

-- The loop over `n`: back to a byte that starts a character.
unfoldable pub back : Bytes → ℕ → ℕ
back text zero = zero
back text (suc n) =
    let before = back text n in if is_inner (get_elem? text (suc n)) then before else suc n

abbrev pub line_limit : Bool → ℕ
line_limit first = if first then 75 else 74

abbrev pub piece_length : Bool → Bytes → ℕ
piece_length first text =
    if ltb (line_limit first) (length text) then back text (line_limit first) else length text

-- The loop of `folded` over the rest of the line, a piece in each turn.
unfoldable pub fold_pieces : ℕ → Bool → Bytes → Bytes → Option Bytes
fold_pieces zero first text out = some out
fold_pieces (suc fuel) first [] out = some out
fold_pieces (suc fuel) first (c ∷ text) out =
    let n = piece_length first (c ∷ text) in
    elim (n == 0) [
      | true ↦ none
      | false ↦
          elim (add_all out
            ((if first then [] else b' ' ∷ []) ∷ take n (c ∷ text) ∷ (13 ∷ 10 ∷ []) ∷ [])) [
              | none ↦ none
              | some out' ↦ fold_pieces fuel false (drop n (c ∷ text)) out'
            ]
    ]

-- `folded`.
unfoldable pub fold_line : Bytes → Bytes → Bytes → Option Bytes
fold_line out prefix value = elim (add_all [] (prefix ∷ value ∷ [])) [
  | none ↦ none
  | some line ↦ fold_pieces (length line) true line out
]
