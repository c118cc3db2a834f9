-- ===== src/Vcard/Text.antt =====
-- Text of vCards: `RCDecodeValue`, `RCUnfold` and the splitting of `RCParseParts` in
-- source/shared/RCVCard.c.
use retro_cloud_sync.Prelude.{
  ℕ, zero, suc, Bool, true, false, not, ◌&&◌, ◌||◌, List, [], ◌∷◌, ◌++◌, length, ◌==◌,
  if◌then◌else◌, Bytes,
}

abbrev pub unescaped : ℕ → ℕ
unescaped c = if c == b'n' || c == b'N' then 10 else c

-- The loop of `RCDecodeValue`, behind a backslash or not. A backslash at the end stands for itself.
unfoldable pub decode_from : Bool → Bytes → Bytes
decode_from true [] = b'\\' ∷ []
decode_from false [] = []
decode_from true (c ∷ value) = unescaped c ∷ decode_from false value
decode_from false (c ∷ value) = elim (c == b'\\') [
  | true ↦ decode_from true value
  | false ↦ c ∷ decode_from false value
]

-- `RCDecodeValue`.
unfoldable pub decode_value : Bytes → Bytes
decode_value value = decode_from false value

abbrev pub is_line_end : ℕ → Bool
is_line_end c = c == 13 || c == 10

abbrev pub is_fold : ℕ → Bool
is_fold c = c == b' ' || c == 9

-- A line, and what stands behind it, its end included.
unfoldable pub split_line : Bytes → Bytes × Bytes
split_line [] = ([], [])
split_line (c ∷ text) =
    if is_line_end c then ([], c ∷ text) else let (line, rest) = split_line text in (c ∷ line, rest)

abbrev pub skip : ℕ → Bytes → Bytes
skip c [] = []
skip c (d ∷ text) = if d == c then text else d ∷ text

-- Behind the end of a line: the text from there, and whether the line goes on.
abbrev pub after_fold : Bytes → Bytes × Bool
after_fold [] = ([], false)
after_fold (c ∷ text) = if is_fold c then (text, true) else (c ∷ text, false)

-- The loop of `RCUnfold`; every turn takes at least one character.
unfoldable pub unfold_lines : ℕ → Bytes → Bytes
unfold_lines zero text = []
unfold_lines (suc fuel) [] = []
unfold_lines (suc fuel) (c ∷ text) =
    let split = split_line (c ∷ text) in
    let next = after_fold (skip 10 (skip 13 split.1)) in
    let rest = unfold_lines fuel next.0 in split.0 ++ (if next.1 then rest else 10 ∷ rest)

-- `RCUnfold`.
unfoldable pub unfold_text : Bytes → Bytes
unfold_text text = unfold_lines (length text) text

-- One character more in front of the first part.
abbrev pub in_front : ℕ → List Bytes → List Bytes
in_front c [] = (c ∷ []) ∷ []
in_front c (part ∷ parts) = (c ∷ part) ∷ parts

-- The loop of `RCParseParts`: the parts between semicolons that no backslash escapes.
unfoldable pub split_parts : Bool → Bytes → List Bytes
split_parts escaped [] = [] ∷ []
split_parts escaped (c ∷ value) =
    let rest = split_parts (not escaped && c == b'\\') value in
    if c == b';' && not escaped then [] ∷ rest else in_front c rest
