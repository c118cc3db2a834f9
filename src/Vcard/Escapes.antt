-- ===== src/Vcard/Escapes.antt =====
-- What decoding undoes: the escapes of RFC 6350, and the folding of lines.
use retro_cloud_sync.Prelude.{
  ℕ, zero, suc, ◌≤◌, Bool, true, false, ◌||◌, List, [], ◌∷◌, ◌++◌, append_assoc, append-nil, All,
  length, length-append, ◌==◌, if◌then◌else◌, Bytes, arith, ◌≡◌, refl, ap, sym, ◌∙◌, ==_iff,
  Bool-cases, inl, inr, any,
}
use retro_cloud_sync.Vcard.Text.{
  decode_from, decode_value, split_line, unfold_lines, unfold_text, is_fold, is_line_end,
  after_fold,
}

-- A text value as RFC 6350 writes it: a backslash, a comma, a semicolon and a line feed are escaped.
unfoldable pub escaped : Bytes → Bytes
escaped [] = []
escaped (c ∷ value) =
    if c == 10
    then b'\\' ∷ b'n' ∷ escaped value
    else if c == b'\\' || c == b',' || c == b';'
    then b'\\' ∷ c ∷ escaped value
    else c ∷ escaped value

abbrev is_escaped : ℕ → Bool
is_escaped c = c == b'\\' || c == b',' || c == b';'

escaped_char :
    (c : ℕ) (value : Bytes)
    → (c == 10) ≡ false
    → is_escaped c ≡ true
    → decode_from false (b'\\' ∷ c ∷ value) ≡ c ∷ decode_from false value
unfolding decode_from
escaped_char c value n h = ground arith

plain_char :
    (c : ℕ) (value : Bytes)
    → is_escaped c ≡ false
    → decode_from false (c ∷ value) ≡ c ∷ decode_from false value
unfolding decode_from
plain_char c value h = ground arith

line_feed :
    (value : Bytes) → decode_from false (b'\\' ∷ b'n' ∷ value) ≡ 10 ∷ decode_from false value
unfolding decode_from
line_feed value = refl

-- A text whose backslashes, commas, semicolons and line feeds are escaped as in RFC 6350 is
-- decoded to the text.
pub decode_value-escaped : (value : Bytes) → decode_value (escaped value) ≡ value
unfolding decode_value escaped
decode_value-escaped [] = unfold decode_from in refl
decode_value-escaped (c ∷ value) = elim (Bool-cases (c == 10)) [
  | inl t ↦ rw t (
      line_feed (escaped value)
      ∙ ap (◌∷◌ 10) (decode_value-escaped value)
      ∙ ap (λ d. d ∷ value) (sym ((==_iff c 10).0 t)))
  | inr f ↦ elim (Bool-cases (is_escaped c)) [
    | inl t ↦
        rw (f, t) (escaped_char c (escaped value) f t ∙ ap (◌∷◌ c) (decode_value-escaped value))
    | inr g ↦ rw (f, g) (plain_char c (escaped value) g ∙ ap (◌∷◌ c) (decode_value-escaped value))
  ]
]

split_line-append :
    (line text : Bytes)
    → any is_line_end line ≡ false
    → split_line (line ++ 13 ∷ text) ≡ (line, 13 ∷ text)
unfolding split_line any
split_line-append [] text h = refl
split_line-append (c ∷ line) text h = ground (arith, split_line-append line text)

-- A folded line: its pieces with folds between them, and CRLF at the end.
unfoldable pub folded : List Bytes → Bytes → Bytes
folded [] text = text
folded (piece ∷ []) text = piece ++ 13 ∷ 10 ∷ text
folded (piece ∷ next ∷ pieces) text = piece ++ 13 ∷ 10 ∷ 32 ∷ folded (next ∷ pieces) text

-- The pieces together.
unfoldable pub whole : List Bytes → Bytes
whole [] = []
whole (piece ∷ pieces) = piece ++ whole pieces

unfold_lines_fold :
    (fuel : ℕ) (piece text : Bytes)
    → any is_line_end piece ≡ false
    → unfold_lines (suc fuel) (piece ++ 13 ∷ 10 ∷ 32 ∷ text) ≡ piece ++ unfold_lines fuel text
unfolding unfold_lines
unfold_lines_fold fuel [] text h = unfold split_line in refl
unfold_lines_fold fuel (c ∷ piece) text h =
    rw (split_line-append (c ∷ piece) (10 ∷ 32 ∷ text) h) refl

unfold_lines_end :
    (fuel : ℕ) (piece text : Bytes)
    → any is_line_end piece ≡ false
    → (after_fold text).1 ≡ false
    → unfold_lines (suc fuel) (piece ++ 13 ∷ 10 ∷ text) ≡ piece ++ 10 ∷ unfold_lines fuel text
unfolding unfold_lines
unfold_lines_end fuel [] [] h k = unfold split_line in refl
unfold_lines_end fuel [] (d ∷ text) h k = unfold split_line in ground (arith, k)
unfold_lines_end fuel (c ∷ piece) [] h k = rw (split_line-append (c ∷ piece) (10 ∷ []) h) refl
unfold_lines_end fuel (c ∷ piece) (d ∷ text) h k =
    let plain : is_fold d ≡ false = ground arith in
    rw (split_line-append (c ∷ piece) (10 ∷ d ∷ text) h, plain) refl

-- A logical line in pieces: none has a line end, there is one at least, and the first one starts with
-- neither a space nor a tab.
abbrev pub IsLine : List Bytes → Type 0
IsLine [] = ⊥
IsLine ([] ∷ pieces) = ⊥
IsLine ((c ∷ piece) ∷ pieces) =
    (is_fold c ≡ false) × All (λ p. any is_line_end p ≡ false) ((c ∷ piece) ∷ pieces)

-- Unfolding one line leaves enough fuel for the rest.
record Rest (fuel : ℕ) (pieces : List Bytes) (text : Bytes) : Type 0 where
  left : ℕ
  enough : length text ≤ left
  unfolded : unfold_lines fuel (folded pieces text) ≡ whole pieces ++ 10 ∷ unfold_lines left text

unfold_line :
    (fuel : ℕ) (piece : Bytes) (pieces : List Bytes) (text : Bytes)
    → length (folded (piece ∷ pieces) text) ≤ fuel
    → All (λ p. any is_line_end p ≡ false) (piece ∷ pieces)
    → (after_fold text).1 ≡ false
    → Rest fuel (piece ∷ pieces) text
unfolding folded whole
unfold_line zero piece [] text l h k = absurd (omega (arith, length-append piece (13 ∷ 10 ∷ text)))
unfold_line zero piece (next ∷ pieces) text l h k =
    absurd (omega (arith, length-append piece (13 ∷ 10 ∷ 32 ∷ folded (next ∷ pieces) text)))
unfold_line (suc fuel) piece [] text l h k = record {
  left = fuel;
  enough = omega (arith, l, length-append piece (13 ∷ 10 ∷ text));
  unfolded =
      unfold_lines_end fuel piece text h.0 k
      ∙ ap (λ p. p ++ 10 ∷ unfold_lines fuel text) (sym (append-nil piece));
}
unfold_line (suc fuel) piece (next ∷ pieces) text l h k =
    let r =
      unfold_line fuel next pieces text
        (omega (arith, l, length-append piece (13 ∷ 10 ∷ 32 ∷ folded (next ∷ pieces) text))) h.1
        k in
    record {
      left = r.left;
      enough = r.enough;
      unfolded =
          unfold_lines_fold fuel piece (folded (next ∷ pieces) text) h.0
          ∙ ap (◌++◌ piece) r.unfolded
          ∙ sym (append_assoc piece (whole (next ∷ pieces)) (10 ∷ unfold_lines r.left text));
    }

-- A text of folded lines, and the same text with every line on one line.
unfoldable pub folded_text : List (List Bytes) → Bytes
folded_text [] = []
folded_text (line ∷ lines) = folded line (folded_text lines)

unfoldable pub plain_text : List (List Bytes) → Bytes
plain_text [] = []
plain_text (line ∷ lines) = whole line ++ 10 ∷ plain_text lines

after_fold-folded_text :
    (lines : List (List Bytes)) → All IsLine lines → (after_fold (folded_text lines)).1 ≡ false
unfolding folded_text folded
after_fold-folded_text [] h = refl
after_fold-folded_text ([] ∷ lines) h = absurd h.0
after_fold-folded_text (([] ∷ pieces) ∷ lines) h = absurd h.0
after_fold-folded_text (((c ∷ piece) ∷ []) ∷ lines) h = rw h.0.0 refl
after_fold-folded_text (((c ∷ piece) ∷ next ∷ pieces) ∷ lines) h = rw h.0.0 refl

unfold_every :
    (fuel : ℕ) (lines : List (List Bytes))
    → length (folded_text lines) ≤ fuel
    → All IsLine lines
    → unfold_lines fuel (folded_text lines) ≡ plain_text lines
unfolding folded_text plain_text
unfold_every zero [] l h = unfold unfold_lines in refl
unfold_every (suc fuel) [] l h = unfold unfold_lines in refl
unfold_every fuel ([] ∷ lines) l h = absurd h.0
unfold_every fuel (([] ∷ pieces) ∷ lines) l h = absurd h.0
unfold_every fuel (((c ∷ piece) ∷ pieces) ∷ lines) l h =
    let r =
      unfold_line fuel (c ∷ piece) pieces (folded_text lines) l h.0.1
        (after_fold-folded_text lines h.1) in
    r.unfolded
    ∙ ap (λ p. whole ((c ∷ piece) ∷ pieces) ++ 10 ∷ p) (unfold_every r.left lines r.enough h.1)

-- A text of lines that are folded by CRLF and a space at any places, where no line starts with a
-- blank, is unfolded to the lines, each with one line feed.
pub unfold_text-folded_text :
    (lines : List (List Bytes))
    → All IsLine lines
    → unfold_text (folded_text lines) ≡ plain_text lines
unfolding unfold_text
unfold_text-folded_text lines h = unfold_every (length (folded_text lines)) lines (omega arith) h
