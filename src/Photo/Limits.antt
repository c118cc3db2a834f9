-- ===== src/Photo/Limits.antt =====
-- The decoder writes no more bytes than it was given characters, which is what it allocates.
use retro_cloud_sync.Prelude.{
  ℕ, ◌<◌, ◌≤◌, ◌+◌, ◌≡◌, inl, inr, Bool, some, Option-cases, List, [], ◌∷◌, ◌++◌, arith, Bytes,
  length, length-append,
}
use retro_cloud_sync.Photo.Codec.{
  symbol, Symbol, Decoder, decode_quartet, add_symbol, decode_char, decode_chars,
  photo_decode_bytes, empty_decoder, finish,
}

-- What a decoder holds: the bytes written and the values of an unfinished quartet.
held : Decoder → ℕ
held d = length d.decoded + length d.quartet

decode_quartet_bounded :
    (p q r s : Symbol) {bytes : Bytes} {last : Bool}
    → decode_quartet p q r s ≡ some (bytes, last)
    → length bytes ≤ 3
unfolding decode_quartet
decode_quartet_bounded p q r s h = ground arith

add_symbol_bounded :
    (d : Decoder) (quartet : List Symbol) {e : Decoder}
    → add_symbol d quartet ≡ some e
    → held e ≤ length d.decoded + length quartet
unfolding add_symbol held
add_symbol_bounded d (p ∷ q ∷ r ∷ s ∷ []) h = elim (Option-cases (decode_quartet p q r s)) [
  | inl n ↦ absurd (ground (arith, n))
  | inr ((bytes, last), f) ↦
      ground (arith, f, decode_quartet_bounded p q r s f, length-append d.decoded bytes)
]
add_symbol_bounded d _ h = ground arith

decode_char_bounded :
    (c : ℕ) (d : Decoder) {e : Decoder} → decode_char c d ≡ some e → held e ≤ held d + 1
unfolding decode_char held
decode_char_bounded c d {e} h = elim (Option-cases (symbol c)) [
  | inl n ↦ ground (arith, n)
  | inr (s, f) ↦ ground (
    arith,
    f,
    add_symbol_bounded d (d.quartet ++ s ∷ []) {e = e},
    length-append d.quartet (s ∷ []),
  )
]

decode_chars_bounded :
    (text : Bytes) (d : Decoder) {e : Decoder}
    → decode_chars text d ≡ some e
    → held e ≤ held d + length text
unfolding decode_chars held
decode_chars_bounded [] d h = ground arith
decode_chars_bounded (c ∷ text) d {e} h = elim (Option-cases (decode_char c d)) [
  | inl n ↦ absurd (ground (arith, n))
  | inr (m, f) ↦ ground (arith, f, decode_char_bounded c d f, decode_chars_bounded text m {e = e})
]

finish_lem :
    (decoded : Bytes) (quartet : List Symbol) (finished : Bool) {bytes : Bytes}
    → finish (some (record { decoded = decoded; quartet = quartet; finished = finished }))
      ≡ some bytes
    → (0 < length bytes) × (length bytes ≡ length decoded)
finish_lem [] quartet finished h = absurd (ground arith)
finish_lem (b ∷ decoded) quartet finished h = ground arith

-- A decoded photo is not empty, and it fits into a buffer of the length of its text.
pub photo_decode_bytes_bounded :
    (text : Bytes) {bytes : Bytes}
    → photo_decode_bytes (some text) ≡ some bytes
    → (0 < length bytes) × (length bytes ≤ length text)
unfolding photo_decode_bytes held
photo_decode_bytes_bounded text {bytes} h = elim (Option-cases (decode_chars text empty_decoder)) [
  | inl n ↦ absurd (ground (arith, n))
  | inr (d, f) ↦ ground (
    arith,
    f,
    finish_lem d.decoded d.quartet d.finished {bytes = bytes},
    decode_chars_bounded text empty_decoder f,
  )
]
