-- ===== src/Photo/RoundTrip.antt =====
-- What the encoder writes, the decoder reads.
use retro_cloud_sync.Prelude.{
  is_empty, ◌≤◌, ℕ, ◌<◌, ◌+◌, ◌*◌, ◌/◌, ◌%◌, ◌≡◌, refl, ◌∙◌, ap, Bool, true, false, some, [], ◌∷◌,
  ◌++◌, append_assoc, append-nil, arith, Bytes, at, length, All,
}
use retro_cloud_sync.Photo.Codec.{
  letter, symbol, value, padding, Symbol, is_space, Decoder, decode_quartet, add_symbol,
  decode_char, decode_chars, encode_bytes, photo_encode_bytes, photo_decode_bytes, longest_photo,
}
use retro_cloud_sync.Photo.Alphabet.{symbol-letter, is_space-letter}

record Reads (c : ℕ) (s : Symbol) : Type 0 where
  visible : is_space c ≡ false
  read : symbol c ≡ some s

abbrev start : Bytes → Bool → Decoder
start out last = record { decoded = out; quartet = []; finished = last }

letter-Reads : (k : ℕ) → k < 64 → Reads (letter k) (value k)
letter-Reads k h = record { visible = is_space-letter k h; read = symbol-letter k h }

padding-Reads : Reads b'=' padding
unfolding symbol
padding-Reads = record { visible = refl; read = refl }

-- A turn of four characters.
decode_chars_quartet :
    {c d e f : ℕ} {p q r s : Symbol} {bytes : Bytes} {last : Bool} (out text : Bytes)
    → Reads c p
    → Reads d q
    → Reads e r
    → Reads f s
    → decode_quartet p q r s ≡ some (bytes, last)
    → decode_chars (c ∷ d ∷ e ∷ f ∷ text) (start out false)
      ≡ decode_chars text (start (out ++ bytes) last)
unfolding decode_chars decode_char add_symbol
decode_chars_quartet out text w x y z h =
    ground (arith, w.visible, w.read, x.visible, x.read, y.visible, y.read, z.visible, z.read, h)

abbrev IsByte : ℕ → Type 0
IsByte b = b < 256

triple :
    (a b c : ℕ)
    → IsByte a
    → IsByte b
    → IsByte c
    → ((a / 4 * 4 + (a % 4 * 16 + b / 16) / 16) % 256 ≡ a)
      × (((a % 4 * 16 + b / 16) * 16 + (b % 16 * 4 + c / 64) / 4) % 256 ≡ b)
      × (((b % 16 * 4 + c / 64) * 64 + c % 64) % 256 ≡ c)
triple a b c h i j = (omega (arith, h, i), omega (arith, h, i, j), omega (arith, i, j))

one_byte :
    (a : ℕ)
    → IsByte a
    → decode_quartet (value (a / 4)) (value (a % 4 * 16)) padding padding ≡ some (a ∷ [], true)
unfolding decode_quartet
one_byte a h = ground (arith, h)

two_bytes :
    (a b : ℕ)
    → IsByte a
    → IsByte b
    → decode_quartet (value (a / 4)) (value (a % 4 * 16 + b / 16)) (value (b % 16 * 4)) padding
      ≡ some (a ∷ b ∷ [], true)
unfolding decode_quartet
two_bytes a b h i = ground (arith, h, i)

decode_chars-encode_bytes :
    (bytes out : Bytes)
    → All IsByte bytes
    → (last : Bool) × (decode_chars (encode_bytes bytes) (start out false)
        ≡ some (start (out ++ bytes) last))
unfolding encode_bytes decode_quartet
decode_chars-encode_bytes [] out h = (false, unfold decode_chars in rw (append-nil out) refl)
decode_chars-encode_bytes (a ∷ []) out h = (
  true,
  decode_chars_quartet out [] (letter-Reads (a / 4) (omega (arith, h.0)))
        (letter-Reads (a % 4 * 16) (omega (arith, h.0))) padding-Reads padding-Reads
        (one_byte a h.0)
      ∙ unfold decode_chars in refl,
)
decode_chars-encode_bytes (a ∷ b ∷ []) out h = (
  true,
  decode_chars_quartet out [] (letter-Reads (a / 4) (omega (arith, h.0)))
        (letter-Reads (a % 4 * 16 + b / 16) (omega (arith, h.0, h.1.0)))
        (letter-Reads (b % 16 * 4) (omega (arith, h.1.0))) padding-Reads (two_bytes a b h.0 h.1.0)
      ∙ unfold decode_chars in refl,
)
decode_chars-encode_bytes (a ∷ b ∷ c ∷ bytes) out h =
    let (last, rest) = decode_chars-encode_bytes bytes (out ++ a ∷ b ∷ c ∷ []) h.1.1.1 in
    let (x, y, z) = triple a b c h.0 h.1.0 h.1.1.0 in
    (
      last,
      decode_chars_quartet out (encode_bytes bytes) (letter-Reads (a / 4) (omega (arith, h.0)))
            (letter-Reads (a % 4 * 16 + b / 16) (omega (arith, h.0, h.1.0)))
            (letter-Reads (b % 16 * 4 + c / 64) (omega (arith, h.1.0, h.1.1.0)))
            (letter-Reads (c % 64) (omega (arith, h.1.1.0))) (rw (x, y, z) refl)
          ∙ rest
          ∙ ap (λ l. some (start l last)) (append_assoc out (a ∷ b ∷ c ∷ []) bytes),
    )

encode_bytes_some : (a : ℕ) (bytes : Bytes) → is_empty (encode_bytes (a ∷ bytes)) ≡ false
unfolding encode_bytes
encode_bytes_some a [] = refl
encode_bytes_some a (b ∷ []) = refl
encode_bytes_some a (b ∷ c ∷ bytes) = refl

-- The text that photo_encode_bytes writes is decoded to the same bytes, for every list of bytes
-- that is not empty and not longer than the encoder accepts.
pub decode-encode :
    (bytes : Bytes)
    → 0 < length bytes
    → length bytes ≤ longest_photo
    → All IsByte bytes
    → (text : Bytes) × (photo_encode_bytes (at bytes) ≡ some text)
      × (photo_decode_bytes (some text) ≡ some bytes)
unfolding photo_encode_bytes photo_decode_bytes encode_bytes
decode-encode (a ∷ bytes) h l b =
    let (last, decoded) = decode_chars-encode_bytes (a ∷ bytes) [] b in
    (encode_bytes (a ∷ bytes), ground (arith, l), rw (encode_bytes_some a bytes, decoded) refl)
decode-encode [] h l b = absurd (omega arith)
