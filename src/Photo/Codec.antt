-- ===== src/Photo/Codec.antt =====
-- Base64 of contact photos: `Digit`, `RCPhotoDecodeBytes`, `RCPhotoEncodeBytes` and
-- `RCPhotoMediaType` of source/shared/RCPhotoCodec.c. A shifted value and a value of its low bits have
-- no bit in common, so `|` is `+`; what is stored in an `unsigned char` is reduced modulo 256.
use retro_cloud_sync.Prelude.{
  ℕ, ◌+◌, ◌-◌, ◌*◌, ◌/◌, ◌%◌, ◌^◌, Bool, true, false, not, ◌&&◌, ◌||◌, Option, none, some, List, [],
  ◌∷◌, ◌++◌, ltb, leb, ◌==◌, if◌then◌else◌, Bytes, Buffer, null, at, codes, length, get_elem?,
  starts_with, is_empty,
}

-- `Digit`: -1 is `none`.
unfoldable pub digit : ℕ → Option ℕ
digit c =
    if leb b'A' c && leb c b'Z'
    then some (c - b'A')
    else if leb b'a' c && leb c b'z'
    then some (c - b'a' + 26)
    else if leb b'0' c && leb c b'9'
    then some (c - b'0' + 52)
    else if c == b'+'
    then some 62
    else if c == b'/'
    then some 63
    else none

-- An element of `quartet`: a digit, or -2 for the padding.
pub data Symbol : Type 0 where
  value : ℕ → Symbol
  padding : Symbol

abbrev pub value_of : Option ℕ → Option Symbol
value_of none = none
value_of (some n) = some (value n)

unfoldable pub symbol : ℕ → Option Symbol
symbol c = if c == b'=' then some padding else value_of (digit c)

-- The bytes of a full quartet, and whether it is the last one; `none` is `goto invalid`.
unfoldable pub decode_quartet : Symbol → Symbol → Symbol → Symbol → Option (Bytes × Bool)
decode_quartet (value a) (value b) (value c) (value d) =
    some ((a * 4 + b / 16) % 256 ∷ (b * 16 + c / 4) % 256 ∷ (c * 64 + d) % 256 ∷ [], false)
decode_quartet (value a) (value b) (value c) padding =
    if not (c % 4 == 0)
    then none
    else some ((a * 4 + b / 16) % 256 ∷ (b * 16 + c / 4) % 256 ∷ [], true)
decode_quartet (value a) (value b) padding padding =
    if not (b % 16 == 0) then none else some ((a * 4 + b / 16) % 256 ∷ [], true)
decode_quartet _ _ _ _ = none

-- The locals of the decoding loop.
pub record Decoder : Type 0 where
  pub decoded : Bytes
  pub quartet : List Symbol
  pub finished : Bool

abbrev pub stored : Decoder → Option (Bytes × Bool) → Option Decoder
stored d none = none
stored d (some (bytes, last)) =
    some (record { decoded = d.decoded ++ bytes; quartet = []; finished = last })

-- `quartet[n++]=value`, and the four values of a full one.
unfoldable pub add_symbol : Decoder → List Symbol → Option Decoder
add_symbol d (p ∷ q ∷ r ∷ s ∷ []) = stored d (decode_quartet p q r s)
add_symbol d quartet = some (record d { quartet = quartet })

abbrev pub is_space : ℕ → Bool
is_space c = c == b' ' || c == 9 || c == 13 || c == 10

abbrev pub decode_symbol : Decoder → Option Symbol → Option Decoder
decode_symbol d none = none
decode_symbol d (some s) = if d.finished then none else add_symbol d (d.quartet ++ s ∷ [])

-- One turn of the loop.
unfoldable pub decode_char : ℕ → Decoder → Option Decoder
decode_char c d = if is_space c then some d else decode_symbol d (symbol c)

unfoldable pub decode_chars : Bytes → Decoder → Option Decoder
decode_chars [] d = some d
decode_chars (c ∷ text) d = elim (decode_char c d) [ none ↦ none | some e ↦ decode_chars text e ]

abbrev pub empty_decoder : Decoder
empty_decoder = record { decoded = []; quartet = []; finished = false }

-- A text that ends inside a quartet, or without a byte, is not a photo.
abbrev pub finish : Option Decoder → Option Bytes
finish none = none
finish (some d) = if not (is_empty d.quartet) || is_empty d.decoded then none else some d.decoded

-- `RCPhotoDecodeBytes`: an empty text and NULL are refused at once.
unfoldable pub photo_decode_bytes : Option Bytes → Option Bytes
photo_decode_bytes none = none
photo_decode_bytes (some text) =
    if is_empty text then none else finish (decode_chars text empty_decoder)

abbrev pub alphabet : Bytes
alphabet = codes "ABCDEFGHIJKLMNOPQRSTUVWXYZabcdefghijklmnopqrstuvwxyz0123456789+/"

abbrev pub char_or_zero : Option ℕ → ℕ
char_or_zero none = 0
char_or_zero (some c) = c

-- `alphabet[n]`, whose element 64 is the end of the string.
unfoldable pub letter : ℕ → ℕ
letter n = char_or_zero (get_elem? alphabet n)

-- The encoding loop, which takes three bytes in a turn.
unfoldable pub encode_bytes : Bytes → Bytes
encode_bytes [] = []
encode_bytes (a ∷ []) = letter (a / 4) ∷ letter (a % 4 * 16) ∷ b'=' ∷ b'=' ∷ []
encode_bytes (a ∷ b ∷ []) =
    letter (a / 4) ∷ letter (a % 4 * 16 + b / 16) ∷ letter (b % 16 * 4) ∷ b'=' ∷ []
encode_bytes (a ∷ b ∷ c ∷ bytes) =
    letter (a / 4)
    ∷ letter (a % 4 * 16 + b / 16)
    ∷ letter (b % 16 * 4 + c / 64)
    ∷ letter (c % 64)
    ∷ encode_bytes bytes

-- `((size_t)-1)/4*3-3` where `size_t` has 64 bits.
abbrev pub longest_photo : ℕ
longest_photo = (2 ^ 64 - 1) / 4 * 3 - 3

-- `RCPhotoEncodeBytes`.
unfoldable pub photo_encode_bytes : Buffer → Option Bytes
photo_encode_bytes (null n) = none
photo_encode_bytes (at bytes) =
    if is_empty bytes || ltb longest_photo (length bytes) then none else some (encode_bytes bytes)

-- `RCPhotoMediaType`.
unfoldable pub photo_media_type : Buffer → Option Bytes
photo_media_type (null n) = none
photo_media_type (at p) =
    if starts_with p (255 ∷ 216 ∷ 255 ∷ [])
    then some (codes "JPEG")
    else if starts_with p (137 ∷ b'P' ∷ b'N' ∷ b'G' ∷ 13 ∷ 10 ∷ 26 ∷ 10 ∷ [])
    then some (codes "PNG")
    else if starts_with p (codes "GIF87a") || starts_with p (codes "GIF89a")
    then some (codes "GIF")
    else if starts_with p (b'I' ∷ b'I' ∷ 42 ∷ 0 ∷ []) || starts_with p (b'M' ∷ b'M' ∷ 0 ∷ 42 ∷ [])
    then some (codes "TIFF")
    else none
