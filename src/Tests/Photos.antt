-- ===== src/Tests/Photos.antt =====
-- The theorems on photos at the first bytes of a JPEG.
use retro_cloud_sync.Prelude.{◌≡◌, some, [], ◌∷◌, arith, Bytes, at}
use retro_cloud_sync.Photo.Codec.{photo_encode_bytes, photo_decode_bytes}
use retro_cloud_sync.Photo.RoundTrip.{decode-encode}

abbrev jpeg : Bytes
jpeg = 255 ∷ 216 ∷ 255 ∷ 224 ∷ []

decode-encode_example :
    (text : Bytes) × (photo_encode_bytes (at jpeg) ≡ some text)
    × (photo_decode_bytes (some text) ≡ some jpeg)
decode-encode_example =
    decode-encode jpeg (omega arith) (omega arith)
      (omega arith, (omega arith, (omega arith, (omega arith, tt))))
