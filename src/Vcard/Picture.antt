-- ===== src/Vcard/Picture.antt =====
-- The photo of a vCard: `RCPhotoFromVCard` of source/shared/RCPhotoCodec.c.
use retro_cloud_sync.Prelude.{
  Bool, false, not, ◌&&◌, ◌||◌, Option, none, some, List, [], ◌∷◌, if◌then◌else◌, Bytes, codes,
  same_case, is_some,
}
use retro_cloud_sync.Photo.Codec.{photo_decode_bytes}
use retro_cloud_sync.Vcard.Document.{Parameter, Property, Document}

abbrev pub is_photo : Property → Bool
is_photo p = same_case p.name (codes "PHOTO")

-- The loop over the parameters of a photo: whether it is binary, `none` if it cannot be read.
unfoldable pub photo_encoding : Bool → List Parameter → Option Bool
photo_encoding binary [] = some binary
photo_encoding binary (p ∷ parameters) =
    if same_case p.name (codes "ENCODING")
      && not (same_case p.value (codes "b"))
      && not (same_case p.value (codes "BASE64"))
    then none
    else if same_case p.name (codes "VALUE") && not (same_case p.value (codes "binary"))
    then none
    else photo_encoding (binary || same_case p.name (codes "ENCODING")) parameters

unfoldable pub photo_of : Property → Option Bytes
photo_of p = elim (photo_encoding false p.parameters) [
  | none ↦ none
  | some binary ↦ if binary then photo_decode_bytes (some p.original_value) else none
]

-- The only photo among the properties.
unfoldable pub only_photo : Option Property → List Property → Option Property
only_photo photo [] = photo
only_photo photo (p ∷ properties) =
    if is_photo p
    then (if is_some photo then none else only_photo (some p) properties)
    else only_photo photo properties

-- `RCPhotoFromVCard`.
unfoldable pub photo_from_vcard : Document → Option Bytes
photo_from_vcard d = elim (only_photo none d.properties) [ none ↦ none | some p ↦ photo_of p ]
