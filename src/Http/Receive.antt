-- ===== src/Http/Receive.antt =====
-- The callbacks that libcurl calls while a response comes in: `RCCopyHeaderValue`,
-- `RCReceiveBody`, `RCReceiveHeader` and `RCHostHasSuffix` of source/shared/RCHTTPClient.c.
use retro_cloud_sync.Prelude.{
  ℕ, ◌+◌, ◌-◌, ◌*◌, ◌/◌, ◌%◌, ◌^◌, Bool, true, not, ◌&&◌, ◌||◌, Option, none, some, [], ◌∷◌, ◌++◌,
  ltb, ◌==◌, if◌then◌else◌, Bytes, codes, same_case, length, take, drop, is_empty,
}
use retro_cloud_sync.Http.Model.{Response}

abbrev is_blank : ℕ → Bool
is_blank c = c == b' ' || c == b'\t'

abbrev is_line_space : ℕ → Bool
is_line_space c = c == b'\r' || c == b'\n' || c == b' ' || c == b'\t'

-- The first loop of `RCCopyHeaderValue`.
unfoldable pub trim_left : Bytes → Bytes
trim_left [] = []
trim_left (c ∷ rest) = if is_blank c then trim_left rest else c ∷ rest

-- The second loop: the bytes up to the last that is neither blank nor a line end.
unfoldable pub trim_right : Bytes → Bytes
trim_right [] = []
trim_right (c ∷ rest) =
    let kept = trim_right rest in if is_empty kept && is_line_space c then [] else c ∷ kept

unfoldable pub header_value : Bytes → Bytes
header_value value = trim_right (trim_left value)

-- `RCWriteContext`: the body so far, the limit and the flag.
pub record Receiving : Type 0 where
  pub body : Bytes
  pub maximum_bytes : ℕ
  pub exceeded_limit : Bool

abbrev pub size_mod : ℕ
size_mod = 2 ^ 64

abbrev pub exceed : Receiving → Receiving
exceed r = record r { exceeded_limit = true }

-- `RCReceiveBody` at `size * count` bytes of which `bytes` is the data; it returns the bytes taken.
-- The difference in the second test is a `size_t`, and wraps around.
unfoldable pub receive_body : ℕ → ℕ → Bytes → Receiving → Receiving × ℕ
receive_body size count bytes r =
    let byte_count = (size * count) % size_mod in
    if not (size == 0) && not (byte_count / size == count)
    then (exceed r, 0)
    else if ltb ((r.maximum_bytes + size_mod - length r.body) % size_mod) byte_count
    then (exceed r, 0)
    else (record r { body = r.body ++ take byte_count bytes }, byte_count)

-- The bytes before the first colon and those behind it.
unfoldable pub split_colon : Bytes → Option (Bytes × Bytes)
split_colon [] = none
split_colon (c ∷ rest) =
    if c == b':'
    then some ([], rest)
    else elim (split_colon rest) [ none ↦ none | some (name, value) ↦ some (c ∷ name, value) ]

-- `RCReceiveHeader` on one header line: the three headers that are kept, the last one of a name wins.
unfoldable pub receive_header : Bytes → Response → Response
receive_header bytes r = elim (split_colon bytes) [
  | none ↦ r
  | some (name, value) ↦
      if same_case name (codes "Location")
      then record r { location = some (header_value value) }
      else if same_case name (codes "ETag")
      then record r { etag = some (header_value value) }
      else if same_case name (codes "Content-Type")
      then record r { content_type = some (header_value value) }
      else r
]

-- `RCHostHasSuffix`.
unfoldable pub host_has_suffix : Bytes → Option Bytes → Bool
host_has_suffix host none = true
host_has_suffix host (some []) = true
host_has_suffix host (some (c ∷ rest)) =
    not (ltb (length host) (length (c ∷ rest)))
    && same_case (drop (length host - length (c ∷ rest)) host) (c ∷ rest)
