-- ===== src/Prelude/Text.antt =====
-- C strings and buffers as lists of byte values, with `strcmp`, `strncasecmp` and character tests.
use Prim.Native.Char.{code}
use Prim.Native.Nat.{ℕ, zero, suc, ◌+◌, ◌-◌, ◌^◌, ◌/◌, ◌%◌}
use Prim.Native.String.{String}
use mathlib.Core.Path.{◌≡◌, refl}
use mathlib.Core.Logic.{◌↔◌}
use mathlib.Core.Bool.{◌||◌, Bool, true, false, ◌&&◌}
use mathlib.Core.List.{List, [], ◌∷◌}
use mathlib.Core.Option.{Option, none, some}
use native.Mathlib.Omega.{arith}
use retro_cloud_sync.Prelude.Lists.{length}
use retro_cloud_sync.Prelude.Tests.{ltb, leb, ◌==◌, if◌then◌else◌}

abbrev pub Bytes : Type 0
Bytes = List ℕ

-- The bytes of an ASCII literal.
abbrev pub codes : String → Bytes
codes String.[] = []
codes (String.◌∷◌ c s) = code c ∷ codes s

-- `strcmp(a, b) == 0`, and `memcmp` at equal lengths.
unfoldable pub same : Bytes → Bytes → Bool
same [] [] = true
same (x ∷ xs) (y ∷ ys) = x == y && same xs ys
same _ _ = false

pub same_iff : (a b : Bytes) → (same a b ≡ true) ↔ (a ≡ b)
unfolding same
same_iff (x ∷ a) (y ∷ b) = ground (arith, same_iff a b)
same_iff _ _ = ground arith

pub same_refl : (a : Bytes) → same a a ≡ true
same_refl a = (same_iff a a).1 refl

-- `!strncmp(s, prefix, strlen(prefix))`.
unfoldable pub starts_with : Bytes → Bytes → Bool
starts_with s [] = true
starts_with [] (y ∷ ys) = false
starts_with (x ∷ xs) (y ∷ ys) = x == y && starts_with xs ys

-- `strstr(text, part) != NULL`.
unfoldable pub contains : Bytes → Bytes → Bool
contains part [] = starts_with [] part
contains part (c ∷ text) = starts_with (c ∷ text) part || contains part text

abbrev pub is_empty {ℓ} : {A : Type ℓ} → List A → Bool
is_empty [] = true
is_empty (_ ∷ _) = false

-- `tolower` in the C locale.
unfoldable pub to_lower : ℕ → ℕ
to_lower c = if leb b'A' c && leb c b'Z' then c + 32 else c

-- `strcasecmp(a, b) == 0`.
unfoldable pub same_case : Bytes → Bytes → Bool
same_case [] [] = true
same_case (x ∷ xs) (y ∷ ys) = to_lower x == to_lower y && same_case xs ys
same_case _ _ = false

-- `!strncasecmp(s, prefix, strlen(prefix))`.
unfoldable pub starts_with_case : Bytes → Bytes → Bool
starts_with_case s [] = true
starts_with_case [] (y ∷ ys) = false
starts_with_case (x ∷ xs) (y ∷ ys) = to_lower x == to_lower y && starts_with_case xs ys

-- A pointer to a C string: NULL is `none`.
abbrev pub non_empty : Option Bytes → Bool
non_empty none = false
non_empty (some s) = if is_empty s then false else true

-- A pointer and a length: NULL with any length, or a buffer with its own.
pub data Buffer : Type 0 where
  null : ℕ → Buffer
  at : Bytes → Buffer

abbrev pub is_null : Buffer → Bool
is_null (null _) = true
is_null (at _) = false

abbrev pub size : Buffer → ℕ
size (null n) = n
size (at bytes) = length bytes

-- A column as the bytes that `sqlite3_column_blob` and `sqlite3_column_bytes` show.
abbrev pub bytes_of : Option Bytes → Bytes
bytes_of none = []
bytes_of (some bytes) = bytes

-- `blob`: NULL is bound for a null pointer.
abbrev pub column_of : Buffer → Option Bytes
column_of (null _) = none
column_of (at bytes) = some bytes

abbrev pub int_max : ℕ
int_max = 2 ^ 31 - 1

-- `%lld` of a number below 10 ^ 20: its decimal digits in front of `out`.
unfoldable pub digits : ℕ → ℕ → Bytes → Bytes
digits zero n out = out
digits (suc f) n out =
    let shown = (b'0' + n % 10) ∷ out in
    let rest = digits f (n / 10) shown in if ltb n 10 then shown else rest

unfoldable pub decimal : ℕ → Bytes
unfolding digits
decimal n = digits 20 n []
