-- ===== src/Journal/Etag.antt =====
-- `RCWriteETagIsStrong` of source/shared/RCWriteJournal.c.
use retro_cloud_sync.Prelude.{
  ℕ, ◌≤◌, ◌≡◌, ◌≢◌, refl, ap, ◌↔◌, Bool, true, false, not, ◌&&◌, ◌||◌, Option, none, some, [], ◌∷◌,
  ◌++◌, arith, ltb, ◌==◌, Bytes, All,
}

-- A byte that the loop refuses.
abbrev pub refused : ℕ → Bool
refused c = ltb c 0x21 || c == b'"' || c == 0x7f

-- From `s + 1` on: the last byte is the closing quote, and the loop passes those before it.
unfoldable pub closes : Bytes → Bool
closes [] = false
closes (c ∷ []) = c == b'"'
closes (c ∷ d ∷ rest) = not (refused c) && closes (d ∷ rest)

unfoldable pub etag_is_strong : Option Bytes → Bool
unfolding closes
etag_is_strong none = false
etag_is_strong (some []) = false
etag_is_strong (some (c ∷ rest)) = c == b'"' && closes rest

-- The bytes of an opaque tag.
abbrev pub IsOpaque : ℕ → Type 0
IsOpaque c = (0x21 ≤ c) × (c ≢ b'"') × (c ≢ 0x7f)

closes_sound : (s : Bytes) → closes s ≡ true → (m : Bytes) × (s ≡ m ++ b'"' ∷ []) × All IsOpaque m
unfolding closes
closes_sound [] h = cc
closes_sound (c ∷ []) h = ([], ground arith, tt)
closes_sound (c ∷ d ∷ rest) h =
    let (m, e, o) = closes_sound (d ∷ rest) (ground arith) in
    (c ∷ m, ap (◌∷◌ c) e, (ground arith, o))

closes_complete : (m : Bytes) → All IsOpaque m → closes (m ++ b'"' ∷ []) ≡ true
unfolding closes
closes_complete [] h = refl
closes_complete (c ∷ []) h = ground arith
closes_complete (c ∷ d ∷ m) h = ground (arith, closes_complete (d ∷ m) h.1)

-- A tag is strong exactly when it is an opaque tag between two quotes: so no weak tag, no
-- missing tag and no tag with a space, a control character or a quote inside is.
pub etag_is_strong_iff :
    (etag : Option Bytes)
    → (etag_is_strong etag ≡ true)
      ↔ ((m : Bytes) × (etag ≡ some (b'"' ∷ (m ++ b'"' ∷ []))) × All IsOpaque m)
unfolding etag_is_strong
etag_is_strong_iff none = (λ h. cc, λ (m, e, o). cc)
etag_is_strong_iff (some []) = (λ h. cc, λ (m, e, o). cc)
etag_is_strong_iff (some (c ∷ s)) = (
  (λ h.
      let (m, e, o) = closes_sound s (ground arith) in
      let q : c ≡ b'"' = ground arith in (m, cc, o)),
  (λ (m, e, o). ground (arith, closes_complete m o)),
)
