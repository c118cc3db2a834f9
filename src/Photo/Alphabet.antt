-- ===== src/Photo/Alphabet.antt =====
-- The alphabet of the encoder against the digits of the decoder.
use retro_cloud_sync.Prelude.{
  sym, ℕ, zero, suc, ◌<◌, ◌≡◌, refl, ◌⊎◌, inl, inr, subst, Bool, true, false, not, ◌&&◌, Option,
  none, some, arith, ◌==◌,
}
use retro_cloud_sync.Photo.Codec.{digit, letter, symbol, value, padding, Symbol, is_space}

all_below : (ℕ → Bool) → ℕ → Bool
all_below p zero = true
all_below p (suc n) = p n && all_below p n

all_below_lem : (p : ℕ → Bool) (n k : ℕ) → all_below p n ≡ true → k < n → p k ≡ true
unfolding all_below
all_below_lem p zero k h l = absurd (omega arith)
all_below_lem p (suc n) k h l =
    let last : (k ≡ n) ⊎ (k < n) = omega arith in
    elim last [
      | inl e ↦ subst (λ x. p x ≡ true) (sym e) (ground arith)
      | inr b ↦ all_below_lem p n k (ground arith) b
    ]

abbrev is_value : ℕ → Option Symbol → Bool
is_value k none = false
is_value k (some padding) = false
is_value k (some (value n)) = n == k

is_value_lem : (k : ℕ) (s : Option Symbol) → is_value k s ≡ true → s ≡ some (value k)
is_value_lem k none h = absurd (ground arith)
is_value_lem k (some padding) h = absurd (ground arith)
is_value_lem k (some (value n)) h = ground arith

is_letter : ℕ → Bool
is_letter k = is_value k (symbol (letter k)) && not (is_space (letter k))

letters : all_below is_letter 64 ≡ true
unfolding all_below is_letter symbol digit letter
letters = refl

-- The letter of a 6-bit number is read as that number.
pub symbol-letter : (k : ℕ) → k < 64 → symbol (letter k) ≡ some (value k)
unfolding is_letter
symbol-letter k h =
    is_value_lem k (symbol (letter k)) (ground (arith, all_below_lem is_letter 64 k letters h))

pub is_space-letter : (k : ℕ) → k < 64 → is_space (letter k) ≡ false
unfolding is_letter
is_space-letter k h = ground (arith, all_below_lem is_letter 64 k letters h)
