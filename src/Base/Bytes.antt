-- ===== src/Base/Bytes.antt =====
-- Bytes as numbers below 256: their order in a machine integer, and hexadecimal digits.
use go_forward_proxy.Base.{
  ℕ, zero, suc, ◌+◌, ◌-◌, ◌*◌, ◌/◌, ◌%◌, ◌^◌, ◌≡◌, ◌≤◌, refl, ap, Bool, true, false, ◌&&◌, Option,
  none, some, List, [], ◌∷◌, ◌==◌, arith, if◌then◌else◌,
}
use mathlib.Core.List.{◌++◌ as ◌+++◌}
use go_forward_proxy.Base.Int.{ℤ, pos, negsuc, two_64, signed}

abbrev pub Bytes : Type 0
Bytes = List ℕ

module _ {ℓ} {A : Type ℓ} where
  unfoldable pub length : List A → ℕ
  length [] = 0
  length (x ∷ xs) = suc (length xs)

  unfoldable pub take : ℕ → List A → List A
  take zero xs = []
  take (suc n) [] = []
  take (suc n) (x ∷ xs) = x ∷ take n xs

  unfoldable pub drop : ℕ → List A → List A
  drop zero xs = xs
  drop (suc n) [] = []
  drop (suc n) (x ∷ xs) = drop n xs

  pub take-append : (xs ys : List A) → take (length xs) (xs +++ ys) ≡ xs
  unfolding take length
  take-append [] ys = refl
  take-append (x ∷ xs) ys = ground (arith, take-append xs ys)

  pub drop-append : (xs ys : List A) → drop (length xs) (xs +++ ys) ≡ ys
  unfolding drop length
  drop-append [] ys = refl
  drop-append (x ∷ xs) ys = drop-append xs ys

  pub length-append : (xs ys : List A) → length xs ≤ length (xs +++ ys)
  unfolding length
  length-append [] ys = omega arith
  length-append (x ∷ xs) ys = omega (arith, length-append xs ys)

  -- a list of that length at least is put together again from its two parts
  pub take-drop : (n : ℕ) (xs : List A) → n ≤ length xs → take n xs +++ drop n xs ≡ xs
  unfolding take drop length
  take-drop zero xs h = refl
  take-drop (suc n) [] h = absurd (omega (arith, h))
  take-drop (suc n) (x ∷ xs) h = ap (λ ys. x ∷ ys) (take-drop n xs (omega (arith, h)))

  pub length-take : (n : ℕ) (xs : List A) → n ≤ length xs → length (take n xs) ≡ n
  unfolding take length
  length-take zero xs h = refl
  length-take (suc n) [] h = absurd (omega (arith, h))
  length-take (suc n) (x ∷ xs) h = ap suc (length-take n xs (omega (arith, h)))

  pub take-length : (xs : List A) → take (length xs) xs ≡ xs
  unfolding take length
  take-length [] = refl
  take-length (x ∷ xs) = ground (arith, take-length xs)

-- the element at an index, or zero behind the end
unfoldable pub byte_at : ℕ → Bytes → ℕ
byte_at n [] = 0
byte_at zero (x ∷ xs) = x
byte_at (suc n) (x ∷ xs) = byte_at n xs

-- `bytes.Cut`, at a separator of one byte
unfoldable pub cut_bytes : ℕ → Bytes → Option (Bytes × Bytes)
cut_bytes sep [] = none
cut_bytes sep (b ∷ bs) =
    let rest = cut_bytes sep bs in
    if b == sep
    then some ([], bs)
    else elim rest [ none ↦ none | some (xs, ys) ↦ some (b ∷ xs, ys) ]

unfoldable pub eq_bytes : Bytes → Bytes → Bool
eq_bytes [] [] = true
eq_bytes (x ∷ xs) (y ∷ ys) = x == y && eq_bytes xs ys
eq_bytes _ _ = false

pub eq_bytes_refl : (bs : Bytes) → eq_bytes bs bs ≡ true
unfolding eq_bytes
eq_bytes_refl [] = refl
eq_bytes_refl (b ∷ bs) = ground (arith, eq_bytes_refl bs)

-- the bit pattern of an `int64`
abbrev pub pattern_of : ℤ → ℕ
pattern_of (pos n) = n % two_64
pattern_of (negsuc n) = two_64 - 1 - n % two_64

-- `binary.Write(w, binary.BigEndian, n)` of an `int64`, in front of other bytes
abbrev be64 : ℕ → Bytes → Bytes
be64 n bs =
    n / 2 ^ 56 % 256
    ∷ n / 2 ^ 48 % 256
    ∷ n / 2 ^ 40 % 256
    ∷ n / 2 ^ 32 % 256
    ∷ n / 2 ^ 24 % 256
    ∷ n / 2 ^ 16 % 256
    ∷ n / 2 ^ 8 % 256
    ∷ n % 256
    ∷ bs

unfoldable pub put_int64 : ℤ → Bytes → Bytes
put_int64 z bs = be64 (pattern_of z) bs

-- `binary.Decode` of an `int64`, with the bytes behind it
unfoldable pub get_int64 : Bytes → Option (ℤ × Bytes)
get_int64 (a ∷ b ∷ c ∷ d ∷ e ∷ f ∷ g ∷ h ∷ bs) = some (
  signed
      (a * 2 ^ 56 + b * 2 ^ 48 + c * 2 ^ 40 + d * 2 ^ 32 + e * 2 ^ 24 + f * 2 ^ 16 + g * 2 ^ 8 + h),
  bs,
)
get_int64 _ = none
