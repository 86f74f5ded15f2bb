-- ===== src/Base/Decimal.antt =====
-- Decimal numbers: `%d`, `strconv.ParseUint(s, 10, 32)` and `strconv.Atoi`.
pub mod RoundTrip
use Prim.Native.Char.{Char, char, code}
use Prim.Native.String.{◌++◌}
use go_forward_proxy.Base.{
  ℕ, zero, suc, ◌+◌, ◌-◌, ◌*◌, ◌/◌, ◌%◌, ◌^◌, String, ◌≡◌, refl, ◌||◌, Option, none, some, ltb,
  ◌==◌, if◌then◌else◌,
}
use go_forward_proxy.Base.Int.{ℤ, pos, negsuc, two_63}

digit : ℕ → Char
digit zero = char b'0' tt
digit (suc zero) = char b'1' tt
digit (suc (suc zero)) = char b'2' tt
digit (suc (suc (suc zero))) = char b'3' tt
digit (suc (suc (suc (suc zero)))) = char b'4' tt
digit (suc (suc (suc (suc (suc zero))))) = char b'5' tt
digit (suc (suc (suc (suc (suc (suc zero)))))) = char b'6' tt
digit (suc (suc (suc (suc (suc (suc (suc zero))))))) = char b'7' tt
digit (suc (suc (suc (suc (suc (suc (suc (suc zero)))))))) = char b'8' tt
digit _ = char b'9' tt

-- The digits of a number in front of a text. Each round divides by ten, so the number itself is
-- fuel enough.
digits : ℕ → ℕ → String → String
digits zero n out = out
digits (suc fuel) n out =
    let out' = String.◌∷◌ (digit (n % 10)) out in
    let rest = digits fuel (n / 10) out' in if ltb n 10 then out' else rest

-- `%d` of an unsigned number
unfoldable pub format_nat : ℕ → String
unfolding digit digits
format_nat n = digits (suc n) n ""

-- `%d` of an `int`
unfoldable pub format_int : ℤ → String
unfolding format_nat
format_int (pos n) = format_nat n
format_int (negsuc n) = "-" ++ format_nat (suc n)

-- The digits of a text after the number read so far, up to a greatest value.
scan : ℕ → String → ℕ → Option ℕ
scan top String.[] n = some n
scan top (String.◌∷◌ c s) n =
    let next = n * 10 + (code c - b'0') in
    let rest = scan top s next in
    if ltb (code c) b'0' || ltb b'9' (code c) || ltb top next then none else rest

-- the text has a digit at least
abbrev nonempty : (String → Option ℕ) → String → Option ℕ
nonempty f String.[] = none
nonempty f (String.◌∷◌ c s) = f (String.◌∷◌ c s)

-- `strconv.ParseUint(s, 10, 32)`; `none` is any of its errors.
unfoldable pub parse_uint32 : String → Option ℕ
unfolding scan
parse_uint32 = nonempty (λ s. scan (2 ^ 32 - 1) s 0)

abbrev negated : ℕ → ℤ
negated zero = pos 0
negated (suc n) = negsuc n

abbrev as_int : (ℕ → ℤ) → Option ℕ → Option ℤ
as_int f none = none
as_int f (some n) = some (f n)

-- `strconv.Atoi(s)` on a 64-bit platform; `none` is any of its errors.
unfoldable pub atoi : String → Option ℤ
unfolding scan
atoi String.[] = none
atoi (String.◌∷◌ c s) =
    if code c == b'-'
    then as_int negated (nonempty (λ t. scan two_63 t 0) s)
    else if code c == b'+'
    then as_int pos (nonempty (λ t. scan (two_63 - 1) t 0) s)
    else as_int pos (scan (two_63 - 1) (String.◌∷◌ c s) 0)

format_nat_test : format_nat 10007 ≡ "10007"
unfolding format_nat
format_nat_test = refl

parse_uint32_test : parse_uint32 "4294967295" ≡ some 4294967295
unfolding parse_uint32
parse_uint32_test = refl

parse_uint32_overflow : parse_uint32 "4294967296" ≡ none
unfolding parse_uint32
parse_uint32_overflow = refl

atoi_test : atoi "-12" ≡ some (negsuc 11)
unfolding atoi
atoi_test = refl
