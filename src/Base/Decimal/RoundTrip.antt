-- ===== src/Base/Decimal/RoundTrip.antt =====
-- Printed numbers are read back: `%d`, and then `strconv.ParseUint` or `strconv.Atoi`.
use Prim.Native.Char.{char, code}
use Prim.Native.String.{◌++◌}
use go_forward_proxy.Base.{
  ℕ, zero, suc, ◌+◌, ◌-◌, ◌*◌, ◌/◌, ◌%◌, ◌^◌, ◌≤◌, ◌<◌, String, ◌≡◌, ◌≢◌, refl, sym, ap, ◌∙◌, some,
  ltb, inl, inr, Bool-cases, arith,
}
use go_forward_proxy.Base.Int.{ℤ, ◌<ℤ◌, ◌≤ℤ◌, pos, negsuc, two_63}
use go_forward_proxy.Base.Text.Split.{one-append}
use go_forward_proxy.Base.Decimal.{
  digit, digits, scan, nonempty, format_nat, format_int, parse_uint32, atoi, negated, as_int,
}

digit_code : (d : ℕ) → d < 10 → code (digit d) ≡ b'0' + d
unfolding digit
digit_code zero h = refl
digit_code (suc zero) h = refl
digit_code (suc (suc zero)) h = refl
digit_code (suc (suc (suc zero))) h = refl
digit_code (suc (suc (suc (suc zero)))) h = refl
digit_code (suc (suc (suc (suc (suc zero))))) h = refl
digit_code (suc (suc (suc (suc (suc (suc zero)))))) h = refl
digit_code (suc (suc (suc (suc (suc (suc (suc zero))))))) h = refl
digit_code (suc (suc (suc (suc (suc (suc (suc (suc zero)))))))) h = refl
digit_code (suc (suc (suc (suc (suc (suc (suc (suc (suc zero))))))))) h = refl
digit_code (suc (suc (suc (suc (suc (suc (suc (suc (suc (suc d)))))))))) h = absurd (omega arith)

-- A digit is read onto the number in front of it.
scan-digit :
    (top d a : ℕ) (out : String)
    → d < 10
    → a * 10 + d ≤ top
    → scan top (String.◌∷◌ (digit d) out) a ≡ scan top out (a * 10 + d)
unfolding scan
scan-digit top d a out h k = ground (arith, digit_code d h)

-- The digits of a number are read as the number.
scan-digits :
    (top fuel n : ℕ) (out : String)
    → n < fuel
    → n ≤ top
    → scan top (digits fuel n out) 0 ≡ scan top out n
unfolding digits
scan-digits top zero n out h k = absurd (omega arith)
scan-digits top (suc fuel) n out h k = elim (Bool-cases (ltb n 10)) [
  | inl small ↦ rw small (ground (arith, scan-digit top (n % 10) 0 out (omega arith) (omega arith)))
  | inr large ↦
      let out' = String.◌∷◌ (digit (n % 10)) out in
      rw large (
        scan-digits top fuel (n / 10) out' (ground arith) (ground arith)
        ∙ scan-digit top (n % 10) (n / 10) out (omega arith) (omega arith)
        ∙ ap (scan top out) (omega arith))
]

-- a text that begins with a digit
abbrev Headed : String → Type 0
Headed s = (d : ℕ) × (t : String) × (d < 10) × (s ≡ String.◌∷◌ (digit d) t)

digits-Headed : (fuel n : ℕ) (out : String) → Headed out → Headed (digits fuel n out)
unfolding digits
digits-Headed zero n out h = h
digits-Headed (suc fuel) n out h =
    let front : Headed (String.◌∷◌ (digit (n % 10)) out) = (n % 10, out, omega arith, refl) in
    elim (Bool-cases (ltb n 10)) [
      | inl small ↦ rw small front
      | inr large ↦ rw large (digits-Headed fuel (n / 10) (String.◌∷◌ (digit (n % 10)) out) front)
    ]

format_nat-Headed : (n : ℕ) → Headed (format_nat n)
unfolding format_nat digits
format_nat-Headed n =
    let front : Headed (String.◌∷◌ (digit (n % 10)) "") = (n % 10, "", omega arith, refl) in
    elim (Bool-cases (ltb n 10)) [
      | inl small ↦ rw small front
      | inr large ↦ rw large (digits-Headed n (n / 10) (String.◌∷◌ (digit (n % 10)) "") front)
    ]

scan-format_nat : (top n : ℕ) → n ≤ top → scan top (format_nat n) 0 ≡ some n
unfolding format_nat scan
scan-format_nat top n h = scan-digits top (suc n) n "" (omega arith) h

-- The test for a text without digits passes.
nonempty-format_nat : (top n : ℕ) → n ≤ top → nonempty (λ s. scan top s 0) (format_nat n) ≡ some n
nonempty-format_nat top n h =
    let (d, t, _, e) = format_nat-Headed n in
    ap (nonempty (λ s. scan top s 0)) e ∙ sym (ap (λ s. scan top s 0) e) ∙ scan-format_nat top n h

-- `strconv.ParseUint(s, 10, 32)` reads a number of 32 bits that `%d` printed.
pub parse_uint32-format_nat : (n : ℕ) → n < 2 ^ 32 → parse_uint32 (format_nat n) ≡ some n
unfolding parse_uint32
parse_uint32-format_nat n h = nonempty-format_nat (2 ^ 32 - 1) n (omega arith)

atoi_unsigned : (s : String) → Headed s → atoi s ≡ as_int pos (scan (two_63 - 1) s 0)
unfolding atoi
atoi_unsigned s (d, t, l, e) = rw e (ground (arith, digit_code d l))

atoi_minus : (s : String) → atoi ("-" ++ s) ≡ as_int negated (nonempty (λ t. scan two_63 t 0) s)
unfolding atoi
atoi_minus s = rw (one-append (char b'-' tt) s) (ground arith)

-- `strconv.Atoi` reads an `int` that `%d` printed.
pub atoi-format_int :
    (z : ℤ) → z <ℤ pos two_63 → negsuc (two_63 - 1) ≤ℤ z → atoi (format_int z) ≡ some z
unfolding format_int
atoi-format_int (pos n) h k =
    atoi_unsigned (format_nat n) (format_nat-Headed n)
    ∙ ap (as_int pos) (scan-format_nat (two_63 - 1) n (omega arith))
atoi-format_int (negsuc n) h k =
    atoi_minus (format_nat (suc n))
    ∙ ap (as_int negated) (nonempty-format_nat two_63 (suc n) (omega arith))

pub format_int_nonempty : (z : ℤ) → format_int z ≢ ""
unfolding format_int
format_int_nonempty (pos n) = let (d, t, _, e) = format_nat-Headed n in λ empty. cc
format_int_nonempty (negsuc n) =
    let e = one-append (char b'-' tt) (format_nat (suc n)) in λ empty. cc
