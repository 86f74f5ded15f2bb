-- ===== src/Dumbproxy/Auth/Serial/Laws.antt =====
-- Serial numbers are read as they are printed, by a loop over indices that agrees with a plain
-- recursion on the text.
use go_forward_proxy.Base.{
  ℕ, zero, suc, ◌+◌, ◌*◌, ◌/◌, ◌%◌, ◌<◌, ◌≤◌, ◌≡◌, ◌≢◌, refl, sym, ap, ◌∙◌, inl, inr, ◌⊎◌,
  Bool-cases, Option-cases, Option, none, some, [], ◌∷◌, ◌==◌, if◌then◌else◌, arith,
}
use mathlib.Core.List.{◌++◌ as ◌+++◌, append_assoc}
use go_forward_proxy.Base.Int.{ℤ}
use go_forward_proxy.Base.Bytes.{Bytes, length, byte_at}
use go_forward_proxy.Base.Result.{Result, ok, err}
use go_forward_proxy.Dumbproxy.Auth.Serial.{
  hex_digit, hex_value, hex_byte, onto_bytes, parse_rounds, parse_serial_bytes, format_bytes,
  drop_last, bytes_onto, magnitude, big_int_bytes, serial_text,
}

-- The reference: two digits, and a colon or the end.
unfoldable pub serial_of : Bytes → Result Bytes
serial_of [] = ok []
serial_of (a ∷ []) = err "incomplete serial number string"
serial_of (a ∷ b ∷ []) = elim (hex_byte a b) [
  | none ↦ err "parseSerialBytes() failed"
  | some v ↦ ok (v ∷ [])
]
serial_of (a ∷ b ∷ c ∷ bs) =
    let rest = serial_of bs in
    elim (hex_byte a b) [
      | none ↦ err "parseSerialBytes() failed"
      | some v ↦ if c == b':' then onto_bytes v rest else err "missing colon delimiter"
    ]

byte_at-behind :
    (xs ys : Bytes) (m n : ℕ) → m ≡ length xs + n → byte_at m (xs +++ ys) ≡ byte_at n ys
unfolding byte_at length
byte_at-behind [] ys m n h = ap (λ k. byte_at k ys) (omega (arith, h))
byte_at-behind (x ∷ xs) ys zero n h = absurd (omega arith)
byte_at-behind (x ∷ xs) ys (suc m) n h = byte_at-behind xs ys m n (omega arith)

pub length-append : (xs ys : Bytes) → length (xs +++ ys) ≡ length xs + length ys
unfolding length
length-append [] ys = omega arith
length-append (x ∷ xs) ys = ground (arith, length-append xs ys)

rounds-serial_of :
    (done bs : Bytes) (i n : ℕ)
    → length done ≡ i * 3
    → n ≡ (length bs + 2) / 3
    → parse_rounds (done +++ bs) n i ≡ serial_of bs
unfolding parse_rounds serial_of length byte_at
rounds-serial_of done [] i zero h k = refl
rounds-serial_of done [] i (suc n) h k = absurd (omega arith)
rounds-serial_of done (a ∷ bs) i zero h k = absurd (omega arith)
rounds-serial_of done (a ∷ []) i (suc n) h k = ground (arith, length-append done (a ∷ []))
rounds-serial_of done (a ∷ b ∷ []) i (suc (suc n)) h k = absurd (omega arith)
rounds-serial_of done (a ∷ b ∷ []) i (suc zero) h k = ground (
  arith,
  length-append done (a ∷ b ∷ []),
  byte_at-behind done (a ∷ b ∷ []) (i * 3) 0 (omega arith),
  byte_at-behind done (a ∷ b ∷ []) (i * 3 + 1) 1 (omega arith),
)
rounds-serial_of done (a ∷ b ∷ c ∷ bs) i (suc n) h k =
    let front = a ∷ b ∷ c ∷ [] in
    let rest =
      rounds-serial_of (done +++ front) bs (i + 1) n (ground (arith, length-append done front))
        (omega arith) in
    ground (
      arith,
      length-append done (a ∷ b ∷ c ∷ bs),
      byte_at-behind done (a ∷ b ∷ c ∷ bs) (i * 3) 0 (omega arith),
      byte_at-behind done (a ∷ b ∷ c ∷ bs) (i * 3 + 1) 1 (omega arith),
      byte_at-behind done (a ∷ b ∷ c ∷ bs) (i * 3 + 2) 2 (omega arith),
      ap (λ t. parse_rounds t n (i + 1)) (sym (append_assoc done front bs)) ∙ rest,
    )

-- `parseSerialBytes`, which counts its rounds and indices from the length of the text, reads the text
-- as the plain recursion does: pairs of digits with colons between them, and one behind them or not.
pub parse_serial_bytes-serial_of : (bs : Bytes) → parse_serial_bytes bs ≡ serial_of bs
unfolding parse_serial_bytes length
parse_serial_bytes-serial_of bs = rounds-serial_of [] bs 0 ((length bs + 2) / 3) refl refl

hex_value-digit : (n : ℕ) → n < 16 → hex_value (hex_digit n) ≡ some n
unfolding hex_value hex_digit
hex_value-digit n h = ground arith

hex_byte-digits : (b : ℕ) → b < 256 → hex_byte (hex_digit (b / 16)) (hex_digit (b % 16)) ≡ some b
unfolding hex_byte
hex_byte-digits b h =
    ground (arith, hex_value-digit (b / 16) (omega arith), hex_value-digit (b % 16) (omega arith))

abbrev pub AreBytes : Bytes → Type 0
AreBytes [] = Unit
AreBytes (b ∷ bs) = (b < 256) × AreBytes bs

abbrev triple : ℕ → ℕ → ℕ → Option Bytes → Option Bytes
triple a b c none = none
triple a b c (some bs) = some (a ∷ b ∷ c ∷ bs)

drop_last-triple :
    (a b c d : ℕ) (bs : Bytes) → drop_last (a ∷ b ∷ c ∷ d ∷ bs) ≡ triple a b c (drop_last (d ∷ bs))
unfolding drop_last
drop_last-triple a b c d bs = elim (Option-cases (drop_last (d ∷ bs))) [
  | inl e ↦ rw e refl
  | inr (rest, e) ↦ rw e refl
]

serial_of-triple :
    (b : ℕ) (bs rest : Bytes)
    → b < 256
    → serial_of rest ≡ ok bs
    → serial_of (hex_digit (b / 16) ∷ hex_digit (b % 16) ∷ b':' ∷ rest) ≡ ok (b ∷ bs)
unfolding serial_of
serial_of-triple b bs rest h e = ground (arith, hex_byte-digits b h)

serial_of-single :
    (b : ℕ) (text : Bytes)
    → b < 256
    → drop_last (format_bytes (b ∷ [])) ≡ some text
    → serial_of text ≡ ok (b ∷ [])
unfolding drop_last serial_of format_bytes
serial_of-single b text h e = ground (arith, hex_byte-digits b h)

-- the text without the colon at its end
serial_of-drop_last :
    (b : ℕ) (bs text : Bytes)
    → AreBytes (b ∷ bs)
    → drop_last (format_bytes (b ∷ bs)) ≡ some text
    → serial_of text ≡ ok (b ∷ bs)
unfolding format_bytes
serial_of-drop_last b [] text h e = serial_of-single b text (h.0) e
serial_of-drop_last b (b' ∷ bs) text h e =
    let shape =
      drop_last-triple (hex_digit (b / 16)) (hex_digit (b % 16)) b':' (hex_digit (b' / 16))
        (hex_digit (b' % 16) ∷ b':' ∷ format_bytes bs) in
    elim (Option-cases (drop_last (format_bytes (b' ∷ bs)))) [
      | inl x ↦ absurd (ground (arith, shape))
      | inr (rest, x) ↦
          let text_eq : hex_digit (b / 16) ∷ hex_digit (b % 16) ∷ b':' ∷ rest ≡ text =
            ground (arith, shape) in
          ap serial_of (sym text_eq)
          ∙ serial_of-triple b (b' ∷ bs) rest (h.0) (serial_of-drop_last b' bs rest (h.1) x)
    ]

bytes_onto-AreBytes : (fuel n : ℕ) (bs : Bytes) → AreBytes bs → AreBytes (bytes_onto fuel n bs)
unfolding bytes_onto
bytes_onto-AreBytes zero n bs h = h
bytes_onto-AreBytes (suc fuel) n bs h = elim (Bool-cases (n == 0)) [
  | inl e ↦ rw e h
  | inr e ↦ rw e (bytes_onto-AreBytes fuel (n / 256) (n % 256 ∷ bs) (omega arith, h))
]

big_int_bytes-AreBytes : (z : ℤ) → AreBytes (big_int_bytes z)
unfolding big_int_bytes
big_int_bytes-AreBytes z = bytes_onto-AreBytes (magnitude z) (magnitude z) [] tt

List-cases : (bs : Bytes) → (bs ≡ []) ⊎ ((b : ℕ) × (rest : Bytes) × (bs ≡ b ∷ rest))
List-cases [] = inl refl
List-cases (b ∷ bs) = inr (b, bs, refl)

drop_last-nothing : (bs text : Bytes) → bs ≡ [] → drop_last (format_bytes bs) ≢ some text
unfolding drop_last format_bytes
drop_last-nothing bs text x e = ground (arith, ap (λ t. drop_last (format_bytes t)) x)

parse_serial_bytes-printed :
    (z : ℤ) (text : Bytes)
    → serial_text z ≡ some text
    → parse_serial_bytes text ≡ ok (big_int_bytes z)
unfolding serial_text
parse_serial_bytes-printed z text e =
    parse_serial_bytes-serial_of text ∙ elim (List-cases (big_int_bytes z)) [
      | inl x ↦ absurd (drop_last-nothing (big_int_bytes z) text x e)
      | inr (b, bs, x) ↦
          let bounded : AreBytes (b ∷ bs) = rw x at (big_int_bytes-AreBytes z) in
          let printed : drop_last (format_bytes (b ∷ bs)) ≡ some text = rw x at e in
          serial_of-drop_last b bs text bounded printed ∙ ap ok (sym x)
    ]

-- the number of bytes, the highest first, behind the number so far
unfoldable pub value_of : ℕ → Bytes → ℕ
value_of n [] = n
value_of n (b ∷ bs) = value_of (n * 256 + b) bs

value_of-bytes_onto :
    (fuel n : ℕ) (bs : Bytes) → n ≤ fuel → value_of 0 (bytes_onto fuel n bs) ≡ value_of n bs
unfolding value_of bytes_onto
value_of-bytes_onto zero n bs h = ap (λ k. value_of k bs) (omega (arith, h))
value_of-bytes_onto (suc fuel) n bs h = elim (Bool-cases (n == 0)) [
  | inl e ↦ rw e (ap (λ k. value_of k bs) (ground arith))
  | inr e ↦ rw e (
      value_of-bytes_onto fuel (n / 256) (n % 256 ∷ bs) (ground arith)
      ∙ ap (λ k. value_of k bs) (omega arith))
]

-- The digits that `formatSerial` prints of a serial number `parseSerialBytes` reads, and the bytes that it
-- gives are those of the number's absolute value.
pub parse_serial_bytes-serial_text :
    (z : ℤ) (text : Bytes)
    → serial_text z ≡ some text
    → (parse_serial_bytes text ≡ ok (big_int_bytes z))
      × (value_of 0 (big_int_bytes z) ≡ magnitude z)
unfolding big_int_bytes value_of
parse_serial_bytes-serial_text z text e = (
  parse_serial_bytes-printed z text e,
  value_of-bytes_onto (magnitude z) (magnitude z) [] (omega arith),
)
