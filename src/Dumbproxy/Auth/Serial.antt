-- ===== src/Dumbproxy/Auth/Serial.antt =====
-- auth/cert.go: serial numbers of certificates, as texts and as sets. A text is its bytes.
pub mod Laws
use go_forward_proxy.Base.{
  ℕ, zero, suc, ◌+◌, ◌-◌, ◌*◌, ◌/◌, ◌%◌, Bool, true, false, not, ◌&&◌, ◌||◌, Option, none, some,
  List, [], ◌∷◌, ltb, leb, ◌==◌, if◌then◌else◌,
}
use mathlib.Core.List.{◌++◌ as ◌+++◌}
use go_forward_proxy.Base.Int.{ℤ, pos, negsuc}
use go_forward_proxy.Base.Bytes.{Bytes, length, byte_at, eq_bytes, cut_bytes}
use go_forward_proxy.Base.Result.{Result, ok, err}

-- encoding/hex: a digit of `Encode`, and what `Decode` makes of one
unfoldable pub hex_digit : ℕ → ℕ
hex_digit n = if ltb n 10 then b'0' + n else b'a' + (n - 10)

unfoldable pub hex_value : ℕ → Option ℕ
hex_value b =
    if leb b'0' b && leb b b'9'
    then some (b - b'0')
    else if leb b'a' b && leb b b'f'
    then some (b - b'a' + 10)
    else if leb b'A' b && leb b b'F'
    then some (b - b'A' + 10)
    else none

-- `hex.Decode` of two digits
unfoldable pub hex_byte : ℕ → ℕ → Option ℕ
hex_byte hi lo = elim (hex_value hi) [
  | none ↦ none
  | some h ↦ elim (hex_value lo) [ none ↦ none | some l ↦ some (h * 16 + l) ]
]

-- what the loop adds to its result
abbrev onto_bytes : ℕ → Result Bytes → Result Bytes
onto_bytes b (ok bs) = ok (b ∷ bs)
onto_bytes b (err e) = err e

-- The rounds of `parseSerialBytes` from the index `i` on, with the number of bytes that are still
-- to be found. The error of encoding/hex is left out of the message.
parse_rounds : Bytes → ℕ → ℕ → Result Bytes
parse_rounds serial zero i = ok []
parse_rounds serial (suc n) i =
    let rest = parse_rounds serial n (i + 1) in
    if not (ltb (i * 3 + 1) (length serial))
    then err "incomplete serial number string"
    else elim (hex_byte (byte_at (i * 3) serial) (byte_at (i * 3 + 1) serial)) [
      | none ↦ err "parseSerialBytes() failed"
      | some b ↦
          if ltb (i * 3 + 2) (length serial) && not (byte_at (i * 3 + 2) serial == b':')
          then err "missing colon delimiter"
          else onto_bytes b rest
    ]

unfoldable pub parse_serial_bytes : Bytes → Result Bytes
unfolding parse_rounds
parse_serial_bytes serial = parse_rounds serial ((length serial + 2) / 3) 0

-- `serial.Bytes()` of `big.Int`: the absolute value, with no zeroes in front
bytes_onto : ℕ → ℕ → Bytes → Bytes
bytes_onto zero n bs = bs
bytes_onto (suc fuel) n bs =
    let rest = bytes_onto fuel (n / 256) (n % 256 ∷ bs) in if n == 0 then bs else rest

abbrev pub magnitude : ℤ → ℕ
magnitude (pos n) = n
magnitude (negsuc n) = suc n

unfoldable pub big_int_bytes : ℤ → Bytes
unfolding bytes_onto
big_int_bytes z = bytes_onto (magnitude z) (magnitude z) []

-- The loop of `formatSerial`, with a colon behind each byte.
unfoldable pub format_bytes : Bytes → Bytes
format_bytes [] = []
format_bytes (b ∷ bs) = hex_digit (b / 16) ∷ hex_digit (b % 16) ∷ b':' ∷ format_bytes bs

-- `buf[:len(buf)-1]`; `none` is the panic at an empty slice
unfoldable pub drop_last : Bytes → Option Bytes
drop_last [] = none
drop_last (b ∷ []) = some []
drop_last (b ∷ b' ∷ bs) = elim (drop_last (b' ∷ bs)) [ none ↦ none | some rest ↦ some (b ∷ rest) ]

-- the digits of `formatSerial`
unfoldable pub serial_text : ℤ → Option Bytes
serial_text serial = drop_last (format_bytes (big_int_bytes serial))

-- "(Negative)"
abbrev negative_mark : Bytes
negative_mark = b'(' ∷ b'N' ∷ b'e' ∷ b'g' ∷ b'a' ∷ b't' ∷ b'i' ∷ b'v' ∷ b'e' ∷ b')' ∷ []

unfoldable pub format_serial : ℤ → Option Bytes
format_serial (pos n) = serial_text (pos n)
format_serial (negsuc n) = elim (serial_text (negsuc n)) [
  | none ↦ none
  | some text ↦ some (negative_mark +++ text)
]

unfoldable pub cut_leading_zeroes : Bytes → Bytes
cut_leading_zeroes [] = []
cut_leading_zeroes (b ∷ bs) = let rest = cut_leading_zeroes bs in if b == 0 then rest else b ∷ bs

-- The keys of a set.
abbrev pub SerialNumberSet : Type 0
SerialNumberSet = List Bytes

unfoldable pub member : Bytes → SerialNumberSet → Bool
member key [] = false
member key (k ∷ ks) = eq_bytes k key || member key ks

-- `Has`; the set of a provider without a file is nil
unfoldable pub has_serial : ℤ → Option SerialNumberSet → Bool
has_serial serial none = false
has_serial serial (some keys) = member (cut_leading_zeroes (big_int_bytes serial)) keys

-- The text in front of a comment.
abbrev without_comment : Bytes → Bytes
without_comment line = elim (cut_bytes b'#' line) [ none ↦ line | some (text, _) ↦ text ]

module _ (trim_space : Bytes → Bytes) where
  -- The loop of `newSerialNumberSetFromReader`: a line that does not parse is reported and skipped.
  unfoldable pub serial_number_set : List Bytes → SerialNumberSet
  serial_number_set [] = []
  serial_number_set (line ∷ lines) =
      let rest = serial_number_set lines in
      elim (trim_space (without_comment line)) [
        | [] ↦ rest
        | b ∷ bs ↦ elim (parse_serial_bytes (b ∷ bs)) [
          | err e ↦ rest
          | ok serial ↦ cut_leading_zeroes serial ∷ rest
        ]
      ]
