-- ===== src/Dumbproxy/Dialers/Garbage.antt =====
-- dialer/dialer.go: `garbageLenFuncFromURL`, which reads the bounds of a random length.
use Prim.Native.String.{◌++◌}
use go_forward_proxy.Base.{
  ℕ, ◌+◌, ◌-◌, ◌≤◌, ◌<◌, String, ◌≡◌, ◌⊎◌, not, Option, none, some, ◌==◌, ltb, leb, arith, inl, inr,
  Bool-cases, if◌then◌else◌,
}
use go_forward_proxy.Base.Int.{pos, negsuc}
use go_forward_proxy.Base.Decimal.{atoi}
use go_forward_proxy.Base.Text.{cut}
use go_forward_proxy.Base.Result.{Result, ok, err}
use go_forward_proxy.Dumbproxy.Query.{get, has, parse_query}

-- The functions that it returns: a fixed length, or one from the lower bound on, below the upper one.
pub data GarbageLen : Type 0 where
  fixed : ℕ → GarbageLen
  from_to : ℕ → ℕ → GarbageLen

-- The length, by what `rand.IntN` draws.
unfoldable pub garbage_len : GarbageLen → (int_n : ℕ → ℕ) → ℕ
garbage_len (fixed n) int_n = n
garbage_len (from_to lo hi) int_n = lo + int_n (hi - lo)

-- the two bounds, in their order
unfoldable pub between : ℕ → ℕ → GarbageLen
between lo hi = if ltb hi lo then from_to hi lo else if hi == lo then fixed lo else from_to lo hi

-- `%q`, and the error of `Atoi` for a text that it does not take
module _ (unescape : String → Result String) (quoted atoi_error : String → String) where
  -- a number that is not negative, by the name of what it is for
  abbrev bound : String → String → Result ℕ
  bound what text = elim (atoi text) [
    | none ↦ err ("can't convert " ++ what ++ " " ++ quoted text ++ " to int: " ++ atoi_error text)
    | some (negsuc n) ↦ err ("negative " ++ what ++ " is not allowed")
    | some (pos n) ↦ ok n
  ]

  abbrev range_of : String → String → Result (Option GarbageLen)
  range_of left right = elim (bound "lower boundary for garbage length" left) [
    | err e ↦ err e
    | ok lo ↦ elim (bound "upper boundary for garbage length" right) [
      | err e ↦ err e
      | ok hi ↦ ok (some (between lo hi))
    ]
  ]

  abbrev length_of : String → Result (Option GarbageLen)
  length_of text = elim (bound "garbage length" text) [ err e ↦ err e | ok n ↦ ok (some (fixed n)) ]

  unfoldable pub garbage_len_func_from_url : String → String → Result (Option GarbageLen)
  garbage_len_func_from_url raw_query paramname = elim (parse_query unescape raw_query) [
    | err e ↦ err ("garbage len param parse failed: " ++ e)
    | ok params ↦
        if not (has paramname params) then ok none else elim (cut b'-' (get paramname params)) [
          | some (left, right) ↦ range_of left right
          | none ↦ length_of (get paramname params)
        ]
  ]

abbrev min : ℕ → ℕ → ℕ
min a b = if leb a b then a else b

abbrev max : ℕ → ℕ → ℕ
max a b = if leb a b then b else a

-- A length that is drawn between two bounds, given in either order, is not below the lower one and
-- not above the upper one, and where they differ it is never the upper one.
pub garbage_len-between :
    (a b : ℕ) (int_n : ℕ → ℕ)
    → ((n : ℕ) → 0 < n → int_n n < n)
    → (min a b ≤ garbage_len (between a b) int_n)
      × (garbage_len (between a b) int_n ≤ max a b)
      × ((garbage_len (between a b) int_n < max a b) ⊎ (a ≡ b))
unfolding garbage_len between
garbage_len-between a b int_n h = elim (Bool-cases (a == b)) [
  | inl e ↦ (ground (arith, e), ground (arith, e), inr (ground (arith, e)))
  | inr e ↦ (
    ground (arith, e, h (b - a), h (a - b)),
    ground (arith, e, h (b - a), h (a - b)),
    inl (ground (arith, e, h (b - a), h (a - b))),
  )
]
