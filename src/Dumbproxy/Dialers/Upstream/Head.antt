-- ===== src/Dumbproxy/Dialers/Upstream/Head.antt =====
-- What the loop of `readResponse` takes for the head of an answer.
use go_forward_proxy.Base.{
  ℕ, ◌≡◌, refl, ap, ◌∙◌, Bool, true, false, not, ◌&&◌, ◌||◌, some, List, [], ◌∷◌, ◌==◌, arith, inl,
  inr, Bool-cases,
}
use mathlib.Core.List.{◌++◌ as ◌+++◌}
use go_forward_proxy.Base.Bytes.{Bytes}
use go_forward_proxy.Base.Result.{ok}
use go_forward_proxy.Dumbproxy.Dialers.Upstream.{
  Read, byte, nothing, has_terminator, reversed, read_head,
}

-- Somewhere in the bytes there is an empty line: "\r\n\r\n".
abbrev starts_empty_line : Bytes → Bool
starts_empty_line (a ∷ b ∷ c ∷ d ∷ bs) = a == 13 && b == 10 && c == 13 && d == 10
starts_empty_line _ = false

unfoldable pub has_empty_line : Bytes → Bool
has_empty_line [] = false
has_empty_line (b ∷ bs) = starts_empty_line (b ∷ bs) || has_empty_line bs

-- The reads give these bytes, with any pauses in front of each, and then the others.
pub data Gives : Bytes → List Read → List Read → Type 0 where
  all : {rs : List Read} → Gives [] rs rs
  one :
      {b : ℕ} {bs : Bytes} {rs rs' : List Read} → Gives bs rs rs' → Gives (b ∷ bs) (byte b ∷ rs) rs'
  pause :
      {b : ℕ} {bs : Bytes} {rs rs' : List Read}
      → Gives (b ∷ bs) rs rs'
      → Gives (b ∷ bs) (nothing ∷ rs) rs'

-- The loop ends behind these bytes and at none of them before.
unfoldable is_head : Bytes → Bytes → Bool
is_head acc [] = has_terminator acc
is_head acc (b ∷ bs) = not (has_terminator acc) && is_head (b ∷ acc) bs

reversed-reversed : (bs acc : Bytes) → reversed (reversed bs acc) [] ≡ reversed acc bs
unfolding reversed
reversed-reversed [] acc = refl
reversed-reversed (b ∷ bs) acc = reversed-reversed bs (b ∷ acc)

read_head-Gives :
    (acc bs : Bytes) (rs rs' : List Read)
    → Gives bs rs rs'
    → is_head acc bs ≡ true
    → read_head acc rs ≡ some (ok (reversed (reversed bs acc) []), rs')
unfolding is_head read_head reversed
read_head-Gives acc [] [] [] all h = rw h refl
read_head-Gives acc [] (r ∷ rs) (r' ∷ rs') all h = rw h refl
read_head-Gives acc [] [] (r' ∷ rs') x h = elim x [ ]
read_head-Gives acc [] (r ∷ rs) [] x h = elim x [ ]
read_head-Gives acc (b ∷ bs) [] rs' x h = elim x [ ]
read_head-Gives acc (b ∷ bs) (Read.failed e ∷ rs) rs' x h = elim x [ ]
read_head-Gives acc (b ∷ bs) (byte b' ∷ rs) rs' (one g) h =
    ground (arith, h, read_head-Gives (b ∷ acc) bs rs rs' g)
read_head-Gives acc (b ∷ bs) (nothing ∷ rs) rs' (pause g) h =
    ground (arith, h, read_head-Gives acc (b ∷ bs) rs rs' g)

has_empty_line-cons :
    (b : ℕ) (bs : Bytes) → has_empty_line bs ≡ true → has_empty_line (b ∷ bs) ≡ true
unfolding has_empty_line
has_empty_line-cons b bs h = ground (arith, h)

has_empty_line-reversed :
    (acc bs : Bytes) → has_empty_line bs ≡ true → has_empty_line (reversed acc bs) ≡ true
unfolding reversed
has_empty_line-reversed [] bs h = h
has_empty_line-reversed (b ∷ acc) bs h =
    has_empty_line-reversed acc (b ∷ bs) (has_empty_line-cons b bs h)

-- Where the loop would end, there is an empty line in what was read.
has_terminator-has_empty_line :
    (acc bs : Bytes) → has_terminator acc ≡ true → has_empty_line (reversed acc bs) ≡ true
unfolding has_terminator has_empty_line reversed
has_terminator-has_empty_line [] bs h = absurd (ground (arith, h))
has_terminator-has_empty_line (d ∷ []) bs h = absurd (ground (arith, h))
has_terminator-has_empty_line (d ∷ c ∷ []) bs h = absurd (ground (arith, h))
has_terminator-has_empty_line (d ∷ c ∷ b ∷ []) bs h = absurd (ground (arith, h))
has_terminator-has_empty_line (d ∷ c ∷ b ∷ a ∷ acc) bs h =
    has_empty_line-reversed acc (a ∷ b ∷ c ∷ d ∷ bs) (ground (arith, h))

goes_on : (acc bs : Bytes) → has_empty_line (reversed acc bs) ≡ false → has_terminator acc ≡ false
goes_on acc bs h = elim (Bool-cases (has_terminator acc)) [
  | inr e ↦ e
  | inl e ↦ absurd (ground (arith, h, has_terminator-has_empty_line acc bs e))
]

front-is_head :
    (acc front : Bytes)
    → has_empty_line (reversed acc (front +++ (13 ∷ 10 ∷ 13 ∷ []))) ≡ false
    → is_head acc (front +++ (13 ∷ 10 ∷ 13 ∷ 10 ∷ [])) ≡ true
unfolding is_head reversed has_terminator
front-is_head acc [] h = ground (
  arith,
  goes_on acc (13 ∷ 10 ∷ 13 ∷ []) h,
  goes_on (13 ∷ acc) (10 ∷ 13 ∷ []) h,
  goes_on (10 ∷ 13 ∷ acc) (13 ∷ []) h,
  goes_on (13 ∷ 10 ∷ 13 ∷ acc) [] h,
)
front-is_head acc (b ∷ front) h =
    ground
      (arith, goes_on acc (b ∷ (front +++ (13 ∷ 10 ∷ 13 ∷ []))) h, front-is_head (b ∷ acc) front h)

-- The head of an answer is read up to its first "\r\n\r\n", which it holds, and no further, however
-- many reads in between give no byte: what the upstream sends behind it is left on the connection
-- for the client.
pub read_head-first :
    (front : Bytes) (reads rest : List Read)
    → has_empty_line (front +++ (13 ∷ 10 ∷ 13 ∷ [])) ≡ false
    → Gives (front +++ (13 ∷ 10 ∷ 13 ∷ 10 ∷ [])) reads rest
    → read_head [] reads ≡ some (ok (front +++ (13 ∷ 10 ∷ 13 ∷ 10 ∷ [])), rest)
unfolding reversed
read_head-first front reads rest h g =
    let head = front +++ (13 ∷ 10 ∷ 13 ∷ 10 ∷ []) in
    read_head-Gives [] head reads rest g (front-is_head [] front h)
    ∙ ap (λ bs. some (ok bs, rest)) (reversed-reversed head [])
