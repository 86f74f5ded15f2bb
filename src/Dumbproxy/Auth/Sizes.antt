-- ===== src/Dumbproxy/Auth/Sizes.antt =====
-- Sizes of texts: the values of a query are shorter than the query.
use go_forward_proxy.Base.{
  ◌⊎◌, ℕ, suc, ◌-◌, ◌<◌, ◌≤◌, String, false, ◌≡◌, refl, sym, ap, ◌∙◌, Option, none, some, List, [],
  ◌∷◌, ◌==◌, str_eq, arith, inl, inr, Bool-cases, Option-cases,
}
use Prim.Native.Char.{Char, code}
use mathlib.Core.List.{◌++◌ as ◌+++◌}
use go_forward_proxy.Base.Text.{onto_first, split, cut, lacks}
use go_forward_proxy.Base.Result.{ok, Result-cases}
use go_forward_proxy.Dumbproxy.Query.{
  Values, parse_pieces, parse_query, get, sides, done, keep_first,
}
use go_forward_proxy.Dumbproxy.Calls.{Url, Calls}

unfoldable pub size : String → ℕ
size String.[] = 0
size (String.◌∷◌ x s) = suc (size s)

-- What net/url promises: the query of a URL is a part of it, and a text gets no longer when its
-- escapes are resolved.
pub record SizeLaws (c : Calls) : Type 0 where
  pub parse_url_size : (s : String) (u : Url) → c.parse_url s ≡ ok u → size u.raw_query ≤ size s
  pub unescape_size : (s t : String) → c.unescape s ≡ ok t → size t ≤ size s

abbrev AllWithin : ℕ → List String → Type 0
AllWithin n [] = Unit
AllWithin n (p ∷ ps) = (size p ≤ n) × AllWithin n ps

abbrev pub AllBelow : ℕ → Values → Type 0
AllBelow n [] = Unit
AllBelow n ((k, v) ∷ vs) = (size v ≤ n - 1) × AllBelow n vs

AllWithin-mono : (m n : ℕ) (ps : List String) → m ≤ n → AllWithin m ps → AllWithin n ps
AllWithin-mono m n [] h w = tt
AllWithin-mono m n (p ∷ ps) h w = (omega (arith, w.0), AllWithin-mono m n ps h (w.1))

AllBelow-append : (n : ℕ) (vs ws : Values) → AllBelow n vs → AllBelow n ws → AllBelow n (vs +++ ws)
AllBelow-append n [] ws h w = w
AllBelow-append n (kv ∷ vs) ws h w = (h.0, AllBelow-append n vs ws (h.1) w)

onto_first-AllWithin :
    (x : Char) (n : ℕ) (ps : List String) → AllWithin n ps → AllWithin (suc n) (onto_first x ps)
unfolding size
onto_first-AllWithin x n [] h = (omega arith, tt)
onto_first-AllWithin x n (p ∷ ps) h =
    (omega (arith, h.0), AllWithin-mono n (suc n) ps (omega arith) (h.1))

split-AllWithin : (sep : ℕ) (s : String) → AllWithin (size s) (split sep s)
unfolding size split
split-AllWithin sep String.[] = (omega arith, tt)
split-AllWithin sep (String.◌∷◌ x s) = elim (Bool-cases (code x == sep)) [
  | inl e ↦ rw e (
    omega arith,
    AllWithin-mono (size s) (suc (size s)) (split sep s) (omega arith) (split-AllWithin sep s),
  )
  | inr e ↦ rw e (onto_first-AllWithin x (size s) (split sep s) (split-AllWithin sep s))
]

pub cut-size : (sep : ℕ) (s a b : String) → cut sep s ≡ some (a, b) → size b < size s
unfolding size cut
cut-size sep String.[] a b e = absurd (ground (arith, e))
cut-size sep (String.◌∷◌ x s) a b e = elim (Option-cases (cut sep s)) [
  | inl h ↦ ground arith
  | inr ((u, v), h) ↦ ground (arith, cut-size sep s u v h)
]

pub get-size : (k : String) (n : ℕ) (vs : Values) → AllBelow n vs → size (get k vs) ≤ n - 1
unfolding size get
get-size k n [] h = omega arith
get-size k n ((j, v) ∷ vs) h = ground (arith, get-size k n vs (h.1), h.0)

ok-injective : {A : Type 0} {a b : A} → ok a ≡ ok b → a ≡ b
ok-injective h = ground (arith, h)

pub size-not_empty : (s : String) → str_eq s "" ≡ false → 0 < size s
unfolding size
size-not_empty String.[] e = absurd (ground (arith, e))
size-not_empty (String.◌∷◌ x s) e = omega arith

module _ {c : Calls} (laws : SizeLaws c) where
  sides-size : (p : String) → ((sides p).1 ≡ "") ⊎ (size ((sides p).1) < size p)
  sides-size p = elim (Option-cases (cut b'=' p)) [
    | inl e ↦ rw (e, sides) (inl refl)
    | inr ((a, b), e) ↦ rw (e, sides) (inr (cut-size b'=' p a b e))
  ]

  value-size :
      (n : ℕ) (p v : String) → size p ≤ n → c.unescape ((sides p).1) ≡ ok v → size v ≤ n - 1
  unfolding size
  value-size n p v h e = elim (sides-size p) [
    | inl x ↦ ground (arith, laws.unescape_size ((sides p).1) v e, ap size x)
    | inr x ↦ ground (arith, laws.unescape_size ((sides p).1) v e)
  ]

  done-AllBelow :
      (n : ℕ) (e : Option String) (vs ws : Values)
      → AllBelow n vs
      → done e vs ≡ ok ws
      → AllBelow n ws
  done-AllBelow n none vs ws h x = rw (← ok-injective x) h
  done-AllBelow n (some e) vs ws h x = absurd (ground (arith, x))

  -- what a piece makes of the error and the values so far
  pieces_step :
      (n : ℕ) (p : String) (ps : List String) (e : Option String) (vs : Values)
      → size p ≤ n
      → AllBelow n vs
      → (e' : Option String) × (vs' : Values) × AllBelow n vs'
        × (parse_pieces c.unescape (p ∷ ps) e vs ≡ parse_pieces c.unescape ps e' vs')
  unfolding parse_pieces
  pieces_step n p ps e vs w h = elim (Bool-cases (lacks b';' p)) [
    | inr s ↦ (some "invalid semicolon separator in query", vs, h, rw s refl)
    | inl s ↦ elim (Bool-cases (str_eq p "")) [
      | inl t ↦ (e, vs, h, rw (s, t) refl)
      | inr t ↦ elim (Result-cases (c.unescape ((sides p).0))) [
        | inr (x, k) ↦ (keep_first e x, vs, h, rw (s, t, k) refl)
        | inl (key, k) ↦ elim (Result-cases (c.unescape ((sides p).1))) [
          | inr (x, v) ↦ (keep_first e x, vs, h, rw (s, t, k, v) refl)
          | inl (value, v) ↦ (
            e,
            vs +++ ((key, value) ∷ []),
            AllBelow-append n vs ((key, value) ∷ []) h (value-size n p value w v, tt),
            rw (s, t, k, v) refl,
          )
        ]
      ]
    ]
  ]

  parse_pieces-AllBelow :
      (n : ℕ) (ps : List String) (e : Option String) (vs ws : Values)
      → AllWithin n ps
      → AllBelow n vs
      → parse_pieces c.unescape ps e vs ≡ ok ws
      → AllBelow n ws
  unfolding parse_pieces
  parse_pieces-AllBelow n [] e vs ws w h x = done-AllBelow n e vs ws h x
  parse_pieces-AllBelow n (p ∷ ps) e vs ws w h x =
      let (e', vs', h', step) = pieces_step n p ps e vs (w.0) h in
      parse_pieces-AllBelow n ps e' vs' ws (w.1) h' (sym step ∙ x)

  pub parse_query-AllBelow :
      (q : String) (vs : Values) → parse_query c.unescape q ≡ ok vs → AllBelow (size q) vs
  unfolding parse_query
  parse_query-AllBelow q vs h =
      parse_pieces-AllBelow (size q) (split b'&' q) none [] vs (split-AllWithin b'&' q) tt h
