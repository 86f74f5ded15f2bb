-- ===== src/Dumbproxy/Resolver.antt =====
-- pkg/dumbproxy/resolver/prefer.go: the addresses of one family in front of the others.
pub mod Fast
pub mod Factory
use go_forward_proxy.Base.{
  ℕ, String, ◌≡◌, refl, ap, ◌∙◌, Bool, true, false, not, ◌||◌, Option, none, some, List, [], ◌∷◌,
  leb, str_eq, arith, inl, inr, Bool-cases, if◌then◌else◌,
}
use mathlib.Core.List.{◌++◌ as ◌+++◌}
use go_forward_proxy.Base.Text.{one_of}
use go_forward_proxy.Base.Result.{Result, ok, err}

pub data Preference : Type 0 where
  prefer_nothing : Preference
  prefer_ipv4 : Preference
  prefer_ipv6 : Preference

-- `ParsePreference`, by `strings.ToLower`
unfoldable pub parse_preference : (to_lower : String → String) → String → Option Preference
unfolding one_of
parse_preference to_lower p =
    let lp = to_lower p in
    if one_of lp ("none" ∷ "nothing" ∷ "any" ∷ "anything" ∷ [])
    then some prefer_nothing
    else if one_of lp ("ipv4" ∷ "ip4" ∷ "v4" ∷ "4" ∷ [])
    then some prefer_ipv4
    else if one_of lp ("ipv6" ∷ "ip6" ∷ "v6" ∷ "6" ∷ [])
    then some prefer_ipv6
    else none

-- `boolToInt`
abbrev pub bool_to_int : Bool → ℕ
bool_to_int true = 0
bool_to_int false = 1

module _ {A : Type 0} (key : A → ℕ) where
  -- an element in front of the first one that is not below it
  unfoldable pub insert_sorted : A → List A → List A
  insert_sorted x [] = x ∷ []
  insert_sorted x (y ∷ ys) =
      let rest = insert_sorted x ys in if leb (key x) (key y) then x ∷ y ∷ ys else y ∷ rest

  -- `slices.SortStableFunc` by a key
  unfoldable pub sort_stable : List A → List A
  unfolding insert_sorted
  sort_stable [] = []
  sort_stable (x ∷ xs) = insert_sorted x (sort_stable xs)

module _ (A E : Type 0) (is4 is6 : A → Bool) where
  abbrev pub Lookup : Type 0
  Lookup = String → String → E → Result (List A) × E

  abbrev map_ok : (List A → List A) → Result (List A) → Result (List A)
  map_ok f (ok xs) = ok (f xs)
  map_ok f (err e) = err e

  -- `Prefer`, by `LookupNetIP` of its result, where `is4` and `is6` look at the address as unmapped
  unfoldable pub prefer : Lookup → Preference → Lookup
  prefer resolver prefer_nothing network host env = resolver network host env
  prefer resolver prefer_ipv4 network host env =
      let (r, env') = resolver network host env in
      (map_ok (sort_stable (λ a. bool_to_int (is4 a))) r, env')
  prefer resolver prefer_ipv6 network host env =
      let (r, env') = resolver network host env in
      (map_ok (sort_stable (λ a. bool_to_int (is6 a))) r, env')

unfoldable pub filter : {A : Type 0} → (A → Bool) → List A → List A
filter p [] = []
filter p (x ∷ xs) = let rest = filter p xs in if p x then x ∷ rest else rest

module _ {A : Type 0} (p : A → Bool) where
  insert-preferred :
      (x : A) (xs : List A) → p x ≡ true → insert_sorted (λ a. bool_to_int (p a)) x xs ≡ x ∷ xs
  unfolding insert_sorted
  insert-preferred x [] h = refl
  insert-preferred x (y ∷ ys) h = ground (arith, h)

  insert-among :
      (x : A) (ys : List A)
      → p x ≡ false
      → insert_sorted (λ a. bool_to_int (p a)) x (filter (λ a. not (p a)) ys)
        ≡ x ∷ filter (λ a. not (p a)) ys
  unfolding insert_sorted filter
  insert-among x [] h = refl
  insert-among x (y ∷ ys) h = elim (Bool-cases (p y)) [
    | inl e ↦ rw e (insert-among x ys h)
    | inr e ↦ ground (arith, e, h)
  ]

  insert-other :
      (x : A) (xs ys : List A)
      → p x ≡ false
      → insert_sorted (λ a. bool_to_int (p a)) x (filter p xs +++ filter (λ a. not (p a)) ys)
        ≡ filter p xs +++ (x ∷ filter (λ a. not (p a)) ys)
  unfolding insert_sorted filter
  insert-other x [] ys h = insert-among x ys h
  insert-other x (z ∷ xs) ys h = elim (Bool-cases (p z)) [
    | inl e ↦ ground (arith, e, h, insert-other x xs ys h)
    | inr e ↦ rw e (insert-other x xs ys h)
  ]

  -- Sorting by preference keeps the order in which the addresses were found, first among those of the
  -- preferred family and then among the others.
  pub sort_stable-filter :
      (xs : List A)
      → sort_stable (λ a. bool_to_int (p a)) xs ≡ filter p xs +++ filter (λ a. not (p a)) xs
  unfolding sort_stable filter
  sort_stable-filter [] = refl
  sort_stable-filter (x ∷ xs) =
      ap (insert_sorted (λ a. bool_to_int (p a)) x) (sort_stable-filter xs)
      ∙ elim (Bool-cases (p x)) [
        | inl e ↦ rw e (insert-preferred x (filter p xs +++ filter (λ a. not (p a)) xs) e)
        | inr e ↦ rw e (insert-other x xs xs e)
      ]
