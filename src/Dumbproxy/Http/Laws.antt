-- ===== src/Dumbproxy/Http/Laws.antt =====
-- The values of a header after its operations.
use go_forward_proxy.Base.{
  String, ◌≡◌, ap, ◌∙◌, true, false, List, [], ◌∷◌, str_eq, eq_iff, arith, inl, inr, Bool-cases,
  if◌then◌else◌,
}
use mathlib.Core.List.{◌++◌ as ◌+++◌}
use go_forward_proxy.Dumbproxy.Http.{Header, values, del_header, put_header, add_header}

pub str_eq_refl : (s : String) → str_eq s s ≡ true
str_eq_refl s = ground (arith, eq_iff s s)

pub str_eq-path : (i j : String) → str_eq i j ≡ true → i ≡ j
str_eq-path i j h = ground (arith, eq_iff i j)

str_eq-same : (i j k : String) → str_eq i j ≡ true → str_eq i k ≡ str_eq j k
str_eq-same i j k h = ground (arith, eq_iff i j, λ (e : i ≡ j). ap (λ t. str_eq t k) e)

str_eq-other : (i j k : String) → str_eq i j ≡ false → str_eq j k ≡ true → str_eq i k ≡ false
str_eq-other i j k n h = ground (arith, eq_iff j k, λ (e : j ≡ k). ap (λ t. str_eq i t) e)

pub values-del_header :
    (j k : String) (h : Header)
    → values k (del_header j h) ≡ (if str_eq j k then [] else values k h)
unfolding values del_header
values-del_header j k [] = ground arith
values-del_header j k ((i, vs) ∷ h) = elim (Bool-cases (str_eq i j)) [
  | inl e ↦ rw e (values-del_header j k h ∙ ground (arith, str_eq-same i j k e))
  | inr e ↦ elim (Bool-cases (str_eq j k)) [
    | inl d ↦ ground (arith, e, d, values-del_header j k h, str_eq-other i j k e d)
    | inr d ↦ ground (arith, e, d, values-del_header j k h)
  ]
]

pub values-put_header :
    (j k : String) (vs : List String) (h : Header)
    → values k (put_header j vs h) ≡ (if str_eq j k then vs else values k h)
unfolding values put_header
values-put_header j k vs h = ground (arith, values-del_header j k h)

pub values-add_header :
    (j k v : String) (h : Header)
    → values k (add_header j v h) ≡ (if str_eq j k then values j h +++ (v ∷ []) else values k h)
unfolding add_header
values-add_header j k v h = values-put_header j k (values j h +++ (v ∷ [])) h
