-- ===== src/Dumbproxy/Handler/Headers.antt =====
-- handler/proxy.go: the headers that are for one hop only, and copies of headers.
use go_forward_proxy.Base.{
  String, ◌≡◌, refl, sym, ap, ◌∙◌, Bool, false, ◌||◌, List, [], ◌∷◌, str_eq, arith, inl, inr,
  Bool-cases, if◌then◌else◌,
}
use mathlib.Core.List.{◌++◌ as ◌+++◌, append_assoc, append-nil}
use go_forward_proxy.Dumbproxy.Http.{Header, values, del_header, add_header}
use go_forward_proxy.Dumbproxy.Http.Laws.{str_eq-path, values-del_header, values-add_header}

abbrev pub hop_headers : List String
hop_headers =
    "Connection" ∷ "Keep-Alive" ∷ "Proxy-Authenticate" ∷ "Proxy-Connection" ∷ "Proxy-Authorization"
    ∷ "Te" ∷ "Trailers" ∷ "Transfer-Encoding" ∷ "Upgrade" ∷ []

unfoldable pub del_each : List String → Header → Header
del_each [] header = header
del_each (h ∷ hs) header = del_each hs (del_header h header)

unfoldable pub del_hop_headers : Header → Header
unfolding del_each
del_hop_headers header = del_each hop_headers header

-- the inner loop of `copyHeader`
add_each : String → List String → Header → Header
add_each k [] dst = dst
add_each k (v ∷ vs) dst = add_each k vs (add_header k v dst)

-- `copyHeader`; the keys of a map come in any order
unfoldable pub copy_header : Header → Header → Header
unfolding add_each
copy_header dst [] = dst
copy_header dst ((k, vs) ∷ src) = copy_header (add_each k vs dst) src

-- The name is on a list.
unfoldable pub listed : String → List String → Bool
listed k [] = false
listed k (h ∷ hs) = str_eq h k || listed k hs

values-del_each :
    (k : String) (hs : List String) (header : Header)
    → values k (del_each hs header) ≡ (if listed k hs then [] else values k header)
unfolding del_each listed
values-del_each k [] header = refl
values-del_each k (h ∷ hs) header =
    ground (arith, values-del_each k hs (del_header h header), values-del_header h k header)

-- `delHopHeaders` takes away the nine headers of its list, `Proxy-Authorization` among them, and
-- leaves the values of every other name.
pub values-del_hop_headers :
    (k : String) (header : Header)
    → values k (del_hop_headers header) ≡ (if listed k hop_headers then [] else values k header)
unfolding del_hop_headers
values-del_hop_headers k header = values-del_each k hop_headers header

-- A header has no two entries of one name, as it is a map.
unfoldable pub has_key : String → Header → Bool
has_key k [] = false
has_key k ((j, vs) ∷ h) = str_eq j k || has_key k h

abbrev pub IsMap : Header → Type 0
IsMap [] = Unit
IsMap ((k, vs) ∷ h) = (has_key k h ≡ false) × IsMap h

values-add_each :
    (j k : String) (vs : List String) (dst : Header)
    → values k (add_each j vs dst) ≡ (if str_eq j k then values k dst +++ vs else values k dst)
unfolding add_each
values-add_each j k [] dst = ground (arith, append-nil (values k dst))
values-add_each j k (v ∷ vs) dst = elim (Bool-cases (str_eq j k)) [
  | inl e ↦ rw e (
      values-add_each j k vs (add_header j v dst)
      ∙ rw e (
          ap (λ t. t +++ vs)
            (values-add_header j k v dst
              ∙ rw e (ap (λ t. values t dst +++ (v ∷ [])) (str_eq-path j k e)))
          ∙ append_assoc (values k dst) (v ∷ []) vs))
  | inr e ↦
      ground (arith, e, values-add_each j k vs (add_header j v dst), values-add_header j k v dst)
]

values-absent : (k : String) (h : Header) → has_key k h ≡ false → values k h ≡ []
unfolding values has_key
values-absent k [] e = refl
values-absent k ((j, vs) ∷ h) e = ground (arith, values-absent k h)

-- `copyHeader` adds the values of every name of one header behind those that another one has.
pub values-copy_header :
    (k : String) (dst src : Header)
    → IsMap src
    → values k (copy_header dst src) ≡ values k dst +++ values k src
unfolding copy_header values
values-copy_header k dst [] m = sym (append-nil (values k dst))
values-copy_header k dst ((j, vs) ∷ src) m =
    values-copy_header k (add_each j vs dst) src (m.1) ∙ elim (Bool-cases (str_eq j k)) [
      | inl e ↦
          let absent =
            values-absent k src (ap (λ t. has_key t src) (sym (str_eq-path j k e)) ∙ m.0) in
          rw (e, absent)
            (append-nil (values k (add_each j vs dst)) ∙ values-add_each j k vs dst ∙ rw e refl)
      | inr e ↦ rw e (ap (λ t. t +++ values k src) (values-add_each j k vs dst ∙ rw e refl))
    ]
