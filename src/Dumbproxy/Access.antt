-- ===== src/Dumbproxy/Access.antt =====
-- pkg/dumbproxy/access and dialer/filter.go: which addresses may be dialled.
use Prim.Native.String.{◌++◌}
use go_forward_proxy.Base.{
  String, ◌≡◌, refl, ◌||◌, Bool, true, false, Option, none, some, List, [], ◌∷◌, arith, inl, inr,
  Option-cases, if◌then◌else◌,
}
use go_forward_proxy.Dumbproxy.Http.{Request}
use go_forward_proxy.Dumbproxy.Handler.Ends.{Dialed, access_denied, DialParams}

-- net/netip: the address of `ParseAddrPort` as unmapped, where the text is one; `Contains`; texts.
pub record Netip : Type 1 where
  pub Addr : Type 0
  pub Prefix : Type 0
  pub parse_addr_port : String → Option Addr
  pub contains : Prefix → Addr → Bool
  pub addr_text : Addr → String
  pub prefix_text : Prefix → String

-- `Access`: the error where access is not allowed
abbrev pub Filter : Type 0
Filter = Option Request → String → String → String → Option String

unfoldable pub always_allow : Filter
always_allow req username network address = none

module _ (ip : Netip) where
  -- the first prefix that the address is in
  unfoldable pub matching : ip.Addr → List ip.Prefix → Option ip.Prefix
  matching addr [] = none
  matching addr (pfx ∷ pfxs) =
      let rest = matching addr pfxs in if ip.contains pfx addr then some pfx else rest

  -- `Access` of a `DstAddrFilter`
  unfoldable pub dst_addr_filter : List ip.Prefix → Filter → Filter
  dst_addr_filter pfxs next req username network address = elim (ip.parse_addr_port address) [
    | none ↦ next req username network address
    | some addr ↦ elim (matching addr pfxs) [
      | none ↦ next req username network address
      | some pfx ↦ some (
          "destination address "
          ++ ip.addr_text addr
          ++ " is not allowed by filter prefix "
          ++ ip.prefix_text pfx)
    ]
  ]

-- `DialContext` of a `FilterDialer`, whose filter reads the request and the user name of the context
unfoldable pub filter_dial :
    {E Conn : Type 0}
    → Filter
    → (next : DialParams → String → String → E → Dialed Conn × E) → DialParams
    → String
    → String
    → E
    → Dialed Conn × E
filter_dial f next params network address env =
    elim (f params.request params.username network address) [
      | some e ↦ (access_denied, env)
      | none ↦ next params network address env
    ]

module _ (ip : Netip) (pfxs : List ip.Prefix) where
  -- The address is in one of these prefixes.
  unfoldable pub is_within : ip.Addr → List ip.Prefix → Bool
  is_within addr [] = false
  is_within addr (pfx ∷ more) = ip.contains pfx addr || is_within addr more

  -- The text is an address in one of the prefixes of the filter.
  abbrev pub is_forbidden : String → Bool
  is_forbidden address = elim (ip.parse_addr_port address) [
    | none ↦ false
    | some addr ↦ is_within addr pfxs
  ]

  abbrev is_some : Option ip.Prefix → Bool
  is_some none = false
  is_some (some p) = true

  -- The loop over the prefixes finds one just where there is one.
  matching-is_within :
      (addr : ip.Addr) (ps : List ip.Prefix) → is_some (matching ip addr ps) ≡ is_within addr ps
  unfolding matching is_within
  matching-is_within addr [] = refl
  matching-is_within addr (pfx ∷ ps) = ground (arith, matching-is_within addr ps)

  -- Behind a filter for destination addresses, no address in one of its prefixes is dialled, whatever
  -- the filter behind it allows: the result is that access is denied, and nothing was done. Any other
  -- text goes to the next filter, and with `AlwaysAllow` to the next dialer.
  pub filter_dial-dst_addr_filter :
      {E Conn : Type 0} (next : DialParams → String → String → E → Dialed Conn × E) (f : Filter)
      (params : DialParams) (network address : String) (env : E)
      → filter_dial (dst_addr_filter ip pfxs f) next params network address env ≡ (
          if is_forbidden address
          then (access_denied, env)
          else filter_dial f next params network address env)
  unfolding filter_dial dst_addr_filter
  filter_dial-dst_addr_filter next f params network address env =
      elim (Option-cases (ip.parse_addr_port address)) [
        | inl e ↦ ground (arith, e)
        | inr (addr, e) ↦ elim (Option-cases (matching ip addr pfxs)) [
          | inl m ↦ ground (arith, e, m, matching-is_within addr pfxs)
          | inr (pfx, m) ↦ ground (arith, e, m, matching-is_within addr pfxs)
        ]
      ]
