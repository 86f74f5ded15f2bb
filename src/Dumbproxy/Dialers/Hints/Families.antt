-- ===== src/Dumbproxy/Dialers/Hints/Families.antt =====
-- A dialer with hints keeps to the network that was asked for and to the families of its addresses.
use go_forward_proxy.Base.{
  String, ◌≡◌, refl, sym, ap, ◌∙◌, Bool, false, not, ◌&&◌, ◌||◌, Option, none, some, List, [], ◌∷◌,
  str_eq, eq_refl, ◌⊎◌, true, arith, inl, inr, Bool-cases, Option-cases, if◌then◌else◌,
}
use Prim.Native.String.{◌++◌}
use go_forward_proxy.Base.Text.{split}
use go_forward_proxy.Base.Result.{Result, ok, err, Exec, Result-cases}
use go_forward_proxy.Dumbproxy.Handler.Ends.{DialParams}
use go_forward_proxy.Dumbproxy.Dialers.Hints.{
  HintNet, Family, v4, v6, net_base, ip_to_laddr, parse_each, parse_ip_list, parse_hints,
  dial_hints, used_hints, hinted, bound_dial,
}

-- A network to dial in from an address, by the protocol and the family: the one over the protocol of
-- the network that was asked for, which leaves the family open or names it too.
abbrev is_over : String → String → String → String → Bool
is_over protocol with_family network used =
    str_eq used with_family && (str_eq network protocol || str_eq network with_family)

unfoldable pub is_allowed : String → Family → String → Bool
is_allowed network v4 used =
    is_over "tcp" "tcp4" network used
    || is_over "udp" "udp4" network used
    || is_over "ip" "ip4" network used
is_allowed network v6 used =
    is_over "tcp" "tcp6" network used
    || is_over "udp" "udp6" network used
    || is_over "ip" "ip6" network used
is_allowed network Family.other used = false

net_base-cases :
    (network base : String)
    → net_base network ≡ some base
    → (base ≡ "tcp") ⊎ (base ≡ "udp") ⊎ (base ≡ "ip")
unfolding net_base
net_base-cases network base h = ground (arith, h)

kept-is_over :
    (network base restricted protocol with_family : String)
    → base ≡ protocol
    → restricted ≡ with_family
    → (not (str_eq network base) && not (str_eq network restricted)) ≡ false
    → is_over protocol with_family network restricted ≡ true
kept-is_over network base restricted protocol with_family e q k = ground (
  arith,
  k,
  ap (str_eq network) e,
  ap (str_eq network) q,
  ap (λ x. str_eq x with_family) q,
  eq_refl with_family,
)

-- the network that `ipToLAddr` names for an address, where it is not passed over
restricted-is_allowed :
    (network base restricted : String) (f : Family)
    → net_base network ≡ some base
    → ip_to_laddr base f ≡ ok restricted
    → (not (str_eq network base) && not (str_eq network restricted)) ≡ false
    → is_allowed network f restricted ≡ true
unfolding ip_to_laddr is_allowed
restricted-is_allowed network base restricted v4 b r k =
    let same : base ++ "4" ≡ restricted = ground (arith, r) in
    elim (net_base-cases network base b) [
      | inl e ↦ ground (
        arith,
        kept-is_over network base restricted "tcp" "tcp4" e (sym same ∙ ap (λ x. x ++ "4") e) k,
      )
      | inr (inl e) ↦ ground (
        arith,
        kept-is_over network base restricted "udp" "udp4" e (sym same ∙ ap (λ x. x ++ "4") e) k,
      )
      | inr (inr e) ↦ ground (
        arith,
        kept-is_over network base restricted "ip" "ip4" e (sym same ∙ ap (λ x. x ++ "4") e) k,
      )
    ]
restricted-is_allowed network base restricted v6 b r k =
    let same : base ++ "6" ≡ restricted = ground (arith, r) in
    elim (net_base-cases network base b) [
      | inl e ↦ ground (
        arith,
        kept-is_over network base restricted "tcp" "tcp6" e (sym same ∙ ap (λ x. x ++ "6") e) k,
      )
      | inr (inl e) ↦ ground (
        arith,
        kept-is_over network base restricted "udp" "udp6" e (sym same ∙ ap (λ x. x ++ "6") e) k,
      )
      | inr (inr e) ↦ ground (
        arith,
        kept-is_over network base restricted "ip" "ip6" e (sym same ∙ ap (λ x. x ++ "6") e) k,
      )
    ]
restricted-is_allowed network base restricted Family.other b r k = absurd (ground (arith, r))

-- the calls, with another dialer in its place for a network that is not allowed
abbrev pub only_allowed :
    (net : HintNet)
    → (network : String) (other : net.Ip → String → String → Exec net.E net.Conn) → HintNet
only_allowed net network other = record net {
  dial_from = λ ip used address env.
      let known = net.dial_from ip used address env in
      let unknown = other ip used address env in
      if is_allowed network (net.family ip) used then known else unknown;
}

module _ (net : HintNet) (network : String)
    (other : net.Ip → String → String → Exec net.E net.Conn) where
  parse_each-only_allowed :
      (elems : List String)
      → parse_each (only_allowed net network other) elems ≡ parse_each net elems
  unfolding parse_each
  parse_each-only_allowed [] = refl
  parse_each-only_allowed (elem ∷ elems) = rw (parse_each-only_allowed elems) refl

  dial_hints-only_allowed :
      (base address : String) (ips : List net.Ip) (failure : Option String) (env : net.E)
      → net_base network ≡ some base
      → dial_hints (only_allowed net network other) base network address ips failure env
        ≡ dial_hints net base network address ips failure env
  unfolding dial_hints
  dial_hints-only_allowed base address [] failure env b = refl
  dial_hints-only_allowed base address (ip ∷ ips) failure env b =
      elim (Result-cases (ip_to_laddr base (net.family ip))) [
        | inr (x, r) ↦ ground (
          arith,
          r,
          dial_hints-only_allowed base address ips
              (some (
                net.append_error failure
                  ("ipToLAddr(" ++ net.quoted (net.ip_text ip) ++ ") failed: " ++ x)))
              env b,
        )
        | inl (restricted, r) ↦
            elim (Bool-cases (not (str_eq network base) && not (str_eq network restricted))) [
              | inl k ↦ ground (arith, r, k, dial_hints-only_allowed base address ips failure env b)
              | inr k ↦
                  let (d, env') = net.dial_from ip restricted address env in
                  let allowed =
                    restricted-is_allowed network base restricted (net.family ip) b r k in
                  elim (Result-cases d) [
                    | inl (conn, o) ↦ ground (arith, r, k, o, allowed)
                    | inr (x, o) ↦ ground (
                      arith,
                      r,
                      k,
                      o,
                      allowed,
                      dial_hints-only_allowed base address ips
                          (some (net.append_error failure ("dial failed: " ++ x))) env' b,
                    )
                  ]
            ]
      ]

  parse_hints-only_allowed :
      (hints l_addr : String)
      → parse_hints (only_allowed net network other) hints l_addr ≡ parse_hints net hints l_addr
  unfolding parse_hints parse_ip_list
  parse_hints-only_allowed hints l_addr =
      ground (arith, parse_each-only_allowed (split b',' (net.expand hints l_addr)))

  dialled-only_allowed :
      (address : String) (ips : List net.Ip) (env : net.E)
      → hinted (only_allowed net network other) network address (ok ips) env
        ≡ hinted net network address (ok ips) env
  unfolding hinted
  dialled-only_allowed address [] env = refl
  dialled-only_allowed address (ip ∷ ips) env = elim (Option-cases (net_base network)) [
    | inl b ↦ ground (arith, b)
    | inr (base, b) ↦ ground (arith, b, dial_hints-only_allowed base address (ip ∷ ips) none env b)
  ]

  hinted-only_allowed :
      (address : String) (parsed : Result (List net.Ip)) (env : net.E)
      → hinted (only_allowed net network other) network address parsed env
        ≡ hinted net network address parsed env
  unfolding hinted
  hinted-only_allowed address (err e) env = refl
  hinted-only_allowed address (ok ips) env = dialled-only_allowed address ips env

  -- A dialer with hints dials from an address only in the network of the address's family and of the
  -- protocol that was asked for, and never in a family that was not asked for: whatever came of any
  -- other dial, the result would be the same. This is so for all hints, of the configuration and of
  -- clients.
  pub bound_dial-only_allowed :
      (default_hints : String) (params : Option DialParams) (address : String) (env : net.E)
      → bound_dial (only_allowed net network other) default_hints params network address env
        ≡ bound_dial net default_hints params network address env
  unfolding bound_dial
  bound_dial-only_allowed default_hints params address env =
      let (hints, l_addr) = used_hints net default_hints params in
      hinted-only_allowed address (parse_hints (only_allowed net network other) hints l_addr) env
      ∙ ap (λ p. hinted net network address p env) (parse_hints-only_allowed hints l_addr)
