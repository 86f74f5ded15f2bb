-- ===== src/Dumbproxy/Dialers/Resolve/Literals.antt =====
-- `NameResolvingDialer` gives the next dialer addresses and no names.
use go_forward_proxy.Base.{
  String, ◌≡◌, refl, Bool, true, false, Option, none, some, List, [], ◌∷◌, arith, inl, inr,
  Option-cases, if◌then◌else◌,
}
use go_forward_proxy.Base.Result.{Result, ok, err, Exec, Result-cases}
use go_forward_proxy.Dumbproxy.Dialers.Resolve.{
  ResolveNet, resolve_network, map_unmap, dial_each, dial_resolved, dial_name, resolving_dial,
}

-- The text is an address and no name, and so is each that a resolver finds.
pub record Literals (net : ResolveNet) : Type 0 where
  pub is_literal : String → Bool
  pub joined :
      (a : net.Addr) (port : String) → is_literal (net.join_host_port (net.addr_text a) port) ≡ true

-- the next dialer, with another one in its place for what is no address
abbrev pub only_literals :
    (net : ResolveNet)
    → Literals net
    → (other : Option String → String → String → Exec net.E net.Conn) → ResolveNet
only_literals net lit other = record net {
  next_dial = λ origin network address env.
      let known = net.next_dial origin network address env in
      let unknown = other origin network address env in
      if lit.is_literal address then known else unknown;
}

module _ (net : ResolveNet) (lit : Literals net)
    (other : Option String → String → String → Exec net.E net.Conn) where
  dial_each-only_literals :
      (network address port : String) (ips : List net.Addr) (failure : Option String) (env : net.E)
      → dial_each (only_literals net lit other) network address port ips failure env
        ≡ dial_each net network address port ips failure env
  unfolding dial_each
  dial_each-only_literals network address port [] failure env = refl
  dial_each-only_literals network address port (ip ∷ ips) failure env =
      let target = net.join_host_port (net.addr_text ip) port in
      let (r, env') = net.next_dial (some address) network target env in
      let step = dial_each-only_literals network address port ips in
      elim (Result-cases r) [
        | inl (conn, e) ↦ ground (arith, lit.joined ip port, e)
        | inr (x, e) ↦
            ground (arith, lit.joined ip port, e, step (some (net.append_error failure x)) env')
      ]

  dial_resolved-only_literals :
      (network address host port : String) (found : Result (List net.Addr) × net.E)
      → dial_resolved (only_literals net lit other) network address host port found
        ≡ dial_resolved net network address host port found
  unfolding dial_resolved
  dial_resolved-only_literals network address host port (err e, env) = refl
  dial_resolved-only_literals network address host port (ok found, env) =
      dial_each-only_literals network address port (map_unmap net found) none env

  dial_name-only_literals :
      (network address host port : String) (env : net.E)
      → dial_name (only_literals net lit other) network address host port env
        ≡ dial_name net network address host port env
  unfolding dial_name
  dial_name-only_literals network address host port env =
      elim (Option-cases (net.parse_addr host)) [
        | inr (addr, e) ↦ ground (arith, e, lit.joined (net.unmap addr) port)
        | inl e ↦ elim (Option-cases (resolve_network network)) [
          | inl k ↦ ground (arith, e, k)
          | inr (kind, k) ↦ ground (
            arith,
            e,
            k,
            dial_resolved-only_literals network address host port (net.lookup_net_ip kind host env),
          )
        ]
      ]

  -- Behind a dialer that does not want names, a `NameResolvingDialer` gives the next dialer addresses
  -- only, of those that a name has or the one that was asked for: whatever the next dialer did with
  -- names, the result would be the same.
  pub resolving_dial-only_literals :
      (network address : String) (env : net.E)
      → net.wants_hostname network address ≡ false
      → resolving_dial (only_literals net lit other) network address env
        ≡ resolving_dial net network address env
  unfolding resolving_dial
  resolving_dial-only_literals network address env h =
      elim (Result-cases (net.split_host_port address)) [
        | inr (x, e) ↦ ground (arith, h, e)
        | inl ((host, port), e) ↦
            ground (arith, h, e, dial_name-only_literals network address host port env)
      ]
