-- ===== src/Dumbproxy/Dialers/Resolve.antt =====
-- dialer/resolve.go: `NameResolvingDialer`.
pub mod Literals
use Prim.Native.String.{◌++◌}
use go_forward_proxy.Base.{
  String, ◌≡◌, Bool, Option, none, some, List, [], ◌∷◌, arith, inl, inr, if◌then◌else◌,
}
use mathlib.Core.List.{◌++◌ as ◌+++◌}
use go_forward_proxy.Base.Text.{one_of}
use go_forward_proxy.Base.Result.{Result, ok, err, Exec, Result-cases}

-- The calls: the next dialer, with the original destination where the context has one, and whether
-- it wants names; net and net/netip; and the resolver.
pub record ResolveNet : Type 1 where
  pub E : Type 0
  pub Conn : Type 0
  pub Addr : Type 0
  pub next_dial : Option String → String → String → Exec E Conn
  pub wants_hostname : String → String → Bool
  pub split_host_port : String → Result (String × String)
  pub join_host_port : String → String → String
  pub parse_addr : String → Option Addr
  pub unmap : Addr → Addr
  pub addr_text : Addr → String
  pub lookup_net_ip : String → String → Exec E (List Addr)
  pub append_error : Option String → String → String
  -- `%q`, and `%w` of an error that may be nil
  pub quoted : String → String
  pub error_text : Option String → String

-- `resolveNetwork`
unfoldable pub resolve_network : String → Option String
resolve_network network =
    if one_of network ("udp4" ∷ "tcp4" ∷ "ip4" ∷ [])
    then some "ip4"
    else if one_of network ("udp6" ∷ "tcp6" ∷ "ip6" ∷ [])
    then some "ip6"
    else if one_of network ("udp" ∷ "tcp" ∷ "ip" ∷ [])
    then some "ip"
    else none

module _ (net : ResolveNet) where
  abbrev pub map_unmap : List net.Addr → List net.Addr
  map_unmap [] = []
  map_unmap (a ∷ rest) = net.unmap a ∷ map_unmap rest

  -- The loop over the addresses, with the errors so far.
  unfoldable pub dial_each :
      String → String → String → List net.Addr → Option String → Exec net.E net.Conn
  dial_each network address port [] failure env =
      (err ("failed to dial " ++ address ++ ": " ++ net.error_text failure), env)
  dial_each network address port (ip ∷ ips) failure env =
      let target = net.join_host_port (net.addr_text ip) port in
      let (r, env') = net.next_dial (some address) network target env in
      let rest = λ (e : String).
        dial_each network address port ips (some (net.append_error failure e)) env' in
      elim r [ ok conn ↦ (ok conn, env') | err e ↦ rest e ]

  -- what is done with the host and the port of an address: an address as it is, or a name
  dial_resolved :
      String → String → String → String → Result (List net.Addr) × net.E → Result net.Conn × net.E
  dial_resolved network address host port (err e, env) =
      (err ("resolving " ++ net.quoted host ++ " (" ++ network ++ ") failed: " ++ e), env)
  dial_resolved network address host port (ok found, env) =
      dial_each network address port (map_unmap found) none env

  dial_name : String → String → String → String → Exec net.E net.Conn
  unfolding dial_resolved
  dial_name network address host port env = elim (net.parse_addr host) [
    | some addr ↦
        net.next_dial none network (net.join_host_port (net.addr_text (net.unmap addr)) port) env
    | none ↦ elim (resolve_network network) [
      | none ↦ (
        err (
            "resolving dial "
            ++ net.quoted address
            ++ ": unsupported network "
            ++ net.quoted network),
        env,
      )
      | some kind ↦ dial_resolved network address host port (net.lookup_net_ip kind host env)
    ]
  ]

  -- `DialContext` of a `NameResolvingDialer`
  unfoldable pub resolving_dial : String → String → Exec net.E net.Conn
  unfolding dial_name
  resolving_dial network address env =
      if net.wants_hostname network address
      then net.next_dial none network address env
      else elim (net.split_host_port address) [
        | err e ↦ (err ("failed to extract host and port from " ++ address ++ ": " ++ e), env)
        | ok (host, port) ↦ dial_name network address host port env
      ]

  -- The environment behind attempts that all fail, and none where one does not.
  unfoldable pub after_failures : String → String → String → List net.Addr → net.E → Option net.E
  after_failures network address port [] env = some env
  after_failures network address port (ip ∷ ips) env =
      let (r, env') =
        net.next_dial (some address) network (net.join_host_port (net.addr_text ip) port) env in
      elim r [ ok conn ↦ none | err e ↦ after_failures network address port ips env' ]

  -- The addresses of a name are tried in their order: where all in front of one fail and that one is
  -- reached, its connection is the result, and the addresses behind it are not tried.
  pub dial_each-first :
      (network address port : String) (before : List net.Addr) (ip : net.Addr)
      (behind : List net.Addr) (failure : Option String) (env env₁ env₂ : net.E) (conn : net.Conn)
      → after_failures network address port before env ≡ some env₁
      → net.next_dial (some address) network (net.join_host_port (net.addr_text ip) port) env₁
        ≡ (ok conn, env₂)
      → dial_each network address port (before +++ (ip ∷ behind)) failure env ≡ (ok conn, env₂)
  unfolding dial_each after_failures
  dial_each-first network address port [] ip behind failure env env₁ env₂ conn f d =
      ground (arith, f, d)
  dial_each-first network address port (a ∷ before) ip behind failure env env₁ env₂ conn f d =
      let tried =
        net.next_dial (some address) network (net.join_host_port (net.addr_text a) port) env in
      elim (Result-cases tried.0) [
        | inl (other, e) ↦ absurd (ground (arith, f, e))
        | inr (x, e) ↦ ground (
          arith,
          e,
          dial_each-first network address port before ip behind (some (net.append_error failure x))
              tried.1 env₁ env₂ conn (ground (arith, f, e)) d,
        )
      ]
