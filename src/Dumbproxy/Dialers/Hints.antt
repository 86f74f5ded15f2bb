-- ===== src/Dumbproxy/Dialers/Hints.antt =====
-- dialer/hintdialer.go: `BoundDialer`, which dials from the addresses that hints name, and
-- `HintsSettingDialer`, which sets the hints.
pub mod Families
use Prim.Native.String.{◌++◌}
use go_forward_proxy.Base.{
  String, not, ◌&&◌, Option, none, some, List, [], ◌∷◌, str_eq, if◌then◌else◌,
}
use go_forward_proxy.Base.Text.{split, one_of}
use go_forward_proxy.Base.Result.{Result, ok, err, Exec}
use go_forward_proxy.Dumbproxy.Handler.Ends.{DialParams}

-- The family of an address: 4 or 16 bytes, or any other number of them.
pub data Family : Type 0 where
  v4 : Family
  v6 : Family
  other : Family

-- The calls: net.ParseIP and its texts, `os.Expand` for the key "lAddr", strings.TrimSpace, the default
-- dialer, and a `net.Dialer` with a local address.
pub record HintNet : Type 1 where
  pub E : Type 0
  pub Conn : Type 0
  pub Ip : Type 0
  pub parse_ip : String → Option Ip
  pub family : Ip → Family
  pub ip_text : Ip → String
  pub expand : String → String → String
  pub trim_space : String → String
  pub quoted : String → String
  pub default_dial : String → String → Exec E Conn
  pub dial_from : Ip → String → String → Exec E Conn
  pub append_error : Option String → String → String

-- `netBase`
unfoldable pub net_base : String → Option String
net_base network =
    if one_of network ("tcp" ∷ "tcp4" ∷ "tcp6" ∷ [])
    then some "tcp"
    else if one_of network ("udp" ∷ "udp4" ∷ "udp6" ∷ [])
    then some "udp"
    else if one_of network ("ip" ∷ "ip4" ∷ "ip6" ∷ [])
    then some "ip"
    else none

-- the network of `ipToLAddr`, for one of the three bases
unfoldable pub ip_to_laddr : String → Family → Result String
ip_to_laddr base v4 = ok (base ++ "4")
ip_to_laddr base v6 = ok (base ++ "6")
ip_to_laddr base other = err "bad IP address length"

module _ (net : HintNet) where
  abbrev onto_ips : net.Ip → Result (List net.Ip) → Result (List net.Ip)
  onto_ips ip (ok ips) = ok (ip ∷ ips)
  onto_ips ip (err e) = err e

  -- the loop of `parseIPList`; the first element that is no address ends it
  unfoldable pub parse_each : List String → Result (List net.Ip)
  parse_each [] = ok []
  parse_each (elem ∷ elems) =
      let rest = parse_each elems in
      let text = net.trim_space elem in
      if str_eq text "" then rest else elim (net.parse_ip text) [
        | none ↦ err ("unable to parse IP address " ++ net.quoted text)
        | some ip ↦ onto_ips ip rest
      ]

  unfoldable pub parse_ip_list : String → Result (List net.Ip)
  parse_ip_list list = parse_each (split b',' list)

  unfoldable pub parse_hints : String → String → Result (List net.Ip)
  parse_hints hints l_addr =
      let expanded = net.expand hints l_addr in
      elim (parse_ip_list expanded) [
        | err e ↦ err ("unable to parse source IP hints " ++ net.quoted expanded ++ ": " ++ e)
        | ok ips ↦ ok ips
      ]

  abbrev or_no_address : Option String → String
  or_no_address none = "no suitable address"
  or_no_address (some e) = e

  -- The loop over the hints, with the errors so far.
  unfoldable pub dial_hints :
      String → String → String → List net.Ip → Option String → Exec net.E net.Conn
  dial_hints base network address [] failure env = (err (or_no_address failure), env)
  dial_hints base network address (ip ∷ ips) failure env =
      let bad = λ (e : String).
        dial_hints base network address ips
          (some (
            net.append_error failure
              ("ipToLAddr(" ++ net.quoted (net.ip_text ip) ++ ") failed: " ++ e)))
          env in
      let skipped = dial_hints base network address ips failure env in
      elim (ip_to_laddr base (net.family ip)) [
        | err e ↦ bad e
        | ok restricted ↦
            let (r, env') = net.dial_from ip restricted address env in
            let failed = λ (e : String).
              dial_hints base network address ips
                (some (net.append_error failure ("dial failed: " ++ e))) env' in
            if not (str_eq network base) && not (str_eq network restricted)
            then skipped
            else elim r [ ok conn ↦ (ok conn, env') | err e ↦ failed e ]
      ]

  abbrev pub used_hints : String → Option DialParams → String × String
  used_hints default_hints none = (default_hints, "")
  used_hints default_hints (some params) =
      (elim params.hints [ none ↦ default_hints | some h ↦ h ], params.local_addr)

  -- what follows the parsing of the hints
  unfoldable pub hinted : String → String → Result (List net.Ip) → Exec net.E net.Conn
  hinted network address (err e) env = (err ("dial failed: " ++ e), env)
  hinted network address (ok []) env = net.default_dial network address env
  hinted network address (ok (ip ∷ ips)) env = elim (net_base network) [
    | none ↦ net.default_dial network address env
    | some base ↦ dial_hints base network address (ip ∷ ips) none env
  ]

  -- `DialContext` of a `BoundDialer`, by its default hints and what the context carries
  unfoldable pub bound_dial : String → Option DialParams → String → String → Exec net.E net.Conn
  unfolding hinted
  bound_dial default_hints params network address env =
      let (hints, l_addr) = used_hints default_hints params in
      hinted network address (parse_hints hints l_addr) env

  -- what `HintsSettingDialer` makes of the values of the context
  unfoldable pub set_hints : String → DialParams → DialParams
  set_hints hints params = record params { hints = some hints }
