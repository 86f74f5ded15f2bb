-- ===== src/Dumbproxy/Handler/Socks.antt =====
-- handler/socks.go: `SOCKSHandler`.
use Prim.Native.String.{◌++◌}
use go_forward_proxy.Base.{String, ◌≡◌, false, Option, none, some, arith, str_eq, if◌then◌else◌}
use go_forward_proxy.Base.Text.{contains}
use go_forward_proxy.Base.Dict.{find}
use go_forward_proxy.Base.Result.{Result, ok, err}
use go_forward_proxy.Dumbproxy.Http.Laws.{str_eq_refl}
use go_forward_proxy.Dumbproxy.Handler.Tunnel.{Outbound, register, unregister}
use go_forward_proxy.Dumbproxy.Handler.Entries.{find-unregister, find-register}

-- `statute.Rep…`
pub data Reply : Type 0 where
  success : Reply
  connection_refused : Reply
  network_unreachable : Reply
  host_unreachable : Reply

-- `socks5.Request`, as far as the handler reads it; the address it comes from, the local address and
-- the one it asks for, twice
pub record SocksRequest : Type 0 where
  pub remote_addr : String
  pub local_addr : String
  pub dest_addr : String
  pub raw_dest_addr : String
  pub username : Option String

-- The packages and the dialer: `DialContext` with the user name and the local address that the
-- context carries, a connection's local address and `Close`, `SendReply`, and `forward`.
pub record SocksNet : Type 1 where
  pub E : Type 0
  pub Conn : Type 0
  pub dial_context : String → String → String → E → Result Conn × E
  pub conn_addr : Conn → String
  pub close_conn : Conn → E → E
  pub send_reply : Reply → Option String → E → Result (Unit {0}) × E
  pub forward : String → Conn → String → E → Result (Unit {0}) × E

-- the reply to an error of the dialer
unfoldable pub reply_to : String → Reply
reply_to msg =
    if contains msg "refused"
    then connection_refused
    else if contains msg "network is unreachable"
    then network_unreachable
    else host_unreachable

abbrev loop_error : String → String → String
loop_error addr originator =
    "Loopback tunnel detected: " ++ addr ++ " is an outbound address for another request from "
    ++ originator

abbrev or_nobody : Option String → String
or_nobody none = ""
or_nobody (some name) = name

module _ (net : SocksNet) where
  abbrev Done : Type 0
  Done = Result (Unit {0}) × Outbound × net.E

  -- after `SendReply`
  forwarded : SocksRequest → net.Conn → Result (Unit {0}) × net.E → Result (Unit {0}) × net.E
  forwarded req conn (err e, env) = (err ("failed to send reply, " ++ e), env)
  forwarded req conn (ok _, env) = net.forward (or_nobody req.username) conn req.dest_addr env

  -- The tunnel, and the deferred call, which deletes the entry of the local address of the request.
  socks_tunnel : SocksRequest → net.Conn → Outbound → net.E → Done
  unfolding forwarded
  socks_tunnel req conn outbound env =
      let addr = net.conn_addr conn in
      let outbound₁ = register addr req.remote_addr outbound in
      let (result, env') = forwarded req conn (net.send_reply success (some addr) env) in
      (result, unregister req.local_addr outbound₁, net.close_conn conn env')

  -- what is returned when the dialer fails, after the reply
  refused_socks : SocksRequest → String → Outbound → net.E → Done
  refused_socks req msg outbound env =
      let (sent, env') = net.send_reply (reply_to msg) none env in
      let result : Result (Unit {0}) = elim sent [
        | err e ↦ err ("failed to send reply: " ++ e)
        | ok _ ↦ err ("connect to " ++ req.raw_dest_addr ++ " failed: " ++ msg)
      ] in
      (result, outbound, env')

  -- `trim` is `trimAddrPort`
  unfoldable pub socks_handler : (trim : String → String) → SocksRequest → Outbound → net.E → Done
  unfolding socks_tunnel refused_socks
  socks_handler trim req outbound env =
      let (_, env₁) = net.send_reply connection_refused none env in
      let (r, env₂) =
        net.dial_context (or_nobody req.username) (trim req.local_addr) req.dest_addr env in
      elim (find req.remote_addr outbound) [
        | some originator ↦ (err (loop_error req.remote_addr originator), outbound, env₁)
        | none ↦ elim r [
          | err msg ↦ refused_socks req msg outbound env₂
          | ok conn ↦ socks_tunnel req conn outbound env₂
        ]
      ]

  -- A tunnel over SOCKS that has ended stays in the map: where the address that it was dialled from
  -- is not the address at which the client was accepted, the map still has its entry after the
  -- handler has returned and closed the connection. The entry that is deleted is the one of the
  -- address at which the client was accepted.
  pub socks_handler-stale :
      (trim : String → String) (req : SocksRequest) (o : Outbound) (env env' : net.E)
      (conn : net.Conn)
      → find req.remote_addr o ≡ none
      → net.dial_context (or_nobody req.username) (trim req.local_addr) req.dest_addr env
        ≡ (ok conn, env')
      → str_eq req.local_addr (net.conn_addr conn) ≡ false
      → let after = (socks_handler trim req o env).1 in
        (find (net.conn_addr conn) after ≡ some req.remote_addr)
        × (find req.local_addr after ≡ none)
  unfolding socks_handler
  socks_handler-stale trim req o env env' conn n d h =
      let addr = net.conn_addr conn in
      let o₁ = register addr req.remote_addr o in
      (
        ground (
          arith,
          n,
          d,
          h,
          find-unregister req.local_addr addr o₁,
          find-register addr req.remote_addr addr o,
          str_eq_refl addr,
        ),
        ground (
          arith,
          n,
          d,
          h,
          find-unregister req.local_addr req.local_addr o₁,
          str_eq_refl req.local_addr,
        ),
      )
