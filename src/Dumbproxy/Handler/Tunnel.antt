-- ===== src/Dumbproxy/Handler/Tunnel.antt =====
-- handler/handler.go: `HandleTunnel`, in the parts between which other requests are served, and
-- `hijack` of handler/proxy.go.
use Prim.Native.String.{◌++◌}
use go_forward_proxy.Base.{
  ℕ, String, ◌||◌, Option, none, some, List, [], ◌∷◌, ◌==◌, ltb, str_eq, if◌then◌else◌,
}
use go_forward_proxy.Base.Decimal.{format_nat}
use go_forward_proxy.Base.Result.{Result, ok, err}
use go_forward_proxy.Dumbproxy.Http.{
  Request, Writer, put_header, on_header, write_header, http_error,
}
use go_forward_proxy.Dumbproxy.Handler.Ends.{
  Net, DialParams, dialed, access_denied, not_dialed, upstream, upstream_writer, client,
  pending_client, rescued, h2_client,
}

-- `outbound`: the addresses from which tunnels are dialled, with the clients they are for.
abbrev pub Outbound : Type 0
Outbound = List (String × String)

-- `delete(s.outbound, addr)`
unfoldable pub unregister : String → Outbound → Outbound
unregister addr [] = []
unregister addr ((a, r) ∷ o) =
    let rest = unregister addr o in if str_eq a addr then rest else (a, r) ∷ rest

-- `s.outbound[addr] = originator`
abbrev pub register : String → String → Outbound → Outbound
register addr originator o = (addr, originator) ∷ unregister addr o

module _ (net : Net) where
  -- The part up to the registration: the connection, or the answer to the client.
  unfoldable pub open_tunnel :
      DialParams → Request → Writer → Outbound → net.E → Option net.Conn × Writer × Outbound × net.E
  open_tunnel params req wr outbound env =
      let (r, env') = net.dial_context params "tcp" req.request_uri env in
      elim r [
        | access_denied ↦ (none, http_error "Access denied" 403 wr, outbound, env')
        | not_dialed ↦ (none, http_error "Can't satisfy CONNECT request" 502 wr, outbound, env')
        | dialed conn ↦
            (some conn, wr, register (net.conn_addr conn) req.remote_addr outbound, env')
      ]

  -- `hijack`: the client's connection and the number of bytes that were read from it already
  unfoldable pub hijack : net.E → Result (net.LocalConn × ℕ) × net.E
  hijack env =
      let (taken, env₁) = net.hijack_conn env in
      if net.is_hijacker
      then elim taken [
        | err e ↦ (err e, env₁)
        | ok (conn, buffered) ↦
            let (reset, env₂) = net.reset_deadline conn env₁ in
            elim reset [
              | err e ↦ (err e, net.close_local conn env₂)
              | ok _ ↦ (ok (conn, buffered), env₂)
            ]
      ]
      else (err "Connection doesn't support hijacking", env)

  -- "HTTP/%d.%d 200 OK\r\n\r\n"
  abbrev pub connected_line : Request → String
  connected_line req =
      "HTTP/"
      ++ format_nat req.proto_major
      ++ "."
      ++ format_nat req.proto_minor
      ++ " 200 OK\r\n\r\n"

  -- A tunnel over a connection that was taken over. The bytes that were read from the client already
  -- go first, and only then the client is told that it is connected.
  relay_hijacked : String → Request → net.Conn → net.LocalConn → ℕ → Writer → net.E → Writer × net.E
  relay_hijacked username req conn localconn buffered wr env =
      let (wr₁, env₁) =
        net.forward username (rescued buffered) (upstream_writer conn) "tcp" req.request_uri wr
          env in
      let (wr₂, env₂) =
        net.forward username (pending_client (connected_line req) localconn) (upstream conn) "tcp"
          req.request_uri wr₁ env₁ in
      let env₃ = net.write_local localconn (connected_line req) env in
      let (wr₄, env₄) =
        net.forward username (client localconn) (upstream conn) "tcp" req.request_uri wr env₃ in
      if ltb 0 buffered
      then (wr₂, net.close_local localconn env₂)
      else (wr₄, net.close_local localconn env₄)

  -- The part between the registration and the deferred call.
  unfoldable pub relay_tunnel : String → Request → net.Conn → Writer → net.E → Writer × net.E
  unfolding relay_hijacked
  relay_tunnel username req conn wr env =
      let (taken, env') = hijack env in
      let wr' = write_header 200 (on_header (put_header "Date" []) wr) in
      if req.proto_major == 0 || req.proto_major == 1
      then elim taken [
        | err e ↦ (http_error "Can't hijack client connection" 500 wr, env')
        | ok (localconn, buffered) ↦ relay_hijacked username req conn localconn buffered wr env'
      ]
      else if req.proto_major == 2
      then net.forward username h2_client (upstream conn) "tcp" req.request_uri wr' env
      else (http_error "Unsupported protocol version." 400 wr, env)

  -- what the deferred call does with the mutex held
  unfoldable pub delete_entry : net.Conn → Outbound → Outbound
  delete_entry conn outbound = unregister (net.conn_addr conn) outbound

  -- The deferred call: the connection is closed, and then its entry is deleted.
  unfoldable pub end_tunnel : net.Conn → Outbound → net.E → Outbound × net.E
  unfolding delete_entry
  end_tunnel conn outbound env =
      let env' = net.close_conn conn env in (delete_entry conn outbound, env')

  -- `HandleTunnel`, where no other request is served meanwhile
  unfoldable pub handle_tunnel :
      DialParams → Request → Writer → Outbound → net.E → Writer × Outbound × net.E
  handle_tunnel params req wr outbound env =
      let (opened, wr₁, outbound₁, env₁) = open_tunnel params req wr outbound env in
      elim opened [
        | none ↦ (wr₁, outbound₁, env₁)
        | some conn ↦
            let (wr₂, env₂) = relay_tunnel params.username req conn wr₁ env₁ in
            let (outbound₂, env₃) = end_tunnel conn outbound₁ env₂ in (wr₂, outbound₂, env₃)
      ]
