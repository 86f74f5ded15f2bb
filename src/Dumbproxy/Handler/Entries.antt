-- ===== src/Dumbproxy/Handler/Entries.antt =====
-- The entries of the map `outbound`, and what `HandleTunnel` leaves of them.
use go_forward_proxy.Base.{
  String, ◌≡◌, ap, Bool, true, false, Option, none, some, [], ◌∷◌, arith, inl, inr, str_eq,
  Bool-cases, if◌then◌else◌,
}
use go_forward_proxy.Base.Dict.{find}
use go_forward_proxy.Dumbproxy.Http.{Request, Writer}
use go_forward_proxy.Dumbproxy.Http.Laws.{str_eq-path}
use go_forward_proxy.Dumbproxy.Handler.Ends.{
  Net, DialParams, Dialed, dialed, access_denied, not_dialed, Dialed-cases,
}
use go_forward_proxy.Dumbproxy.Handler.Tunnel.{
  Outbound, register, unregister, open_tunnel, delete_entry, end_tunnel, handle_tunnel,
}

str_eq-same : (i j k : String) → str_eq i j ≡ true → str_eq i k ≡ str_eq j k
str_eq-same i j k h = ap (λ t. str_eq t k) (str_eq-path i j h)

pub find-unregister :
    (addr a : String) (o : Outbound)
    → find a (unregister addr o) ≡ (if str_eq addr a then none else find a o)
unfolding find unregister
find-unregister addr a [] = ground arith
find-unregister addr a ((b, r) ∷ o) = elim (Bool-cases (str_eq b addr)) [
  | inl e ↦ ground (arith, e, find-unregister addr a o, str_eq-same b addr a e)
  | inr e ↦ elim (Bool-cases (str_eq addr a)) [
    | inr d ↦ ground (arith, e, d, find-unregister addr a o)
    | inl d ↦ ground (arith, e, d, find-unregister addr a o, ap (str_eq b) (str_eq-path addr a d))
  ]
]

pub find-register :
    (addr originator a : String) (o : Outbound)
    → find a (register addr originator o) ≡ (if str_eq addr a then some originator else find a o)
unfolding find
find-register addr originator a o = ground (arith, find-unregister addr a o)

module _ (net : Net) where
  -- the address from which a tunnel was dialled, if one was
  abbrev tunnel_addr : Dialed net.Conn → Option String
  tunnel_addr (dialed conn) = some (net.conn_addr conn)
  tunnel_addr access_denied = none
  tunnel_addr not_dialed = none

  abbrev is_addr : Option String → String → Bool
  is_addr none a = false
  is_addr (some addr) a = str_eq addr a

  -- When `HandleTunnel` is done, and no other request was served meanwhile, the map has no entry for
  -- the address that it dialled from, and for every other address the entry that it had.
  pub handle_tunnel-outbound :
      (params : DialParams) (req : Request) (wr : Writer) (o : Outbound) (env : net.E) (a : String)
      → find a (handle_tunnel net params req wr o env).1 ≡ (
          if is_addr (tunnel_addr (net.dial_context params "tcp" req.request_uri env).0) a
          then none
          else find a o)
  unfolding handle_tunnel open_tunnel end_tunnel delete_entry
  handle_tunnel-outbound params req wr o env a =
      let dial = net.dial_context params "tcp" req.request_uri env in
      elim (Dialed-cases dial.0) [
        | inl (conn, e) ↦
            let addr = net.conn_addr conn in
            ground (
              arith,
              e,
              find-unregister addr a (register addr req.remote_addr o),
              find-register addr req.remote_addr a o,
            )
        | inr (inl e) ↦ ground (arith, e)
        | inr (inr e) ↦ ground (arith, e)
      ]
