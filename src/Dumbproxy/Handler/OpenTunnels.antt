-- ===== src/Dumbproxy/Handler/OpenTunnels.antt =====
-- The map `outbound` of a handler, while its tunnels are opened and ended in any order.
use go_forward_proxy.Base.{
  ℕ, suc, ◌<◌, ◌≤◌, String, ◌≡◌, refl, sym, ap, ◌∙◌, ◌⊎◌, Bool, true, false, Option, none, some,
  List, [], ◌∷◌, arith, inl, inr, str_eq, Bool-cases, Option-cases, if◌then◌else◌,
}
use go_forward_proxy.Base.Dict.{find}
use go_forward_proxy.Dumbproxy.Http.{Request, Writer}
use go_forward_proxy.Dumbproxy.Http.Laws.{str_eq-path}
use go_forward_proxy.Dumbproxy.Handler.Ends.{Net, DialParams, Dialed-cases}
use go_forward_proxy.Dumbproxy.Handler.Tunnel.{Outbound, register, open_tunnel, delete_entry}
use go_forward_proxy.Dumbproxy.Handler.Entries.{find-unregister, find-register}

abbrev pub is_some : Option String → Bool
is_some none = false
is_some (some x) = true

module _ (net : Net) where
  -- The tunnels that were registered and whose entries have not been deleted yet, be their
  -- connections open or closed already, with the clients they are for, the latest first.
  abbrev pub Tunnels : Type 0
  Tunnels = List (net.Conn × String)

  -- the client of the latest of the tunnels from an address
  unfoldable pub owner : String → Tunnels → Option String
  owner a [] = none
  owner a ((conn, r) ∷ ts) = if str_eq (net.conn_addr conn) a then some r else owner a ts

  unfoldable number : String → Tunnels → ℕ
  number a [] = 0
  number a ((conn, r) ∷ ts) =
      let rest = number a ts in if str_eq (net.conn_addr conn) a then suc rest else rest

  -- one tunnel is taken away
  pub data Removes (conn : net.Conn) : Tunnels → Tunnels → Type 0 where
    here : {r : String} {ts : Tunnels} → Removes conn ((conn, r) ∷ ts) ts
    there :
        {t : net.Conn × String} {ts ts' : Tunnels}
        → Removes conn ts ts'
        → Removes conn (t ∷ ts) (t ∷ ts')

  -- Of each address, whether the last tunnel that was registered from there was registered while
  -- another one from there had its deferred call in front of it.
  abbrev pub Shared : Type 0
  Shared = String → Bool

  abbrev pub share : String → Tunnels → Shared → Shared
  share addr ts shared a = if str_eq addr a then is_some (owner addr ts) else shared a

  -- What happens to the map, at the moments at which the mutex is held or nothing changes: a request
  -- is refused by the dialer, a tunnel is registered, and the entry of one is deleted. That its
  -- connection was closed changes nothing here: a new connection may have any local address, that
  -- of a tunnel which is open or closed and not yet deleted included.
  pub data Reach : Shared → Outbound → Tunnels → Type 0 where
    start : Reach (λ a. false) [] []
    not_opened :
        {shared : Shared} {o : Outbound} {ts : Tunnels} (params : DialParams) (req : Request)
        (wr : Writer) (env : net.E)
        → Reach shared o ts
        → (open_tunnel net params req wr o env).0 ≡ none
        → Reach shared ((open_tunnel net params req wr o env).2) ts
    opened :
        {shared : Shared} {o : Outbound} {ts : Tunnels} (params : DialParams) (req : Request)
        (wr : Writer) (env : net.E) (conn : net.Conn)
        → Reach shared o ts
        → (open_tunnel net params req wr o env).0 ≡ some conn
        → Reach
            (share (net.conn_addr conn) ts shared)
            ((open_tunnel net params req wr o env).2)
            ((conn, req.remote_addr) ∷ ts)
    deleted :
        {shared : Shared} {o : Outbound} {ts ts' : Tunnels} (conn : net.Conn)
        → Reach shared o ts
        → Removes conn ts ts'
        → Reach shared (delete_entry net conn o) ts'

  -- what the registration makes of the map
  open_tunnel-cases :
      (params : DialParams) (req : Request) (wr : Writer) (o : Outbound) (env : net.E)
      → let opened = open_tunnel net params req wr o env in
        ((opened.0 ≡ none) × (opened.2 ≡ o))
        ⊎ ((conn : net.Conn) × (opened.0 ≡ some conn)
            × (opened.2 ≡ register (net.conn_addr conn) req.remote_addr o))
  unfolding open_tunnel
  open_tunnel-cases params req wr o env =
      elim (Dialed-cases (net.dial_context params "tcp" req.request_uri env).0) [
        | inl (conn, e) ↦ inr (conn, ground (arith, e), ground (arith, e))
        | inr (inl e) ↦ inl (ground (arith, e), ground (arith, e))
        | inr (inr e) ↦ inl (ground (arith, e), ground (arith, e))
      ]

  owner-number : (a : String) (ts : Tunnels) → (owner a ts ≡ none) ⊎ (0 < number a ts)
  unfolding owner number
  owner-number a [] = inl refl
  owner-number a ((conn, r) ∷ ts) = ground (arith, owner-number a ts)

  number-owner : (a : String) (ts : Tunnels) → owner a ts ≡ none → number a ts ≡ 0
  unfolding owner number
  number-owner a [] h = refl
  number-owner a ((conn, r) ∷ ts) h = ground (arith, h, number-owner a ts)

  -- what is left of the tunnels from the address, and from another one
  Removes-number :
      {conn : net.Conn} {ts ts' : Tunnels} (a : String)
      → Removes conn ts ts'
      → str_eq (net.conn_addr conn) a ≡ true
      → number a ts ≡ suc (number a ts')
  unfolding number
  Removes-number a here h = ground (arith, h)
  Removes-number a (there {t = (k, r)} m) h = ground (arith, Removes-number a m h)

  Removes-other :
      {conn : net.Conn} {ts ts' : Tunnels} (a : String)
      → Removes conn ts ts'
      → str_eq (net.conn_addr conn) a ≡ false
      → (owner a ts' ≡ owner a ts) × (number a ts' ≡ number a ts)
  unfolding owner number
  Removes-other a here h = ground (arith, h)
  Removes-other a (there {t = (k, r)} m) h = ground (arith, Removes-other a m h)

  -- What holds of an address.
  abbrev Holds : Shared → Outbound → Tunnels → String → Type 0
  Holds shared o ts a =
      ((find a o ≡ none) ⊎ (find a o ≡ owner a ts))
      × (shared a ≡ false → (find a o ≡ owner a ts) × (number a ts ≤ 1))

  register-Holds :
      (shared : Shared) (o : Outbound) (ts : Tunnels) (conn : net.Conn) (r a : String)
      → Holds shared o ts a
      → Holds
          (share (net.conn_addr conn) ts shared)
          (register (net.conn_addr conn) r o)
          ((conn, r) ∷ ts)
          a
  unfolding owner number
  register-Holds shared o ts conn r a h =
      let addr = net.conn_addr conn in
      elim (Bool-cases (str_eq addr a)) [
        | inr d ↦ ground (arith, d, find-register addr r a o, h)
        | inl d ↦
            let same : addr ≡ a = str_eq-path addr a d in
            elim (Option-cases (owner addr ts)) [
              | inr (k, w) ↦ ground (arith, d, w, find-register addr r a o)
              | inl n ↦
                  let none_left : number a ts ≡ 0 =
                    number-owner a ts (ap (λ x. owner x ts) (sym same) ∙ n) in
                  ground (arith, d, n, find-register addr r a o, none_left)
            ]
      ]

  deleted-Holds :
      (shared : Shared) (o : Outbound) (ts ts' : Tunnels) (conn : net.Conn) (a : String)
      → Removes conn ts ts'
      → Holds shared o ts a
      → Holds shared (delete_entry net conn o) ts' a
  unfolding delete_entry
  deleted-Holds shared o ts ts' conn a m h =
      let addr = net.conn_addr conn in
      elim (Bool-cases (str_eq addr a)) [
        | inr d ↦ ground (arith, d, find-unregister addr a o, Removes-other a m d, h)
        | inl d ↦
            ground (arith, d, find-unregister addr a o, Removes-number a m d, owner-number a ts', h)
      ]

  reach-Holds :
      {shared : Shared} {o : Outbound} {ts : Tunnels}
      → Reach shared o ts
      → (a : String) → Holds shared o ts a
  unfolding find owner number
  reach-Holds start a = ground arith
  reach-Holds (not_opened {o = o} params req wr env r e) a =
      elim (open_tunnel-cases params req wr o env) [
        | inl (x, same) ↦ rw same (reach-Holds r a)
        | inr (conn, x, same) ↦ absurd (ground (arith, e, x))
      ]
  reach-Holds (opened {shared} {o} {ts} params req wr env conn r e) a =
      elim (open_tunnel-cases params req wr o env) [
        | inl (x, same) ↦ absurd (ground (arith, e, x))
        | inr (conn', x, same) ↦
            let same_conn : conn' ≡ conn = ground (arith, e, x) in
            rw (same, same_conn)
              (register-Holds shared o ts conn req.remote_addr a (reach-Holds r a))
      ]
  reach-Holds (deleted {shared} {o} {ts} {ts'} conn r m) a =
      deleted-Holds shared o ts ts' conn a m (reach-Holds r a)

  -- However tunnels are registered and ended, by requests that are served at the same time and from
  -- whatever local addresses the system gives, the map has for an address the client of the latest
  -- of the tunnels from there whose deferred calls have not deleted their entries yet, and no entry
  -- where there is no such tunnel. It may lack that entry only where the last tunnel from there was
  -- registered before an earlier one from there had deleted its entry.
  pub reach-owner :
      {shared : Shared} {o : Outbound} {ts : Tunnels}
      → Reach shared o ts
      → (a : String) → (find a o ≡ owner a ts) ⊎ ((find a o ≡ none) × (shared a ≡ true))
  reach-owner {shared} r a = elim (Bool-cases (shared a)) [
    | inl e ↦ ground (arith, e, reach-Holds r a)
    | inr e ↦ inl (((reach-Holds r a).1 e).0)
  ]
