-- ===== src/Dumbproxy/Handler/Streams.antt =====
-- handler/streamhandler.go, streamserver.go and stdio.go: tunnels to one address, from the
-- connections of a listener or from a pair of pipes.
use Prim.Native.String.{◌++◌}
use go_forward_proxy.Base.{String, Option, none, some, List, [], ◌∷◌}
use go_forward_proxy.Base.Result.{Result, ok, err}
use go_forward_proxy.Dumbproxy.Handler.Ends.{DialParams}

-- The calls: a client's local address, the dialer by what the context carries, if it carries
-- anything, and forwarding.
pub record StreamNet : Type 1 where
  pub E : Type 0
  pub Client : Type 0
  pub Conn : Type 0
  pub Pipes : Type 0
  pub local_addr : Client → String
  pub trim_addr_port : String → String
  pub dial_context : Option DialParams → String → String → E → Result Conn × E
  pub forward : String → Client → Conn → String → E → Option String × E
  pub forward_pipes : Pipes → Conn → String → E → Option String × E
  pub quoted : String → String

module _ (net : StreamNet) where
  -- what is closed: a client or a connection that was dialled
  pub data Closed : Type 0 where
    client : net.Client → Closed
    conn : net.Conn → Closed

  -- What the calls change, and what was closed, the last one first.
  pub record Streams : Type 0 where
    pub env : net.E
    pub closed : List Closed

  -- the part behind the dialer
  port_forwarded :
      String → net.Client → Result net.Conn × net.E → List Closed → Option String × Streams
  port_forwarded address c (err e, env) closed = (
    some ("connect to " ++ address ++ " failed: " ++ e),
    record { env = env; closed = client c ∷ closed },
  )
  port_forwarded address c (ok target, env) closed =
      let (e, env') = net.forward "" c target address env in
      (e, record { env = env'; closed = client c ∷ conn target ∷ closed })

  -- the function of `PortForwardHandler`: its error, which is only logged
  unfoldable pub port_forward : String → net.Client → Streams → Option String × Streams
  unfolding port_forwarded
  port_forward address c s =
      let params : DialParams = record {
        hints = none;
        local_addr = net.trim_addr_port (net.local_addr c);
        request = none;
        username = "";
      } in
      port_forwarded address c (net.dial_context (some params) "tcp" address s.env) s.closed

  -- the function of `StdIOHandler`
  unfoldable pub stdio_forward : String → net.Pipes → Streams → Option String × Streams
  stdio_forward address pipes s =
      let (r, env) = net.dial_context none "tcp" address s.env in
      elim r [
        | err e ↦
            (some ("connect to " ++ net.quoted address ++ " failed: " ++ e), record s { env = env })
        | ok target ↦
            let (e, env') = net.forward_pipes pipes target address env in
            (e, record { env = env'; closed = conn target ∷ s.closed })
      ]

  -- `StreamServe` as what its listener gives: the connections that are handled, and its error. The
  -- handlers run at the same time.
  unfoldable pub stream_serve : List (Result net.Client) → List net.Client × Option String
  stream_serve [] = ([], none)
  stream_serve (err e ∷ rs) = ([], some e)
  stream_serve (ok c ∷ rs) = let (cs, e) = stream_serve rs in (c ∷ cs, e)
