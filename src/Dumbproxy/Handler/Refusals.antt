-- ===== src/Dumbproxy/Handler/Refusals.antt =====
-- Requests that are not served: they are answered, and the handler dials nothing for them.
use go_forward_proxy.Base.{String, ◌≡◌, Bool, true, false, not, ◌||◌, Option, none, some, arith}
use go_forward_proxy.Dumbproxy.Http.{Request, Writer}
use go_forward_proxy.Dumbproxy.Calls.{Calls}
use go_forward_proxy.Dumbproxy.Auth.Credentials.{Verdict, denied, admitted, panicked, bad_req_msg}
use go_forward_proxy.Dumbproxy.Auth.{validate}
use go_forward_proxy.Dumbproxy.Auth.Answers.{is_sent, http_error-sent, validate_answers}
use go_forward_proxy.Dumbproxy.Handler.Ends.{Net}
use go_forward_proxy.Dumbproxy.Handler.{
  Ending, returned, panics, ProxyHandler, State, is_loopback, is_malformed, serve_user,
  serve_verdict, serve_checked, serve_http,
}

abbrev pub admits : Verdict → Bool
admits denied = false
admits (admitted user) = true
admits panicked = false

abbrev pub is_some : Option String → Bool
is_some none = false
is_some (some x) = true

abbrev pub answers : Ending → Writer → Bool
answers returned wr = is_sent wr
answers panics wr = true

module _ (c : Calls) (net : Net) where
  -- The request comes from the address of a tunnel, is not admitted, or is not for a proxy.
  abbrev pub is_refused : ProxyHandler c → Request → Writer → State c.Env net.E → Bool
  is_refused handler req wr s =
      is_some (is_loopback req s.outbound)
      || not (admits (validate c handler.auth req wr s.calls_env).0)
      || is_malformed req

  -- A request that comes from an address that the map has for a tunnel, that no provider admits, or
  -- that names no server to go to, is not handed to the handler's dialer, transport and forwarding:
  -- what these act on is as it was, and so is the map of the tunnels. What a provider does to answer
  -- it, as a reverse proxy of the kind reject-http or by a call of Redis, is apart from that. Unless
  -- the handler panics, the client has its answer, where the reverse proxies of providers of the kind
  -- reject-http send a status.
  pub serve_http-refused :
      ((p : c.ReverseProxy) (req : Request) (wr : Writer) (env : c.Env)
        → is_sent (c.serve_http p req wr env).0 ≡ true)
      → (handler : ProxyHandler c) (local_addr : String) (req : Request) (wr : Writer)
        (s : State c.Env net.E)
      → is_refused handler req wr s ≡ true
      → let served = serve_http c net handler local_addr req wr s in
        (served.2.net_env ≡ s.net_env)
        × (served.2.outbound ≡ s.outbound)
        × (answers served.0 served.1 ≡ true)
  unfolding serve_http serve_checked serve_verdict serve_user
  serve_http-refused serves handler local_addr req wr s h =
      let sent = validate_answers c serves handler.auth req wr s.calls_env in
      let (verdict, wr₁, env₁) = validate c handler.auth req wr s.calls_env in
      ground (arith, sent, http_error-sent bad_req_msg 400 wr, http_error-sent bad_req_msg 400 wr₁)
