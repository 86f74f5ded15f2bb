-- ===== src/Dumbproxy/Handler/HopHeaders.antt =====
-- What the handler hands to the transport: no header that was meant for the proxy itself.
use go_forward_proxy.Base.{
  String, ◌≡◌, refl, ap, ◌∙◌, Bool, true, false, ◌==◌, ◌||◌, Option, none, some, List, [], ◌∷◌,
  arith, inl, inr, Bool-cases, if◌then◌else◌,
}
use go_forward_proxy.Dumbproxy.Http.{Header, Request, Writer, values}
use go_forward_proxy.Dumbproxy.Calls.{Calls}
use go_forward_proxy.Dumbproxy.Handler.Headers.{
  hop_headers, del_hop_headers, values-del_hop_headers, listed,
}
use go_forward_proxy.Dumbproxy.Handler.Ends.{
  Net, DialParams, Dialed, Response, request_body, body_pipe,
}
use go_forward_proxy.Dumbproxy.Handler.Fetch.{
  assume_http, shared_url, address_from_url, answer_fetch, handle_request, handle_get_random,
}
use go_forward_proxy.Dumbproxy.Handler.Tunnel.{
  open_tunnel, hijack, relay_tunnel, end_tunnel, handle_tunnel,
}
use go_forward_proxy.Dumbproxy.Handler.{
  ProxyHandler, State, is_loopback, is_malformed, trim_addr_port, take_hints, dispatch, serve_user,
  serve_verdict, serve_checked, serve_http,
}
use go_forward_proxy.Dumbproxy.Auth.Credentials.{Verdict, denied, admitted, panicked}
use go_forward_proxy.Dumbproxy.Auth.{validate}

abbrev is_cons : List String → Bool
is_cons [] = false
is_cons (v ∷ vs) = true

-- The header has a value for one of the names.
unfoldable pub carries : List String → Header → Bool
carries [] h = false
carries (k ∷ ks) h = is_cons (values k h) || carries ks h

AllListed : List String → Type 0
AllListed [] = Unit
AllListed (k ∷ ks) = (listed k hop_headers ≡ true) × AllListed ks

carries-del_hop_headers :
    (ks : List String) (h : Header) → AllListed ks → carries ks (del_hop_headers h) ≡ false
unfolding carries AllListed
carries-del_hop_headers [] h a = refl
carries-del_hop_headers (k ∷ ks) h a =
    ground (arith, values-del_hop_headers k h, carries-del_hop_headers ks h (a.1), a.0)

hop_headers-listed : AllListed hop_headers
unfolding AllListed listed
hop_headers-listed = (refl, (refl, (refl, (refl, (refl, (refl, (refl, (refl, (refl, tt)))))))))

carries-none : (h : Header) → carries hop_headers (del_hop_headers h) ≡ false
carries-none h = carries-del_hop_headers hop_headers h hop_headers-listed

header-assume_http : (req : Request) → (assume_http req).header ≡ req.header
header-assume_http req = elim (Bool-cases (req.proto_major == 2)) [
  | inl e ↦ rw e refl
  | inr e ↦ rw e refl
]

-- The network, but for the transport at requests that carry a header for one hop, where it does
-- anything else.
abbrev pub guarded :
    (net : Net) → (DialParams → Request → net.E → Dialed (Response net.Body) × net.E) → Net
guarded net other = record net {
  round_trip = λ params req env.
      if carries hop_headers req.header
      then other params req env
      else net.round_trip params req env;
}

module _ (c : Calls) (net : Net)
    (other : DialParams → Request → net.E → Dialed (Response net.Body) × net.E) where
  round_trip-guarded :
      (params : DialParams) (req : Request) (env : net.E)
      → carries hop_headers req.header ≡ false
      → (guarded net other).round_trip params req env ≡ net.round_trip params req env
  round_trip-guarded params req env h = rw h refl

  handle_request-guarded :
      (params : DialParams) (req : Request) (wr : Writer) (env : net.E)
      → carries hop_headers req.header ≡ false
      → handle_request (guarded net other) c.to_lower params req wr env
        ≡ handle_request net c.to_lower params req wr env
  unfolding handle_request address_from_url answer_fetch
  handle_request-guarded params req wr env h =
      let sent = record req { request_uri = "" } in
      ap (answer_fetch net c.to_lower params.username (address_from_url net c.to_lower req) wr) (
        round_trip-guarded (shared_url params) (assume_http sent)
          (net.go_forward params.username request_body body_pipe "tcp"
            (address_from_url net c.to_lower req) env)
          (ap (carries hop_headers) (header-assume_http sent) ∙ h))

  dispatch-guarded :
      (params : DialParams) (req : Request) (wr : Writer) (s : State c.Env net.E)
      → carries hop_headers req.header ≡ false
      → dispatch c (guarded net other) params req wr s ≡ dispatch c net params req wr s
  unfolding dispatch handle_tunnel open_tunnel relay_tunnel hijack end_tunnel handle_get_random
  dispatch-guarded params req wr s h = rw (handle_request-guarded params req wr s.net_env h) refl

  serve_user-guarded :
      (handler : ProxyHandler c) (local_addr : String) (req : Request) (username : String)
      (wr : Writer) (s : State c.Env net.E)
      → serve_user c (guarded net other) handler local_addr req username wr s
        ≡ serve_user c net handler local_addr req username wr s
  unfolding serve_user trim_addr_port take_hints
  serve_user-guarded handler local_addr req username wr s = elim (Bool-cases (is_malformed req)) [
    | inl e ↦ rw e refl
    | inr e ↦ rw e (dispatch-guarded _ _ wr s (carries-none _))
  ]

  serve_verdict-guarded :
      (handler : ProxyHandler c) (local_addr : String) (req : Request)
      (validated : Verdict × Writer × c.Env) (s : State c.Env net.E)
      → serve_verdict c (guarded net other) handler local_addr req validated s
        ≡ serve_verdict c net handler local_addr req validated s
  unfolding serve_verdict
  serve_verdict-guarded handler local_addr req (denied, wr, env) s = refl
  serve_verdict-guarded handler local_addr req (panicked, wr, env) s = refl
  serve_verdict-guarded handler local_addr req (admitted username, wr, env) s =
      serve_user-guarded handler local_addr req username wr (record s { calls_env = env })

  serve_checked-guarded :
      (handler : ProxyHandler c) (local_addr : String) (req : Request) (wr : Writer)
      (s : State c.Env net.E) (found : Option String)
      → serve_checked c (guarded net other) handler local_addr req wr s found
        ≡ serve_checked c net handler local_addr req wr s found
  unfolding serve_checked
  serve_checked-guarded handler local_addr req wr s (some originator) = refl
  serve_checked-guarded handler local_addr req wr s none =
      serve_verdict-guarded handler local_addr req (validate c handler.auth req wr s.calls_env) s

  -- No request reaches the transport with one of the nine headers that are for one hop only, so
  -- that the credentials for the proxy are not sent on: whatever the transport did with such
  -- requests, `ServeHTTP` would do the same, for every handler, request and state.
  pub serve_http-guarded :
      (handler : ProxyHandler c) (local_addr : String) (req : Request) (wr : Writer)
      (s : State c.Env net.E)
      → serve_http c (guarded net other) handler local_addr req wr s
        ≡ serve_http c net handler local_addr req wr s
  unfolding serve_http
  serve_http-guarded handler local_addr req wr s =
      serve_checked-guarded handler local_addr req wr s (is_loopback req s.outbound)
