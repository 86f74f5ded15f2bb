-- ===== src/Dumbproxy/Handler.antt =====
-- pkg/dumbproxy/handler: `ServeHTTP`, which every request to an instance's port goes to.
pub mod Headers
pub mod Ends
pub mod Tunnel
pub mod Fetch
pub mod Refusals
pub mod HopHeaders
pub mod Entries
pub mod OpenTunnels
pub mod Socks
pub mod Pending
pub mod Adapters
pub mod Streams
use go_forward_proxy.Base.{
  ℕ, String, Bool, true, false, not, ◌&&◌, ◌||◌, Option, none, some, List, [], ◌∷◌, ◌==◌, ltb,
  str_eq, if◌then◌else◌,
}
use go_forward_proxy.Base.Dict.{find}
use go_forward_proxy.Dumbproxy.Http.{Request, Writer, values, del_header, http_error}
use go_forward_proxy.Dumbproxy.Calls.{Calls}
use go_forward_proxy.Dumbproxy.Auth.Credentials.{bad_req_msg, Verdict, denied, admitted, panicked}
use go_forward_proxy.Dumbproxy.Auth.{Auth, no_auth, validate}
use go_forward_proxy.Dumbproxy.Handler.Headers.{del_hop_headers}
use go_forward_proxy.Dumbproxy.Handler.Ends.{Net, DialParams}
use go_forward_proxy.Dumbproxy.Handler.Tunnel.{Outbound, handle_tunnel}
use go_forward_proxy.Dumbproxy.Handler.Fetch.{handle_request, handle_get_random}

-- in the form of a name in a header
abbrev pub hints_header_name : String
hints_header_name = "X-Src-Ip-Hints"

-- How a handler ends: it returns, or it panics and the server drops the connection.
pub data Ending : Type 0 where
  returned : Ending
  panics : Ending

-- `ProxyHandler`: the dialer, the function that forwards and the transport are in the parameter
-- `net`; the map `outbound` changes and is passed along; the logger is left out.
pub record ProxyHandler (c : Calls) : Type 0 where
  pub auth : Auth c
  pub user_ip_hints : Bool

-- `Config`, by the fields that the handler reads itself
pub record HandlerConfig (c : Calls) : Type 0 where
  pub auth : Option (Auth c)
  pub user_ip_hints : Bool

-- `NewProxyHandler`, with its empty map
unfoldable pub new_proxy_handler : (c : Calls) → HandlerConfig c → ProxyHandler c × Outbound
new_proxy_handler c config =
    let auth : Auth c = elim config.auth [ none ↦ no_auth | some a ↦ a ] in
    (record { auth = auth; user_ip_hints = config.user_ip_hints }, [])

-- `isLoopback`
abbrev pub is_loopback : Request → Outbound → Option String
is_loopback req outbound = find req.remote_addr outbound

-- The guard against requests that are not for a proxy.
abbrev pub is_malformed : Request → Bool
is_malformed req =
    (str_eq req.url_host "" || str_eq req.url_scheme "" && not (str_eq req.method "CONNECT"))
      && ltb req.proto_major 2
    || str_eq req.host "" && req.proto_major == 2

-- the first value of the header for hints
abbrev first_hint : Request → Option String
first_hint req = elim (values hints_header_name req.header) [ [] ↦ none | v ∷ vs ↦ some v ]

-- What the handler's parts read and write: its map, what the calls of the providers act on, and what
-- the handler's dialer, transport and forwarding act on. What a reverse proxy of the kind reject-http
-- or a Redis client does on the network is in `calls_env`, apart from `net_env`.
pub record State (C E : Type 0) : Type 0 where
  pub outbound : Outbound
  pub calls_env : C
  pub net_env : E

module _ (c : Calls) (net : Net) where
  abbrev pub Served : Type 0
  Served = Ending × Writer × State c.Env net.E

  unfoldable pub trim_addr_port : String → String
  trim_addr_port addr_port = elim (c.split_host addr_port) [ none ↦ addr_port | some host ↦ host ]

  -- the hint of the request, and the request without the header, where hints are allowed
  unfoldable pub take_hints : Bool → Request → Option String × Request
  take_hints user_ip_hints req = elim (if user_ip_hints then first_hint req else none) [
    | none ↦ (none, req)
    | some hint ↦ (some hint, record req { header = del_header hints_header_name req.header })
  ]

  -- the three methods
  unfoldable pub dispatch : DialParams → Request → Writer → State c.Env net.E → Served
  dispatch params req wr s =
      let (wr₁, outbound, e₁) = handle_tunnel net params req wr s.outbound s.net_env in
      let random : Served = elim (handle_get_random net c.to_lower req wr s.net_env) [
        | none ↦ (panics, wr, s)
        | some (wr₂, e₂) ↦ (returned, wr₂, record s { net_env = e₂ })
      ] in
      let (wr₃, e₃) = handle_request net c.to_lower params req wr s.net_env in
      if str_eq req.method "CONNECT"
      then (returned, wr₁, record s { outbound = outbound; net_env = e₁ })
      else if str_eq req.method "GETRANDOM"
      then random
      else (returned, wr₃, record s { net_env = e₃ })

  -- What follows for a request that was let in. The header is shared with the request that filters see.
  unfoldable pub serve_user :
      ProxyHandler c → String → Request → String → Writer → State c.Env net.E → Served
  serve_user handler local_addr req username wr s =
      let (hints, req₁) = take_hints handler.user_ip_hints req in
      let req₂ : Request = record req₁ { header = del_hop_headers req₁.header } in
      let params : DialParams = record {
        hints = hints;
        local_addr = trim_addr_port local_addr;
        request = some req₂;
        username = username;
      } in
      if is_malformed req
      then (returned, http_error bad_req_msg 400 wr, s)
      else dispatch params req₂ wr s

  -- What follows the authentication, by its result.
  unfoldable pub serve_verdict :
      ProxyHandler c → String → Request → Verdict × Writer × c.Env → State c.Env net.E → Served
  serve_verdict handler local_addr req (denied, wr, env) s =
      (returned, wr, record s { calls_env = env })
  serve_verdict handler local_addr req (panicked, wr, env) s =
      (panics, wr, record s { calls_env = env })
  serve_verdict handler local_addr req (admitted username, wr, env) s =
      serve_user handler local_addr req username wr (record s { calls_env = env })

  -- What follows the look-up in the map, by its result.
  unfoldable pub serve_checked :
      ProxyHandler c → String → Request → Writer → State c.Env net.E → Option String → Served
  serve_checked handler local_addr req wr s (some originator) =
      (returned, http_error bad_req_msg 400 wr, s)
  serve_checked handler local_addr req wr s none =
      serve_verdict handler local_addr req (validate c handler.auth req wr s.calls_env) s

  -- `ServeHTTP`, by the local address that the request's context holds
  unfoldable pub serve_http :
      ProxyHandler c → String → Request → Writer → State c.Env net.E → Served
  unfolding serve_checked
  serve_http handler local_addr req wr s =
      serve_checked handler local_addr req wr s (is_loopback req s.outbound)
