-- ===== src/Dumbproxy/Handler/Ends.antt =====
-- What the handler works with: connections, the dialer and the function that forwards between two
-- ends, which its configuration gives it, and the transport of net/http. They are parameters.
use go_forward_proxy.Base.{ℕ, String, Bool, Option, ◌≡◌, refl, ◌⊎◌, inl, inr}
use go_forward_proxy.Base.Int.{ℤ}
use go_forward_proxy.Base.Result.{Result}
use go_forward_proxy.Dumbproxy.Http.{Header, Request, Writer}

-- The errors of a dialer: `derrors.ErrAccessDenied`, which may be wrapped, or any other.
pub data Dialed (A : Type 0) : Type 0 where
  dialed : A → Dialed A
  access_denied : Dialed A
  not_dialed : Dialed A

pub Dialed-cases :
    {A : Type 0} (d : Dialed A)
    → ((a : A) × (d ≡ dialed a)) ⊎ (d ≡ access_denied) ⊎ (d ≡ not_dialed)
Dialed-cases (dialed a) = inl (a, refl)
Dialed-cases access_denied = inr (inl refl)
Dialed-cases not_dialed = inr (inr refl)

-- What the context of a request carries for the dialer: the values of `BoundDialerParamsToContext`
-- and of `FilterParamsToContext`, whose request may be nil.
pub record DialParams : Type 0 where
  pub hints : Option String
  pub local_addr : String
  pub request : Option Request
  pub username : String

-- `http.Response`
pub record Response (Body : Type 0) : Type 0 where
  pub status_code : ℕ
  pub header : Header
  pub body : Body

-- The ends between which a handler forwards, with the wrappers of handler/adapter.go and proxy.go.
pub data End (Conn LocalConn Body : Type 0) : Type 0 where
  -- a connection that was dialled, as it is or behind `wrapH1RespWriter`
  upstream : Conn → End Conn LocalConn Body
  upstream_writer : Conn → End Conn LocalConn Body
  -- a client's connection that was taken over, as it is or behind `wrapPendingWrite`
  client : LocalConn → End Conn LocalConn Body
  pending_client : String → LocalConn → End Conn LocalConn Body
  -- `wrapH1ReqBody` of so many bytes that were read from the client already
  rescued : ℕ → End Conn LocalConn Body
  -- `wrapH2(req.Body, wr)`
  h2_client : End Conn LocalConn Body
  -- `wrapH1ReqBody(req.Body)`, and the pipe whose other side the transport reads
  request_body : End Conn LocalConn Body
  body_pipe : End Conn LocalConn Body
  -- `wrapH1RespWriter(wr)` and `wrapH1ReqBody(resp.Body)`
  response_writer : End Conn LocalConn Body
  response_body : Body → End Conn LocalConn Body

pub record Net : Type 1 where
  pub E : Type 0
  pub Conn : Type 0
  pub LocalConn : Type 0
  pub Body : Type 0
  -- `s.dialer.DialContext`, `conn.LocalAddr().String()`, and `Close` of a connection
  pub dial_context : DialParams → String → String → E → Dialed Conn × E
  pub conn_addr : Conn → String
  pub close_conn : Conn → E → E
  -- `s.forward`, which may write to the response; and `go s.forward` to the end of a pipe
  pub forward :
      String
      → End Conn LocalConn Body
      → End Conn LocalConn Body
      → String
      → String
      → Writer
      → E
      → Writer × E
  pub go_forward :
      String → End Conn LocalConn Body → End Conn LocalConn Body → String → String → E → E
  -- `http.Hijacker`: whether the response has it, and its connection with the bytes buffered
  pub is_hijacker : Bool
  pub hijack_conn : E → Result (LocalConn × ℕ) × E
  pub reset_deadline : LocalConn → E → Result (Unit {0}) × E
  pub write_local : LocalConn → String → E → E
  pub close_local : LocalConn → E → E
  -- `s.httptransport.RoundTrip`, which dials by the context of the request, and `Body.Close`
  pub round_trip : DialParams → Request → E → Dialed (Response Body) × E
  pub close_body : Body → E → E
  -- `u.Hostname()` and `u.Port()` by the host of a URL, `net.JoinHostPort`
  pub hostname : String → String
  pub url_port : String → String
  pub join_host_port : String → String → String
  -- the number that `ParseInt` returns beside an error, and so many random bytes
  pub parse_int_failed : String → ℤ
  pub random_bytes : ℕ → E → String × E
