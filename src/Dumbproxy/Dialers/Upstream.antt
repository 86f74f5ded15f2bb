-- ===== src/Dumbproxy/Dialers/Upstream.antt =====
-- dialer/upstream.go: `HTTPProxyDialer`, through which an instance reaches its upstream.
pub mod Laws
pub mod Head
use Prim.Native.Char.{char}
use Prim.Native.String.{◌++◌}
use text.Mathlib.TextLemmas.{append_assoc}
use go_forward_proxy.Base.{
  ℕ, String, ◌≡◌, refl, sym, ap, ◌∙◌, Bool, true, false, not, ◌&&◌, ◌||◌, Option, none, some, List,
  [], ◌∷◌, ◌==◌, str_eq, arith, inl, inr, Bool-cases, Option-cases, if◌then◌else◌,
}
use mathlib.Core.List.{◌++◌ as ◌+++◌}
use go_forward_proxy.Base.Bytes.{Bytes}
use go_forward_proxy.Base.Decimal.{format_nat}
use go_forward_proxy.Base.Result.{Result, ok, err, wrap}

-- What a call of `Read` with room for one byte gives.
pub data Read : Type 0 where
  byte : ℕ → Read
  nothing : Read
  failed : String → Read

-- `url.Userinfo`: the name and the password
abbrev pub Userinfo : Type 0
Userinfo = String × String

-- The URL of an upstream, as far as the dialer reads it
pub record UpstreamUrl : Type 0 where
  pub scheme : String
  pub hostname : String
  pub port : String
  pub user : Option Userinfo

-- The calls: the next dialer, what TLS makes of a connection, writing a text, what the connection
-- then gives to read, http.ReadResponse by its status code, base64, and what the goroutine that
-- guards the dial has received when it is over: the end of the context, with its error, or the stop.
pub record UpstreamNet : Type 1 where
  pub E : Type 0
  pub Conn : Type 0
  pub TlsConfig : Type 0
  pub next_dial : String → E → Result Conn × E
  pub tls_factory : Conn → TlsConfig → Conn
  pub tls_config_from_url : UpstreamUrl → Result TlsConfig
  pub write : Conn → String → E → Option String × E
  pub reads : Conn → E → List Read
  pub read_response : Bytes → Result ℕ
  pub guard_error : E → Option String
  pub encode_base64 : String → String
  pub to_lower : String → String
  pub join_host_port : String → String → String

-- `bytes.HasSuffix(buf, "\r\n\r\n")`, by the bytes from the last one on
unfoldable pub has_terminator : Bytes → Bool
has_terminator (d ∷ c ∷ b ∷ a ∷ rest) = a == 13 && b == 10 && c == 13 && d == 10
has_terminator _ = false

-- onto the bytes, which are kept from the last one on
unfoldable pub reversed : Bytes → Bytes → Bytes
reversed [] acc = acc
reversed (b ∷ bs) acc = reversed bs (b ∷ acc)

-- The loop of `readResponse`, by the bytes so far from the last one on: the bytes, or an error, with
-- what is left to read. It waits for ever where the connection gives nothing more.
unfoldable pub read_head : Bytes → List Read → Option (Result Bytes × List Read)
read_head acc [] = if has_terminator acc then some (ok (reversed acc []), []) else none
read_head acc (r ∷ rs) =
    let more = λ (b : ℕ). read_head (b ∷ acc) rs in
    let again = read_head acc rs in
    if has_terminator acc then some (ok (reversed acc []), r ∷ rs) else elim r [
      | byte b ↦ more b
      | nothing ↦ again
      | failed e ↦ some (err ("unable to read HTTP response: " ++ e), rs)
    ]

unfoldable pub is_tcp : String → Bool
is_tcp network = str_eq network "tcp" || str_eq network "tcp4" || str_eq network "tcp6"

module _ (net : UpstreamNet) where
  pub record HttpProxyDialer : Type 0 where
    pub address : String
    pub tls_config : Option net.TlsConfig
    pub userinfo : Option Userinfo

  or_port : String → String → String
  or_port port default_port = if str_eq port "" then default_port else port

  abbrev dialer_of : UpstreamUrl → String → Option net.TlsConfig → HttpProxyDialer
  dialer_of u port tls_config = record {
    address = net.join_host_port u.hostname port;
    tls_config = tls_config;
    userinfo = u.user;
  }

  -- `HTTPProxyDialerFromURL`
  unfoldable pub http_proxy_dialer_from_url : UpstreamUrl → Result HttpProxyDialer
  unfolding or_port
  http_proxy_dialer_from_url u =
      let scheme = net.to_lower u.scheme in
      if str_eq scheme "http"
      then ok (dialer_of u (or_port u.port "80") none)
      else if str_eq scheme "https"
      then elim (net.tls_config_from_url u) [
        | err e ↦ err ("TLS configuration failed: " ++ e)
        | ok config ↦ ok (dialer_of u (or_port u.port "443") (some config))
      ]
      else err "unsupported proxy type"

  unfoldable pub basic_auth_header : Userinfo → String
  basic_auth_header (username, password) =
      "Basic " ++ net.encode_base64 (username ++ ":" ++ password)

  unfoldable pub connect_request : Option Userinfo → String → String
  connect_request userinfo address =
      let authorization : String = elim userinfo [
        | none ↦ ""
        | some u ↦ "Proxy-Authorization: " ++ basic_auth_header u ++ "\r\n"
      ] in
      "CONNECT " ++ address ++ " HTTP/1.1\r\nHost: " ++ address ++ "\r\n" ++ authorization
      ++ "User-Agent: dumbproxy\r\n\r\n"

  -- What the calls change, and the connections that were closed, the last one first.
  pub record Sockets : Type 0 where
    pub env : net.E
    pub closed : List net.Conn

  abbrev pub close_conn : net.Conn → Sockets → Sockets
  close_conn conn s = record s { closed = conn ∷ s.closed }

  -- A connection with what is left to read of it.
  abbrev pub Dial : Type 0
  Dial = Option (Result (net.Conn × List Read)) × Sockets

  -- The status code of the answer.
  abbrev pub response_status : Result Bytes → Result ℕ
  response_status (err e) = err e
  response_status (ok head) = wrap "unable to decode proxy response" (net.read_response head)

  -- The goroutine that guards the dial: it closes the connection where it receives the end of the
  -- context, be that while the request is written, while the answer is read, or at the return.
  abbrev pub guard_event : net.Conn → Sockets → Sockets
  guard_event conn s = elim (net.guard_error s.env) [ none ↦ s | some e ↦ close_conn conn s ]

  -- the return of an error, in front of which the dial closes the connection, whatever the guard did
  abbrev pub dial_failed : String → net.Conn → Sockets → Dial
  dial_failed e conn s = (some (err e), close_conn conn (guard_event conn s))

  -- what follows the answer
  unfoldable pub check_status : net.Conn → Result ℕ → List Read → Sockets → Dial
  check_status conn (err e) rest s = dial_failed ("reading proxy response failed: " ++ e) conn s
  check_status conn (ok code) rest s =
      if code == 200
      then elim (net.guard_error s.env) [
        | some e ↦ (some (err ("context error: " ++ e)), guard_event conn s)
        | none ↦ (some (ok (conn, rest)), s)
      ]
      else dial_failed ("bad status code from proxy: " ++ format_nat code) conn s

  -- what follows the request that was sent
  unfoldable pub await_answer : net.Conn → Option (Result Bytes × List Read) → Sockets → Dial
  unfolding check_status
  await_answer conn none s = (none, s)
  await_answer conn (some (head, rest)) s = check_status conn (response_status head) rest s

  -- what follows the writing of the request
  unfoldable pub await_after : net.Conn → Option String × net.E → Sockets → Dial
  unfolding await_answer
  await_after conn (some e, env) s =
      dial_failed ("unable to write proxy request for remote connection: " ++ e) conn
        (record s { env = env })
  await_after conn (none, env) s =
      await_answer conn (read_head [] (net.reads conn env)) (record s { env = env })

  -- what follows the connection to the proxy
  unfoldable pub ask_proxy : HttpProxyDialer → String → net.Conn → Sockets → Dial
  unfolding await_after
  ask_proxy d address conn s =
      await_after conn (net.write conn (connect_request d.userinfo address) s.env) s

  -- the connection, under TLS where it is configured
  abbrev pub secured : HttpProxyDialer → net.Conn → net.Conn
  secured d conn = elim d.tls_config [ none ↦ conn | some config ↦ net.tls_factory conn config ]

  -- `DialContext`; no result is the wait for an answer that does not come.
  unfoldable pub upstream_dial : HttpProxyDialer → String → String → Sockets → Dial
  unfolding ask_proxy
  upstream_dial d network address s =
      let (r, env) = net.next_dial d.address s.env in
      let s₁ : Sockets = record s { env = env } in
      if is_tcp network
      then elim r [
        | err e ↦ (some (err ("proxy dialer is unable to make connection: " ++ e)), s₁)
        | ok conn ↦ ask_proxy d address (secured d conn) s₁
      ]
      else (some (err "only \"tcp\" network is supported"), s)
