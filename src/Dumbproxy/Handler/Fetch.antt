-- ===== src/Dumbproxy/Handler/Fetch.antt =====
-- handler/handler.go: `HandleRequest`, which fetches for the client, and `HandleGetRandom`.
use Prim.Native.Char.{Char, code}
use Prim.Native.String.{len}
use go_forward_proxy.Base.{
  ℕ, String, Bool, true, false, not, ◌||◌, Option, none, some, ◌==◌, ltb, leb, str_eq,
  if◌then◌else◌,
}
use go_forward_proxy.Base.Int.{ℤ, pos, negsuc}
use go_forward_proxy.Base.Decimal.{atoi, format_int}
use go_forward_proxy.Dumbproxy.Http.{
  Request, Writer, set_header, on_header, write_header, write_body, http_error,
}
use go_forward_proxy.Dumbproxy.Handler.Headers.{del_hop_headers, copy_header}
use go_forward_proxy.Dumbproxy.Handler.Ends.{
  Net, DialParams, Dialed, Response, dialed, access_denied, not_dialed, request_body, body_pipe,
  response_writer, response_body,
}

-- the port of a scheme, for a URL without one
abbrev default_port : String → String
default_port scheme =
    if str_eq scheme "http" then "80" else if str_eq scheme "https" then "443" else ""

-- Over HTTP/2 the scheme is taken to be http, and the host that of the request.
abbrev pub assume_http : Request → Request
assume_http req =
    if req.proto_major == 2 then record req { url_scheme = "http"; url_host = req.host } else req

-- The request that filters see shares its URL with the one that is sent.
abbrev pub shared_url : DialParams → DialParams
shared_url params = elim params.request [
  | none ↦ params
  | some r ↦ record params { request = some (assume_http r) }
]

module _ (net : Net) (to_lower : String → String) where
  unfoldable pub address_from_url : Request → String
  address_from_url req =
      let port = net.url_port req.url_host in
      net.join_host_port (net.hostname req.url_host)
        (if str_eq port "" then default_port (to_lower req.url_scheme) else port)

  -- What `HandleRequest` makes of the result of the transport.
  unfoldable pub answer_fetch :
      String → String → Writer → Dialed (Response net.Body) × net.E → Writer × net.E
  answer_fetch username address wr (access_denied, env) = (http_error "Access denied" 403 wr, env)
  answer_fetch username address wr (not_dialed, env) = (http_error "Server Error" 500 wr, env)
  answer_fetch username address wr (dialed resp, env) =
      let wr₁ =
        write_header resp.status_code
          (on_header (λ h. copy_header h (del_hop_headers resp.header)) wr) in
      let (wr₂, env') =
        net.forward username response_writer (response_body resp.body) "tcp" address wr₁ env in
      (wr₂, net.close_body resp.body env')

  unfoldable pub handle_request : DialParams → Request → Writer → net.E → Writer × net.E
  unfolding answer_fetch
  handle_request params req wr env =
      let sent = assume_http (record req { request_uri = "" }) in
      let address = address_from_url req in
      let env' = net.go_forward params.username request_body body_pipe "tcp" address env in
      answer_fetch params.username address wr (net.round_trip (shared_url params) sent env')

  abbrev starts_with_slash : String → Bool
  starts_with_slash String.[] = false
  starts_with_slash (String.◌∷◌ c s) = code c == b'/'

  abbrev magnitude_or_zero : ℤ → ℕ
  magnitude_or_zero (pos n) = n
  magnitude_or_zero (negsuc n) = 0

  abbrev is_negative : ℤ → Bool
  is_negative (pos n) = false
  is_negative (negsuc n) = true

  -- `ParseInt` of the path without its first byte, which fails in the middle of a character
  abbrev number_behind : Char → String → Option ℤ
  number_behind c text = if ltb (code c) 128 then atoi text else none

  -- What follows the second test: the header, the status and the bytes, whatever was sent before. A
  -- negative length gives no bytes.
  send_random : ℤ → Writer → net.E → Writer × net.E
  send_random length wr env =
      let (text, env') = net.random_bytes (magnitude_or_zero length) env in
      let wr' = write_header 200 (on_header (set_header "Content-Length" (format_int length)) wr) in
      (if str_eq text "" then wr' else write_body text wr', env')

  -- `HandleGetRandom`. Neither of the two errors ends it, and `none` is the panic at the path
  -- without its first character where the path is empty.
  unfoldable pub handle_get_random : Request → Writer → net.E → Option (Writer × net.E)
  unfolding send_random
  handle_get_random req wr env =
      let wrong = http_error "Incorrect requested random data length" 400 in
      let wr₁ =
        if leb (len req.url_path) 1 || not (starts_with_slash req.url_path) then wrong wr else wr in
      elim req.url_path [
        | String.[] ↦ none
        | String.◌∷◌ c text ↦ elim (number_behind c text) [
          | none ↦ some (send_random (net.parse_int_failed text) (wrong wr₁) env)
          | some length ↦
              some (send_random length (if is_negative length then wrong wr₁ else wr₁) env)
        ]
      ]
