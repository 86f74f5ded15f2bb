-- ===== src/Tests/Tunnels.antt =====
-- The handler, forwarding, dialers and filters, and their theorems at concrete inputs.

use go_forward_proxy.Base.{
  ℕ, String, ◌≡◌, ◌⊎◌, refl, true, false, none, some, List, [], ◌∷◌, str_eq, if◌then◌else◌,
}
use go_forward_proxy.Base.Text.{lacks}
use go_forward_proxy.Base.Bytes.{Bytes}
use go_forward_proxy.Base.Dict.{find}
use go_forward_proxy.Base.Result.{ok}
use go_forward_proxy.Dumbproxy.Http.{get_header, values}
use go_forward_proxy.Dumbproxy.Auth.{no_auth}
use go_forward_proxy.Dumbproxy.Auth.Credentials.{basic_credentials}
use go_forward_proxy.Dumbproxy.Handler.Ends.{DialParams, access_denied, not_dialed}
use go_forward_proxy.Dumbproxy.Handler.Tunnel.{open_tunnel, delete_entry, unregister}
use go_forward_proxy.Dumbproxy.Handler.{ProxyHandler, State, serve_http}
use go_forward_proxy.Dumbproxy.Handler.Refusals.{answers, serve_http-refused}
use go_forward_proxy.Dumbproxy.Handler.HopHeaders.{guarded, serve_http-guarded}
use go_forward_proxy.Dumbproxy.Handler.OpenTunnels.{
  Reach, start, opened, deleted, here, there, share, owner, reach-owner,
}
use go_forward_proxy.Dumbproxy.Handler.Socks.{SocksRequest, socks_handler, socks_handler-stale}
use go_forward_proxy.Dumbproxy.Dialers.Upstream.{
  HttpProxyDialer, Sockets, Read, read_head, byte, nothing, basic_auth_header,
}
use go_forward_proxy.Dumbproxy.Dialers.Upstream.Laws.{basic_credentials-basic_auth_header}
use go_forward_proxy.Dumbproxy.Dialers.Upstream.Head.{
  has_empty_line, one, pause, all, read_head-first,
}
use go_forward_proxy.Dumbproxy.Access.{
  Netip, always_allow, dst_addr_filter, filter_dial, is_forbidden, filter_dial-dst_addr_filter,
}
use go_forward_proxy.Tests.SampleCalls.{calls, serves, lower}
use go_forward_proxy.Tests.SampleNet.{net, socks_net, upstream_net}
use go_forward_proxy.Tests.Dumbproxy.{client_request, fresh_writer}

abbrev handler : ProxyHandler calls
handler = record { auth = no_auth; user_ip_hints = false }

-- a tunnel is open from the address that the request comes from
abbrev looping : State ℕ ℕ
looping = record { outbound = ("10.0.0.9:5000", "10.0.0.2:6000") ∷ []; calls_env = 0; net_env = 0 }

serve_http-refused_example :
    let served = serve_http calls net handler "127.0.0.1:1" client_request fresh_writer looping in
    (served.2.net_env ≡ 0)
    × (served.2.outbound ≡ ("10.0.0.9:5000", "10.0.0.2:6000") ∷ [])
    × (answers served.0 served.1 ≡ true)
unfolding find
serve_http-refused_example =
    serve_http-refused calls net serves handler "127.0.0.1:1" client_request fresh_writer looping
      refl

abbrev idle : State ℕ ℕ
idle = record { outbound = []; calls_env = 0; net_env = 0 }

serve_http-guarded_example :
    serve_http calls
      (guarded net (λ params req n. (not_dialed, n)))
      handler
      "127.0.0.1:1"
      client_request
      fresh_writer
      idle
    ≡ serve_http calls net handler "127.0.0.1:1" client_request fresh_writer idle
serve_http-guarded_example =
    serve_http-guarded calls net (λ params req n. (not_dialed, n)) handler "127.0.0.1:1"
      client_request fresh_writer idle

abbrev params : DialParams
params = record { hints = none; local_addr = ""; request = none; username = "alice" }

abbrev tunnel : net.Conn × String
tunnel = ("http://example.org/", "10.0.0.9:5000")

abbrev entry : String × String
entry = ("192.0.2.1:4000", "10.0.0.9:5000")

one_tunnel : Reach net (share net "192.0.2.1:4000" [] (λ a. false)) (entry ∷ []) (tunnel ∷ [])
unfolding open_tunnel unregister
one_tunnel = opened params client_request fresh_writer 0 "http://example.org/" start refl

reach-owner_example :
    (find "192.0.2.1:4000" (entry ∷ []) ≡ owner net "192.0.2.1:4000" (tunnel ∷ []))
    ⊎ ((find "192.0.2.1:4000" (entry ∷ []) ≡ none)
        × (share net "192.0.2.1:4000" [] (λ a. false) "192.0.2.1:4000" ≡ true))
reach-owner_example = reach-owner net one_tunnel "192.0.2.1:4000"

-- A tunnel gets the address of one whose connection is closed and whose entry is not deleted yet.
-- When it is deleted, the later one has no entry.
lost_entry :
    Reach net
      (share net "192.0.2.1:4000" (tunnel ∷ []) (share net "192.0.2.1:4000" [] (λ a. false)))
      []
      (tunnel ∷ [])
unfolding open_tunnel delete_entry unregister
lost_entry =
    deleted "http://example.org/"
      (opened params client_request fresh_writer 0 "http://example.org/" one_tunnel refl)
      (there here)

abbrev socks_request : SocksRequest
socks_request = record {
  remote_addr = "10.0.0.9:5000";
  local_addr = "127.0.0.1:1080";
  dest_addr = "10.0.0.1:22";
  raw_dest_addr = "10.0.0.1:22";
  username = none;
}

socks_handler-stale_example :
    let after = (socks_handler socks_net (λ s. s) socks_request [] 0).1 in
    (find "192.0.2.1:4000" after ≡ some "10.0.0.9:5000") × (find "127.0.0.1:1080" after ≡ none)
unfolding find
socks_handler-stale_example =
    socks_handler-stale socks_net (λ s. s) socks_request [] 0 1 "10.0.0.1:22" refl refl refl

abbrev upstream_dialer : HttpProxyDialer upstream_net
upstream_dialer = record { address = "10.0.0.1:3128"; tls_config = none; userinfo = none }

abbrev sockets : Sockets upstream_net
sockets = record { env = 0; closed = [] }

-- a status line, of which the second byte comes after a pause, and a byte behind the head
abbrev status : Bytes
status = 72 ∷ 84 ∷ []

abbrev answer_reads : List Read
answer_reads =
    byte 72 ∷ nothing ∷ byte 84 ∷ byte 13 ∷ byte 10 ∷ nothing ∷ byte 13 ∷ byte 10 ∷ byte 1 ∷ []

read_head-first_example :
    read_head [] answer_reads ≡ some (ok (72 ∷ 84 ∷ 13 ∷ 10 ∷ 13 ∷ 10 ∷ []), byte 1 ∷ [])
unfolding has_empty_line
read_head-first_example =
    read_head-first status answer_reads (byte 1 ∷ []) refl
      (one (pause (one (one (one (pause (one (one all))))))))

basic_credentials-basic_auth_header_example :
    basic_credentials calls client_request ≡ some ("alice", "s3cret")
unfolding lower lacks get_header values basic_auth_header
basic_credentials-basic_auth_header_example =
    basic_credentials-basic_auth_header {c = calls} {net = upstream_net}
      (record { decode-encode = λ s. refl; lower_basic = refl }) "alice" "s3cret" client_request
      refl refl

-- addresses are texts, and a prefix is the one address in it
abbrev ip : Netip
ip = record {
  Addr = String;
  Prefix = String;
  parse_addr_port = λ s. some s;
  contains = λ p a. str_eq p a;
  addr_text = λ a. a;
  prefix_text = λ p. p;
}

filter_dial-dst_addr_filter_example :
    filter_dial
      (dst_addr_filter ip ("10.0.0.1:22" ∷ []) always_allow)
      net.dial_context
      params
      "tcp"
      "10.0.0.1:22"
      0
    ≡ (if is_forbidden ip ("10.0.0.1:22" ∷ []) "10.0.0.1:22"
        then (access_denied, 0)
        else filter_dial always_allow net.dial_context params "tcp" "10.0.0.1:22" 0)
filter_dial-dst_addr_filter_example =
    filter_dial-dst_addr_filter ip ("10.0.0.1:22" ∷ []) net.dial_context always_allow params "tcp"
      "10.0.0.1:22" 0
