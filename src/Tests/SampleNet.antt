-- ===== src/Tests/SampleNet.antt =====
-- Concrete networks: every address is reached, the state counts the calls that matter.
use go_forward_proxy.Base.{ℕ, suc, String, true, none, [], ◌∷◌, str_eq, if◌then◌else◌}
use go_forward_proxy.Base.Int.{pos}
use go_forward_proxy.Base.Result.{ok}
use go_forward_proxy.Dumbproxy.Handler.Ends.{Net, dialed, access_denied}
use go_forward_proxy.Dumbproxy.Handler.Socks.{SocksNet}
use go_forward_proxy.Dumbproxy.Dialers.Upstream.{UpstreamNet, byte}

-- connections are the addresses that they were dialled to, from one local address
abbrev pub net : Net
net = record {
  E = ℕ;
  Conn = String;
  LocalConn = Unit {0};
  Body = String;
  dial_context = λ params network address n.
      if str_eq address "10.0.0.1:22" then (access_denied, suc n) else (dialed address, suc n);
  conn_addr = λ conn. "192.0.2.1:4000";
  close_conn = λ conn n. suc n;
  forward = λ username a b network address wr n. (wr, suc n);
  go_forward = λ username a b network address n. suc n;
  is_hijacker = true;
  hijack_conn = λ n. (ok (tt, 0), n);
  reset_deadline = λ conn n. (ok tt, n);
  write_local = λ conn text n. suc n;
  close_local = λ conn n. n;
  round_trip =
      λ params req n. (dialed (record { status_code = 204; header = []; body = "" }), suc n);
  close_body = λ body n. n;
  hostname = λ host. host;
  url_port = λ host. "";
  join_host_port = λ host port. host;
  parse_int_failed = λ text. pos 0;
  random_bytes = λ k n. ("x", n);
}

abbrev pub socks_net : SocksNet
socks_net = record {
  E = ℕ;
  Conn = String;
  dial_context = λ username local_addr address n. (ok address, suc n);
  conn_addr = λ conn. "192.0.2.1:4000";
  close_conn = λ conn n. suc n;
  send_reply = λ reply addr n. (ok tt, n);
  forward = λ username conn address n. (ok tt, suc n);
}

-- an upstream that answers with a head of five bytes, and then with a byte for the client
abbrev pub upstream_net : UpstreamNet
upstream_net = record {
  E = ℕ;
  Conn = String;
  TlsConfig = Unit {0};
  next_dial = λ address n. (ok address, suc n);
  tls_factory = λ conn config. conn;
  tls_config_from_url = λ u. ok tt;
  write = λ conn text n. (none, suc n);
  reads = λ conn n. byte 72 ∷ byte 13 ∷ byte 10 ∷ byte 13 ∷ byte 10 ∷ byte 1 ∷ [];
  read_response = λ head. ok 407;
  guard_error = λ n. none;
  encode_base64 = λ s. s;
  to_lower = λ s. s;
  join_host_port = λ host port. host;
}
