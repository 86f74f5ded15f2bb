-- ===== src/Tests/Dumbproxy.antt =====
-- The providers of authentication and their theorems at concrete inputs.

use go_forward_proxy.Base.{String, ◌≡◌, refl, none, [], ◌∷◌, arith}
use go_forward_proxy.Base.Int.{ℤ, pos, ◌+ℤ◌, ◌*ℤ◌, leb_ℤ}
use go_forward_proxy.Base.Bytes.{take}
use go_forward_proxy.Base.Result.{fail}
use go_forward_proxy.Config.{Config}
use go_forward_proxy.Dumbproxy.Http.{Request, Writer}
use go_forward_proxy.Dumbproxy.Auth.{new_auth_within, new_auth_levels}
use go_forward_proxy.Dumbproxy.Auth.Fuel.{new_auth_within-levels}
use go_forward_proxy.Dumbproxy.Auth.Sizes.{size}
use go_forward_proxy.Dumbproxy.Auth.Hmac.{
  hmac_sign, verify_hmac_login_and_password, unix, calculate_hmac_signature, encode_token,
}
use go_forward_proxy.Dumbproxy.Auth.Hmac.Token.{verify-hmac_sign}
use go_forward_proxy.Dumbproxy.Auth.Serial.{parse_serial_bytes}
use go_forward_proxy.Dumbproxy.Auth.Serial.Laws.{serial_of, parse_serial_bytes-serial_of}
use go_forward_proxy.Tests.SampleCalls.{calls, size_laws, token_laws}

abbrev pub cfg : Config
cfg = record {
  username = "alice";
  password = "s3cret";
  api_port = pos 8080;
  server_ip = "127.0.0.1";
  auto_reset_interval = pos 60;
  database_path = "proxies.db";
}

abbrev pub client_request : Request
client_request = record {
  method = "GET";
  url_scheme = "http";
  url_host = "example.org";
  url_path = "/";
  host = "example.org";
  request_uri = "http://example.org/";
  proto_major = 1;
  proto_minor = 1;
  remote_addr = "10.0.0.9:5000";
  header = ("Proxy-Authorization", "Basic alice:s3cret" ∷ []) ∷ [];
  peer_cert = none;
}

abbrev pub fresh_writer : Writer
fresh_writer = record { header = []; status = none; body = "" }

new_auth_within-levels_example :
    new_auth_within calls 20 "none" ≡ new_auth_levels calls 5 (λ s. fail "other") "none"
unfolding size
new_auth_within-levels_example =
    new_auth_within-levels size_laws 20 5 (λ s. fail "other") "none" (omega arith) (omega arith)

abbrev expiry : ℤ
expiry = unix calls (pos 1000000000 +ℤ pos 60000000000)

abbrev token : String
token = calls.encode_raw_url (
    encode_token (record {
      expire = expiry;
      signature = calculate_hmac_signature calls (1 ∷ []) "alice" expiry;
    }))

verify-hmac_sign_example :
    verify_hmac_login_and_password calls (1 ∷ []) "alice" token 7
    ≡ (leb_ℤ (pos 1000000000) (expiry *ℤ pos 1000000000), 7)
unfolding hmac_sign calculate_hmac_signature unix ◌+ℤ◌ take
verify-hmac_sign_example =
    verify-hmac_sign token_laws "01" "alice" "1m" token (1 ∷ []) (pos 60000000000) 0 0 refl refl
      (omega arith, omega arith) refl 7

parse_serial_bytes-serial_of_example :
    parse_serial_bytes (b'0' ∷ b'a' ∷ b':' ∷ b'F' ∷ b'f' ∷ [])
    ≡ serial_of (b'0' ∷ b'a' ∷ b':' ∷ b'F' ∷ b'f' ∷ [])
parse_serial_bytes-serial_of_example =
    parse_serial_bytes-serial_of (b'0' ∷ b'a' ∷ b':' ∷ b'F' ∷ b'f' ∷ [])
