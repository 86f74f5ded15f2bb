-- ===== src/Tests/Services.antt =====
-- The theorems on the services, and on numbers in texts, at concrete values.
use go_forward_proxy.Base.{String, ◌≡◌, refl, true, str_eq, if◌then◌else◌}
use go_forward_proxy.Base.Int.{pos}
use go_forward_proxy.Base.Result.{ok}
use go_forward_proxy.Services.Interface.{ProxyInfo, Time}
use go_forward_proxy.Services.Http.{
  Http, TmproxyNewProxyResponse, TmproxyCurrentProxyResponse, KiotproxyNewProxyResponse,
  KiotproxyCurrentProxyResponse,
}
use go_forward_proxy.Services.TmProxy.{tm_get_current_proxy}
use go_forward_proxy.Services.KiotProxy.{kiot_get_current_proxy, unix_milliseconds}
use go_forward_proxy.Config.{Environment}

abbrev tm_reply : TmproxyCurrentProxyResponse
tm_reply = record {
  code = pos 0;
  message = "";
  next_request = pos 30;
  expired_at = "10:00:00 01/02/2026";
  https = "10.0.0.1:3128";
  username = "user";
  password = "pass";
}

abbrev kiot_reply : KiotproxyCurrentProxyResponse
kiot_reply = record {
  success = true;
  code = pos 200;
  message = "";
  next_request_at = pos 0;
  expiration_at = pos 1700000000000;
  http = "10.0.0.1:3128";
  ttc = pos 30;
}

abbrev tm_new_reply : TmproxyNewProxyResponse
tm_new_reply = record {
  code = pos 0;
  message = "";
  username = "user";
  password = "pass";
  https = "10.0.0.1:3128";
  socks5 = "";
  next_request = pos 30;
  expired_at = "10:00:00 01/02/2026";
}

abbrev kiot_new_reply : KiotproxyNewProxyResponse
kiot_new_reply = record {
  success = true;
  code = pos 200;
  message = "";
  http = "10.0.0.1:3128";
  socks5 = "";
}

-- an HTTP client whose servers answer with these replies
abbrev replying : Http Time
replying = record {
  Request = String;
  Body = String;
  marshal = λ r. ok r.api_key;
  new_request = λ verb url body. ok url;
  set_header = λ k v r. r;
  send = λ r env. (ok r, env);
  decode_tm_new = λ b. ok tm_new_reply;
  decode_tm_current = λ b. ok tm_reply;
  decode_kiot_new = λ b. ok kiot_new_reply;
  decode_kiot_current = λ b. ok kiot_reply;
  parse_time = λ layout text. ok (pos 7);
}

abbrev tm_info : ProxyInfo
tm_info = record {
  proxy_str = "10.0.0.1:3128:user:pass";
  service_type = "tmproxy";
  next_reset_after = pos 30;
  expires_at = pos 7;
}

abbrev kiot_info : ProxyInfo
kiot_info = record {
  proxy_str = "10.0.0.1:3128";
  service_type = "kiotproxy";
  next_reset_after = pos 30;
  expires_at = unix_milliseconds (pos 1700000000000);
}

tm_fetched : (tm_get_current_proxy replying "key" (pos 0)).0 ≡ ok tm_info
unfolding tm_get_current_proxy
tm_fetched = refl

kiot_fetched : (kiot_get_current_proxy replying "key" (pos 0)).0 ≡ ok kiot_info
unfolding kiot_get_current_proxy
kiot_fetched = refl

abbrev vars : Environment
vars key = if str_eq key "API_PORT" then "9090" else ""
