-- ===== src/Services/KiotProxy.antt =====
-- internal/proxyservices/kiotproxy.go: the client of api.kiotproxy.com.
use Prim.Native.String.{◌++◌}
use go_forward_proxy.Base.{String, ◌||◌, if◌then◌else◌, not}
use go_forward_proxy.Base.Int.{ℤ, pos, ◌-ℤ◌, ◌*ℤ◌, wrap64, eq_ℤ}
use go_forward_proxy.Base.Text.{contains}
use go_forward_proxy.Base.Result.{Result, ok, err, Exec, lift, wrapping, ◌>>=◌}
use go_forward_proxy.Services.Interface.{Time, ProxyInfo, ProxyService}
use go_forward_proxy.Services.Http.{Http, KiotproxyNewProxyResponse, KiotproxyCurrentProxyResponse}
use go_forward_proxy.Services.TmProxy.{no_current_proxy}

abbrev pub kiotproxy_get_new_url : String
kiotproxy_get_new_url = "https://api.kiotproxy.com/api/v1/proxies/new"

abbrev pub kiotproxy_get_current_url : String
kiotproxy_get_current_url = "https://api.kiotproxy.com/api/v1/proxies/current"

-- `time.Unix(0, ms * int64(time.Millisecond))`: the product is an `int64`.
unfoldable pub unix_milliseconds : ℤ → Time
unix_milliseconds ms = wrap64 (ms *ℤ pos 1000000)

-- the zero `time.Time`: the first of January of the year 1, from the Unix epoch
abbrev pub zero_time : Time
zero_time = pos 0 -ℤ pos 62135596800000000000

-- `GetCurrentProxy` once the reply is decoded
unfoldable pub kiot_current_info : KiotproxyCurrentProxyResponse → Result ProxyInfo
unfolding unix_milliseconds
kiot_current_info resp =
    if not resp.success || not (eq_ℤ resp.code (pos 200))
    then (if contains resp.message "Không tìm thấy proxy"
        then err no_current_proxy
        else err ("kiotproxy API error: " ++ resp.message))
    else ok (record {
      proxy_str = resp.http;
      service_type = "kiotproxy";
      next_reset_after = resp.ttc;
      expires_at = unix_milliseconds resp.expiration_at;
    })

-- `GetNewProxy` once the reply is decoded: the fields that the literal leaves out are zero.
unfoldable pub kiot_new_info : KiotproxyNewProxyResponse → Result ProxyInfo
kiot_new_info resp =
    if not resp.success || not (eq_ℤ resp.code (pos 200))
    then err ("kiotproxy API error: " ++ resp.message)
    else ok (record {
      proxy_str = resp.http;
      service_type = "kiotproxy";
      next_reset_after = pos 0;
      expires_at = zero_time;
    })

module _ {Env : Type 0} (h : Http Env) where
  pub get : String → String → Exec Env h.Body
  get url api_key = do
    req ←
        wrapping "failed to create request"
          (lift (h.new_request "GET" (url ++ "?key=" ++ api_key) ""))
    wrapping "failed to send request" (h.send req)

  unfoldable pub kiot_get_current_proxy : String → Exec Env ProxyInfo
  unfolding get kiot_current_info
  kiot_get_current_proxy api_key = do
    body ← get kiotproxy_get_current_url api_key
    resp ← wrapping "failed to decode response" (lift (h.decode_kiot_current body))
    lift (kiot_current_info resp)

  unfoldable pub kiot_get_new_proxy : String → Exec Env ProxyInfo
  unfolding get kiot_new_info
  kiot_get_new_proxy api_key = do
    body ← get kiotproxy_get_new_url api_key
    resp ← wrapping "failed to decode response" (lift (h.decode_kiot_new body))
    lift (kiot_new_info resp)

  -- `KiotProxyService` as an implementation of the interface
  unfoldable pub kiotproxy_service : ProxyService Env
  unfolding kiot_get_current_proxy kiot_get_new_proxy
  kiotproxy_service = record {
    get_current_proxy = kiot_get_current_proxy;
    get_new_proxy = kiot_get_new_proxy;
    get_service_type = "kiotproxy";
  }
