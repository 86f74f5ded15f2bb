-- ===== src/Services/TmProxy.antt =====
-- internal/proxyservices/tmproxy.go: the client of tmproxy.com.
use Prim.Native.String.{◌++◌}
use go_forward_proxy.Base.{String, if◌then◌else◌, not}
use go_forward_proxy.Base.Int.{pos, eq_ℤ}
use go_forward_proxy.Base.Decimal.{format_int}
use go_forward_proxy.Base.Result.{Result, ok, err, Exec, lift, wrapping, ◌>>=◌}
use go_forward_proxy.Services.Interface.{ProxyInfo, ProxyService}
use go_forward_proxy.Services.Http.{
  Http, TmproxyRequest, TmproxyNewProxyResponse, TmproxyCurrentProxyResponse,
}

abbrev pub tmproxy_get_new_url : String
tmproxy_get_new_url = "https://tmproxy.com/api/proxy/get-new-proxy"

abbrev pub tmproxy_get_current_url : String
tmproxy_get_current_url = "https://tmproxy.com/api/proxy/get-current-proxy"

-- `ErrNoCurrentProxy`
abbrev pub no_current_proxy : String
no_current_proxy = "no current proxy available, need to call GetNewProxy"

-- The layout of `expired_at`: time of day, day, month, year.
abbrev pub expired_at_layout : String
expired_at_layout = "15:04:05 02/01/2006"

-- "ip:port:username:password", where `https` is "ip:port"
unfoldable pub tm_proxy_str : String → String → String → String
tm_proxy_str https username password = https ++ ":" ++ username ++ ":" ++ password

module _ {Env : Type 0} (h : Http Env) where
  -- One request with a JSON body: what both methods do before they look at the reply.
  pub post : String → TmproxyRequest → Exec Env h.Body
  post url body = do
    json_data ← wrapping "failed to marshal request" (lift (h.marshal body))
    req ← wrapping "failed to create request" (lift (h.new_request "POST" url json_data))
    wrapping "failed to send request" (h.send (h.set_header "Content-Type" "application/json" req))

  -- `GetCurrentProxy` once the reply is decoded
  unfoldable pub tm_current_info : TmproxyCurrentProxyResponse → Result ProxyInfo
  unfolding tm_proxy_str
  tm_current_info resp =
      if not (eq_ℤ resp.code (pos 0))
      then (if eq_ℤ resp.code (pos 27)
          then err no_current_proxy
          else err
              ("tmproxy API error: code=" ++ format_int resp.code ++ ", message=" ++ resp.message))
      else elim (h.parse_time expired_at_layout resp.expired_at) [
        | err e ↦ err ("failed to parse expired_at: " ++ e)
        | ok expires_at ↦ ok (record {
          proxy_str = tm_proxy_str resp.https resp.username resp.password;
          service_type = "tmproxy";
          next_reset_after = resp.next_request;
          expires_at = expires_at;
        })
      ]

  -- `GetNewProxy` once the reply is decoded
  unfoldable pub tm_new_info : TmproxyNewProxyResponse → Result ProxyInfo
  unfolding tm_proxy_str
  tm_new_info resp =
      if not (eq_ℤ resp.code (pos 0))
      then err ("tmproxy API error: code=" ++ format_int resp.code ++ ", message=" ++ resp.message)
      else elim (h.parse_time expired_at_layout resp.expired_at) [
        | err e ↦ err ("failed to parse expired_at: " ++ e)
        | ok expires_at ↦ ok (record {
          proxy_str = tm_proxy_str resp.https resp.username resp.password;
          service_type = "tmproxy";
          next_reset_after = resp.next_request;
          expires_at = expires_at;
        })
      ]

  unfoldable pub tm_get_current_proxy : String → Exec Env ProxyInfo
  unfolding post tm_current_info
  tm_get_current_proxy api_key = do
    let request : TmproxyRequest = record { api_key = api_key; id_location = pos 0; id_isp = pos 0 }
    body ← post tmproxy_get_current_url request
    resp ← wrapping "failed to decode response" (lift (h.decode_tm_current body))
    lift (tm_current_info resp)

  unfoldable pub tm_get_new_proxy : String → Exec Env ProxyInfo
  unfolding post tm_new_info
  tm_get_new_proxy api_key = do
    let request : TmproxyRequest = record { api_key = api_key; id_location = pos 1; id_isp = pos 1 }
    body ← post tmproxy_get_new_url request
    resp ← wrapping "failed to decode response" (lift (h.decode_tm_new body))
    lift (tm_new_info resp)

  -- `TMProxyService` as an implementation of the interface
  unfoldable pub tmproxy_service : ProxyService Env
  unfolding tm_get_current_proxy tm_get_new_proxy
  tmproxy_service = record {
    get_current_proxy = tm_get_current_proxy;
    get_new_proxy = tm_get_new_proxy;
    get_service_type = "tmproxy";
  }
