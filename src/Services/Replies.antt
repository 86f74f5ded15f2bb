-- ===== src/Services/Replies.antt =====
-- What a proxy that a service returned says of the reply of its server.
use go_forward_proxy.Base.{String, true, ◌≡◌, inl, inr, arith}
use go_forward_proxy.Base.Int.{pos, eq_of_parts}
use go_forward_proxy.Base.Result.{ok, Result-cases}
use go_forward_proxy.Services.Interface.{ProxyInfo}
use go_forward_proxy.Services.Http.{
  Http, TmproxyRequest, TmproxyCurrentProxyResponse, KiotproxyCurrentProxyResponse,
}
use go_forward_proxy.Services.TmProxy.{
  tm_current_info, tm_get_current_proxy, post, tmproxy_get_current_url, expired_at_layout,
  tm_proxy_str,
}
use go_forward_proxy.Services.KiotProxy.{
  kiot_current_info, kiot_get_current_proxy, get, kiotproxy_get_current_url, unix_milliseconds,
}

module _ {Env : Type 0} (h : Http Env) (api_key : String) (env : Env) (info : ProxyInfo) where
  tm_current_info-ok :
      (resp : TmproxyCurrentProxyResponse)
      → tm_current_info h resp ≡ ok info
      → (resp.code ≡ pos 0)
        × (h.parse_time expired_at_layout resp.expired_at ≡ ok info.expires_at)
        × (info.proxy_str ≡ tm_proxy_str resp.https resp.username resp.password)
        × (info.service_type ≡ "tmproxy")
        × (info.next_reset_after ≡ resp.next_request)
  unfolding tm_current_info
  tm_current_info-ok resp e = elim (Result-cases (h.parse_time expired_at_layout resp.expired_at)) [
    | inr (x, k) ↦ absurd (ground arith)
    | inl (t, k) ↦ grind (arith, eq_of_parts)
  ]

  -- A proxy that `GetCurrentProxy` of TMProxy returns comes from a reply that was decoded, has the
  -- code 0 and a time in the layout; the proxy string joins the address and the credentials of it.
  pub tm_get_current_proxy-ok :
      (tm_get_current_proxy h api_key env).0 ≡ ok info
      → (body : h.Body) × (resp : TmproxyCurrentProxyResponse) × (h.decode_tm_current body
          ≡ ok resp)
        × (resp.code ≡ pos 0)
        × (h.parse_time expired_at_layout resp.expired_at ≡ ok info.expires_at)
        × (info.proxy_str ≡ tm_proxy_str resp.https resp.username resp.password)
        × (info.service_type ≡ "tmproxy")
        × (info.next_reset_after ≡ resp.next_request)
  unfolding tm_get_current_proxy
  tm_get_current_proxy-ok e =
      let request : TmproxyRequest = record {
        api_key = api_key;
        id_location = pos 0;
        id_isp = pos 0;
      } in
      elim (Result-cases (post h tmproxy_get_current_url request env).0) [
        | inr (x, k) ↦ absurd (ground arith)
        | inl (body, k) ↦ elim (Result-cases (h.decode_tm_current body)) [
          | inr (x, d) ↦ absurd (ground arith)
          | inl (resp, d) ↦
              let (code, time, str, ty, next) = tm_current_info-ok resp (ground arith) in
              (body, resp, d, code, time, str, ty, next)
        ]
      ]

  kiot_current_info-ok :
      (resp : KiotproxyCurrentProxyResponse)
      → kiot_current_info resp ≡ ok info
      → (resp.success ≡ true)
        × (resp.code ≡ pos 200)
        × (info.proxy_str ≡ resp.http)
        × (info.service_type ≡ "kiotproxy")
        × (info.next_reset_after ≡ resp.ttc)
        × (info.expires_at ≡ unix_milliseconds resp.expiration_at)
  unfolding kiot_current_info
  kiot_current_info-ok resp e = grind (arith, eq_of_parts)

  -- A proxy that `GetCurrentProxy` of KiotProxy returns comes from a reply that was decoded, reports
  -- success and has the code 200, and is the proxy that this reply names.
  pub kiot_get_current_proxy-ok :
      (kiot_get_current_proxy h api_key env).0 ≡ ok info
      → (body : h.Body) × (resp : KiotproxyCurrentProxyResponse) × (h.decode_kiot_current body
          ≡ ok resp)
        × (resp.success ≡ true)
        × (resp.code ≡ pos 200)
        × (info.proxy_str ≡ resp.http)
        × (info.service_type ≡ "kiotproxy")
        × (info.next_reset_after ≡ resp.ttc)
        × (info.expires_at ≡ unix_milliseconds resp.expiration_at)
  unfolding kiot_get_current_proxy
  kiot_get_current_proxy-ok e =
      elim (Result-cases (get h kiotproxy_get_current_url api_key env).0) [
        | inr (x, k) ↦ absurd (ground arith)
        | inl (body, k) ↦ elim (Result-cases (h.decode_kiot_current body)) [
          | inr (x, d) ↦ absurd (ground arith)
          | inl (resp, d) ↦
              let (good, code, str, ty, next, expires) = kiot_current_info-ok resp (ground arith) in
              (body, resp, d, good, code, str, ty, next, expires)
        ]
      ]
