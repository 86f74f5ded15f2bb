-- ===== src/Instance/ParseProxyStr.antt =====
-- `parseProxyStr` of internal/proxymanager/instance.go: from a `proxy_str` to the URL of the
-- upstream proxy.
use Prim.Native.String.{◌++◌}
use go_forward_proxy.Base.{String, List, [], ◌∷◌, str_eq, if◌then◌else◌}
use go_forward_proxy.Base.Text.{split}
use go_forward_proxy.Base.Result.{Result, ok, err}

-- "ip:port:username:password"
tmproxy_url : List String → Result String
tmproxy_url (ip ∷ port ∷ username ∷ password ∷ []) =
    ok ("http://" ++ username ++ ":" ++ password ++ "@" ++ ip ++ ":" ++ port)
tmproxy_url _ = err "invalid tmproxy format, expected ip:port:username:password"

-- "ip:port"
kiotproxy_url : List String → Result String
kiotproxy_url (ip ∷ port ∷ []) = ok ("http://" ++ ip ++ ":" ++ port)
kiotproxy_url _ = err "invalid kiotproxy format, expected ip:port"

unfoldable pub parse_proxy_str : String → String → Result String
unfolding tmproxy_url kiotproxy_url
parse_proxy_str proxy_str service_type =
    let parts = split b':' proxy_str in
    if str_eq service_type "tmproxy"
    then tmproxy_url parts
    else if str_eq service_type "kiotproxy"
    then kiotproxy_url parts
    else err ("unknown service type: " ++ service_type)
