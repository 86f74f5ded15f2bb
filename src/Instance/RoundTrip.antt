-- ===== src/Instance/RoundTrip.antt =====
-- From the parts of a `proxy_str` to the URL of the upstream: what `parseProxyStr` makes of the
-- texts that the services return.
use Prim.Native.Char.{Char, char}
use Prim.Native.String.{◌++◌}
use text.Mathlib.TextLemmas.{append_assoc}
use go_forward_proxy.Base.{String, ◌≡◌, true}
use go_forward_proxy.Base.Text.{lacks}
use go_forward_proxy.Base.Text.Split.{split-lacks, split-append}
use go_forward_proxy.Base.Result.{ok}
use go_forward_proxy.Services.TmProxy.{tm_proxy_str}
use go_forward_proxy.Instance.ParseProxyStr.{parse_proxy_str}

abbrev colon : Char
colon = char b':' tt

module _ (ip port : String) (ip_plain : lacks b':' ip ≡ true)
    (port_plain : lacks b':' port ≡ true) where
  -- "ip:port" of KiotProxy, where neither has a colon, becomes the URL of that host and port.
  pub parse_proxy_str-kiotproxy :
      parse_proxy_str (ip ++ ":" ++ port) "kiotproxy" ≡ ok ("http://" ++ ip ++ ":" ++ port)
  unfolding parse_proxy_str
  parse_proxy_str-kiotproxy =
      rw (split-append colon ip port ip_plain, split-lacks b':' port port_plain)

  -- A host and port and credentials, as the TMProxy service joins them, become the URL of that
  -- host and port with those credentials. None of the four has a colon.
  pub parse_proxy_str-tmproxy :
      (username password : String)
      → lacks b':' username ≡ true
      → lacks b':' password ≡ true
      → parse_proxy_str (tm_proxy_str (ip ++ ":" ++ port) username password) "tmproxy"
        ≡ ok ("http://" ++ username ++ ":" ++ password ++ "@" ++ ip ++ ":" ++ port)
  unfolding parse_proxy_str tm_proxy_str
  parse_proxy_str-tmproxy username password user_plain pass_plain = rw (
    append_assoc ip (":" ++ port) (":" ++ username ++ ":" ++ password),
    append_assoc ":" port (":" ++ username ++ ":" ++ password),
    split-append colon ip (port ++ ":" ++ username ++ ":" ++ password) ip_plain,
    split-append colon port (username ++ ":" ++ password) port_plain,
    split-append colon username password user_plain,
    split-lacks b':' password pass_plain,
  )
