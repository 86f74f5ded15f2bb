-- ===== src/Instance.antt =====
-- internal/proxymanager/instance.go: one forwarding proxy, which listens on its own port and dials
-- through one upstream proxy.
pub mod ParseProxyStr
pub mod Lifecycle
pub mod RoundTrip
use Prim.Native.String.{◌++◌}
use go_forward_proxy.Base.{ℕ, ◌+◌, String, Bool, true, false, Option, none, some}
use go_forward_proxy.Base.Int.{ℤ, pos, ◌+ℤ◌, wrap64}
use go_forward_proxy.Base.Decimal.{format_int}
use go_forward_proxy.Base.Result.{Result, ok, err, wrap, Exec, pure, modify, wrapping, ◌>>=◌, ◌>>◌}
use go_forward_proxy.Config.{Config}
use go_forward_proxy.World.{World}
use go_forward_proxy.Instance.ParseProxyStr.{parse_proxy_str}

-- `int(proxyID) + 10000`
unfoldable pub port_of : ℕ → ℤ
port_of proxy_id = wrap64 (wrap64 (pos proxy_id) +ℤ pos 10000)

unfoldable pub auth_url : Config → String
auth_url cfg = "static://?username=" ++ cfg.username ++ "&password=" ++ cfg.password

-- `handler.ProxyHandler`, by the two parts of its configuration that differ between proxies. The
-- logger is output only, and `Forward` is the same function everywhere.
pub record ProxyHandler (w : World) : Type 0 where
  pub dialer : w.Dialer
  pub auth : w.Auth

-- `http.Server`: the handler is all that the program sets.
pub record Server (w : World) : Type 0 where
  pub handler : ProxyHandler w

-- `cancel` says whether the field `Cancel` is set.
pub record ProxyInstance (w : World) : Type 0 where
  pub proxy_id : ℕ
  pub port : ℤ
  pub service_type : String
  pub listener : Option w.Listener
  pub handler : ProxyHandler w
  pub server : Option (Server w)
  pub cancel : Bool
  pub auth : w.Auth
  pub dialer : w.Dialer

-- what `err != nil` branches do before they return
abbrev pub on_error : {S A : Type 0} → (S → S) → Result A → Exec S A
on_error f (ok a) s = (ok a, s)
on_error f (err e) s = (err e, f s)

module _ (w : World) where
  unfoldable pub new_proxy_instance : ℕ → String → String → Config → Exec w.Env (ProxyInstance w)
  unfolding port_of auth_url
  new_proxy_instance proxy_id proxy_str service_type cfg = do
    auth_provider ← wrapping "failed to create auth" (w.new_auth (auth_url cfg))
    upstream_url ←
        on_error (w.close_auth auth_provider)
          (wrap "failed to parse proxy string" (parse_proxy_str proxy_str service_type))
    upstream_dialer ←
        on_error (w.close_auth auth_provider)
          (wrap "failed to create upstream dialer" (w.proxy_dialer_from_url upstream_url))
    pure (record {
      proxy_id = proxy_id;
      port = port_of proxy_id;
      service_type = service_type;
      listener = none;
      handler = record { dialer = upstream_dialer; auth = auth_provider };
      server = none;
      cancel = false;
      auth = auth_provider;
      dialer = upstream_dialer;
    })

  -- `Start`. The instance as it is afterwards is the result; on an error it is unchanged. The
  -- context that the second goroutine waits on is the manager's, which is never cancelled.
  unfoldable pub start : ProxyInstance w → Exec w.Env (ProxyInstance w)
  start pi = do
    let addr = ":" ++ format_int pi.port
    listener ← wrapping ("failed to listen on " ++ addr) (w.listen addr)
    let server : Server w = record { handler = pi.handler }
    modify (w.serve listener)
    pure (record pi { listener = some listener; server = some server; cancel = true })

  abbrev with_handler : ProxyHandler w → Option (Server w) → Option (Server w)
  with_handler h none = none
  with_handler h (some sv) = some (record sv { handler = h })

  -- `UpdateUpstream`: an error leaves the instance as it was.
  unfoldable pub update_upstream : String → ProxyInstance w → Result (ProxyInstance w)
  update_upstream proxy_str pi =
      elim (wrap "failed to parse proxy string" (parse_proxy_str proxy_str pi.service_type)) [
        | err e ↦ err e
        | ok upstream_url ↦
            elim (wrap "failed to create new upstream dialer"
              (w.proxy_dialer_from_url upstream_url)) [
                | err e ↦ err e
                | ok new_dialer ↦
                    let new_handler : ProxyHandler w = record {
                      dialer = new_dialer;
                      auth = pi.auth;
                    } in
                    ok (record pi {
                      server = with_handler new_handler pi.server;
                      handler = new_handler;
                      dialer = new_dialer;
                    })
              ]
      ]

  -- `Shutdown` and `Close` of what is set; the error of `Shutdown` is only logged.
  shutdown_server : Option w.Listener → Option (Server w) → w.Env → w.Env
  shutdown_server (some l) (some sv) env = (w.shutdown l env).1
  shutdown_server none (some sv) env = env
  shutdown_server _ none env = env

  close_if_set : Option w.Listener → w.Env → w.Env
  close_if_set none env = env
  close_if_set (some l) env = w.close_listener l env

  -- `Stop`, which never returns an error
  unfoldable pub stop : ProxyInstance w → Exec w.Env Unit
  unfolding shutdown_server close_if_set
  stop pi = do
    modify (w.close_auth pi.auth)
    modify (shutdown_server pi.listener pi.server)
    modify (close_if_set pi.listener)
    pure tt
