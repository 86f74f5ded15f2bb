-- ===== src/Instance/Lifecycle.antt =====
-- What an instance is once `Start` has succeeded, and that `UpdateUpstream` keeps it so.
use go_forward_proxy.Base.{ℕ, String, ◌≡◌, ◌≢◌, none, some, arith}
use go_forward_proxy.Base.Result.{Result, ok, err, Exec, ◌>>=◌}
use go_forward_proxy.Config.{Config}
use go_forward_proxy.World.{World}
use go_forward_proxy.Instance.{ProxyInstance, port_of, new_proxy_instance, start, update_upstream}
use go_forward_proxy.Instance.ParseProxyStr.{parse_proxy_str}

-- The instance of the proxy `id` listens on its port and serves with its own handler, which dials
-- through its dialer and asks its own provider for credentials.
pub record IsRunning (w : World) (id : ℕ) (pi : ProxyInstance w) : Type 0 where
  pub id_eq : pi.proxy_id ≡ id
  pub port_eq : pi.port ≡ port_of id
  pub listening : pi.listener ≢ none
  pub serving : pi.server ≡ some (record { handler = pi.handler })
  pub dials : pi.handler.dialer ≡ pi.dialer
  pub guards : pi.handler.auth ≡ pi.auth

module _ (w : World) where
  -- the dialer through the upstream proxy that a `proxy_str` names
  abbrev pub dialer_for : String → String → Result w.Dialer
  dialer_for proxy_str service_type = elim (parse_proxy_str proxy_str service_type) [
    | err e ↦ err e
    | ok url ↦ w.proxy_dialer_from_url url
  ]

  -- `NewProxyInstance` and `Start`
  abbrev pub launch : ℕ → String → String → Config → Exec w.Env (ProxyInstance w)
  launch id s ty cfg = new_proxy_instance w id s ty cfg >>= start w

  pub new_proxy_instance_lem :
      (id : ℕ) (s ty : String) (cfg : Config) (env : w.Env) (pi : ProxyInstance w)
      → (new_proxy_instance w id s ty cfg env).0 ≡ ok pi
      → (pi.proxy_id ≡ id)
        × (pi.port ≡ port_of id)
        × (pi.service_type ≡ ty)
        × (pi.handler.dialer ≡ pi.dialer)
        × (pi.handler.auth ≡ pi.auth)
        × (dialer_for s ty ≡ ok pi.dialer)
  unfolding new_proxy_instance
  new_proxy_instance_lem id s ty cfg env pi h = ground arith

  -- A created instance that was started runs, on the port of its id, with its type and dialer.
  pub start-IsRunning :
      (id : ℕ) (s ty : String) (cfg : Config) (env env' : w.Env) (pi pi' : ProxyInstance w)
      → (new_proxy_instance w id s ty cfg env).0 ≡ ok pi
      → (start w pi env').0 ≡ ok pi'
      → IsRunning w id pi' × (pi'.service_type ≡ ty) × (dialer_for s ty ≡ ok pi'.dialer)
  unfolding start
  start-IsRunning id s ty cfg env env' pi pi' h k =
      ground (arith, new_proxy_instance_lem id s ty cfg env pi h)

  -- A running instance whose upstream is switched keeps running, on its port and with its type, and
  -- its server serves with the new handler, which dials through the new upstream.
  pub update_upstream-IsRunning :
      (id : ℕ) (s : String) (pi pi' : ProxyInstance w)
      → update_upstream w s pi ≡ ok pi'
      → IsRunning w id pi
      → IsRunning w id pi'
        × (pi'.service_type ≡ pi.service_type)
        × (dialer_for s pi.service_type ≡ ok pi'.dialer)
  unfolding update_upstream
  update_upstream-IsRunning id s pi pi' h r = ground arith

  pub update_upstream-dials :
      (s : String) (pi pi' : ProxyInstance w)
      → update_upstream w s pi ≡ ok pi'
      → (pi'.service_type ≡ pi.service_type) × (dialer_for s pi.service_type ≡ ok pi'.dialer)
  unfolding update_upstream
  update_upstream-dials s pi pi' h = ground arith
