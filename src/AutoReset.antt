-- ===== src/AutoReset.antt =====
-- internal/proxymanager/autoreset.go: the service that gives a proxy a new address when its time
-- has come. It shares the database and the services with the manager, so its methods are actions
-- on the manager too. Messages to the log are left out.
pub mod Traces
pub mod NotDue
pub mod Current
pub mod Due
pub mod Steps
pub mod Guards
pub mod Reset
use Prim.Native.String.{◌++◌}
use go_forward_proxy.Base.{◌-◌, Bool, Option, none, some, List, [], ◌∷◌, if◌then◌else◌}
use go_forward_proxy.Base.Int.{ℤ, pos, negsuc, ◌-ℤ◌, leb_ℤ, two_63}
use go_forward_proxy.Base.Dict.{find}
use go_forward_proxy.Base.Result.{Result, ok, err, Exec, fail, gets, wrapping, modify, ◌>>=◌, ◌>>◌}
use go_forward_proxy.Services.Interface.{Time, ProxyService}
use go_forward_proxy.Database.{Proxy}
use go_forward_proxy.World.{World}
use go_forward_proxy.Manager.{Manager, on_env, on_db, now, update_instance}

-- What the `select` of `Start` receives: from the ticker, and from the context when it is cancelled.
pub data Event : Type 0 where
  tick done : Event

-- `t.Sub(u)`: a duration beyond the range of `int64` is its nearest end.
unfoldable pub time_sub : Time → Time → ℤ
time_sub t u =
    let d = t -ℤ u in
    if leb_ℤ (pos two_63) d
    then pos (two_63 - 1)
    else if leb_ℤ d (negsuc (two_63 - 1))
    then negsuc (two_63 - 1)
    else d

module _ (w : World) where
  -- `elapsed >= float64(proxy.MinTimeReset)`, in seconds
  unfoldable pub needs_reset : Time → Proxy → Bool
  needs_reset t p = w.ge (w.seconds (time_sub t p.last_reset_at)) (w.float64 p.min_time_reset)

  reset_with : Proxy → Time → Option (ProxyService w.Env) → Exec (Manager w) Unit
  reset_with p t none = fail ("unknown service type: " ++ p.service_type)
  reset_with p t (some service) = do
    info ← wrapping "failed to get new proxy" (on_env w (service.get_new_proxy p.api_key))
    wrapping "failed to update database" (on_db w (w.update_reset info.proxy_str t p.id))
    wrapping "failed to update instance" (update_instance w p.id info.proxy_str)

  unfoldable pub reset_proxy : Proxy → Time → Exec (Manager w) Unit
  unfolding reset_with
  reset_proxy p t = do
    services ← gets (λ m. m.proxy_services)
    reset_with p t (find p.service_type services)

  -- a row whose `Scan` fails is skipped
  pub scanned : List (Result Proxy) → List Proxy
  scanned [] = []
  scanned (err e ∷ rs) = scanned rs
  scanned (ok p ∷ rs) = p ∷ scanned rs

  -- One round of the loop: an error is logged, and the next proxy is tried.
  check_one : Time → Proxy → Manager w → Manager w
  check_one t p m = if needs_reset t p then (reset_proxy p t m).1 else m

  pub check_each : Time → List Proxy → Manager w → Manager w
  check_each t [] m = m
  check_each t (p ∷ ps) m = check_each t ps (check_one t p m)

  unfoldable pub check_and_reset_proxies : Exec (Manager w) Unit
  unfolding scanned check_each check_one
  check_and_reset_proxies = do
    rows ← (λ m. (w.select_all m.db, m))
    t ← now w
    modify (check_each t (scanned rows))

  -- The loop of `Start`, over the events in the order of their arrival.
  unfoldable pub run : List Event → Manager w → Manager w
  run [] m = m
  run (done ∷ es) m = m
  run (tick ∷ es) m = run es (check_and_reset_proxies m).1
