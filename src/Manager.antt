-- ===== src/Manager.antt =====
-- internal/proxymanager/manager.go: the manager of the proxies. Each method is an action on the
-- manager; the field `env` stands for all that is outside of the program. A method that holds the
-- manager's lock runs as one step.
pub mod Launch
pub mod Invariant
pub mod Insert
pub mod Update
pub mod Upsert
pub mod Delete
pub mod Current
pub mod Keys
pub mod Ports
pub mod StartStop
pub mod Guards
use Prim.Native.String.{◌++◌}
use go_forward_proxy.Base.{ℕ, String, Option, none, some, List, [], ◌∷◌}
use go_forward_proxy.Base.Int.{ℤ, pos, ◌+ℤ◌, ◌-ℤ◌, ◌*ℤ◌, wrap64, uint}
use go_forward_proxy.Base.Decimal.{format_nat}
use go_forward_proxy.Base.Dict.{Dict, lookup, insert, erase, find}
use go_forward_proxy.Base.Result.{
  Result, ok, err, wrap, Exec, pure, fail, lift, gets, wrapping, attempt, modify, ◌>>=◌, ◌>>◌,
}
use go_forward_proxy.Services.Interface.{Time, ProxyInfo, ProxyService}
use go_forward_proxy.Config.{Config}
use go_forward_proxy.Database.{Proxy}
use go_forward_proxy.World.{World}
use go_forward_proxy.Instance.{
  ProxyInstance, on_error, new_proxy_instance, start, update_upstream, stop,
}

abbrev pub Services : World → Type 0
Services w = List (String × ProxyService w.Env)

pub record Manager (w : World) : Type 0 where
  pub instances : Dict (ProxyInstance w)
  pub db : w.Db
  pub config : Config
  pub proxy_services : Services w
  pub env : w.Env

-- `now.Add(-time.Duration(n) * time.Second)`: durations are `int64` nanoseconds.
unfoldable pub seconds_before : ℤ → Time → Time
seconds_before n now = now +ℤ wrap64 (wrap64 (pos 0 -ℤ n) *ℤ pos 1000000000)

module _ (w : World) where
  unfoldable pub new_manager : w.Db → Config → Services w → w.Env → Manager w
  new_manager db cfg services env = record {
    instances = [];
    db = db;
    config = cfg;
    proxy_services = services;
    env = env;
  }

  -- A call into the outside, and a statement sent to the database.
  abbrev pub on_env : {A : Type 0} → Exec w.Env A → Exec (Manager w) A
  on_env act m = let (r, env') = act m.env in (r, record m { env = env' })

  abbrev pub on_db : {A : Type 0} → Exec w.Db A → Exec (Manager w) A
  on_db act m = let (r, db') = act m.db in (r, record m { db = db' })

  abbrev pub now : Exec (Manager w) Time
  now m = let (t, env') = w.now m.env in (ok t, record m { env = env' })

  abbrev pub set_instance : ℕ → ProxyInstance w → Manager w → Manager w
  set_instance id pi m = record m { instances = insert id pi m.instances }

  -- The proxy that a service gives now, and the `lastResetAt` to store with it: the current proxy,
  -- or a new one where that call fails.
  fetch_after :
      ProxyService w.Env → String → Time → Result ProxyInfo → Exec (Manager w) (ProxyInfo × Time)
  fetch_after service api_key t (ok info) = pure (info, seconds_before info.next_reset_after t)
  fetch_after service api_key t (err e) = do
    info ← wrapping "failed to get new proxy" (on_env (service.get_new_proxy api_key))
    pure (info, t)

  -- With it comes the time that was read between the two calls.
  unfoldable pub fetch : ProxyService w.Env → String → Exec (Manager w) (ProxyInfo × Time × Time)
  unfolding fetch_after
  fetch service api_key = do
    current ← attempt (on_env (service.get_current_proxy api_key))
    t ← now
    (info, last_reset_at) ← fetch_after service api_key t current
    pure (info, last_reset_at, t)

  -- `m.db.Exec("DELETE …")` with its error ignored
  abbrev pub rollback : ℕ → Manager w → Manager w
  rollback id m = (on_db (w.delete_proxy id) m).1

  -- The instance of a row that was just inserted is created, started and registered. Where that
  -- fails the row is deleted again, by the id that the database gave.
  unfoldable pub launch_new : ℕ → Proxy → Exec (Manager w) Proxy
  launch_new id proxy = do
    cfg ← gets (λ m. m.config)
    created ←
        attempt (on_env (new_proxy_instance w proxy.id proxy.proxy_str proxy.service_type cfg))
    instance_new ← on_error (rollback id) (wrap "failed to create proxy instance" created)
    started ← attempt (on_env (start w instance_new))
    instance_started ← on_error (rollback id) (wrap "failed to start proxy instance" started)
    modify (set_instance proxy.id instance_started)
    pure proxy

  unfoldable pub insert_new_proxy :
      String → String → ℤ → ProxyService w.Env → Exec (Manager w) Proxy
  insert_new_proxy api_key service_type min_time_reset service = do
    (info, last_reset_at, t) ← fetch service api_key
    result ←
        wrapping "failed to insert proxy in database" (
          on_db (w.insert_proxy info.proxy_str api_key service_type min_time_reset last_reset_at t))
    id ← wrapping "failed to get last insert ID" (lift result)
    let proxy : Proxy = record {
      id = uint id;
      proxy_str = info.proxy_str;
      api_key = api_key;
      service_type = service_type;
      min_time_reset = min_time_reset;
      last_reset_at = last_reset_at;
      created_at = t;
    }
    launch_new id proxy

  -- the running instance, if there is one, dials the new upstream
  pub switch_upstream : ℕ → String → Option (ProxyInstance w) → Exec (Manager w) Unit
  switch_upstream id proxy_str none = pure tt
  switch_upstream id proxy_str (some pi) = do
    pi' ← lift (update_upstream w proxy_str pi)
    modify (set_instance id pi')

  unfoldable pub get_proxy_by_id : ℕ → Exec (Manager w) Proxy
  get_proxy_by_id id = wrapping "failed to get proxy" (λ m. (w.select_by_id id m.db, m))

  unfoldable pub update_existing_proxy :
      ℕ → String → ℤ → ProxyService w.Env → Exec (Manager w) Proxy
  unfolding switch_upstream
  update_existing_proxy proxy_id api_key min_time_reset service = do
    (info, last_reset_at, t) ← fetch service api_key
    wrapping "failed to update proxy in database"
        (on_db (w.update_proxy info.proxy_str min_time_reset last_reset_at proxy_id))
    running ← gets (λ m. lookup proxy_id m.instances)
    wrapping "failed to update proxy instance upstream"
        (switch_upstream proxy_id info.proxy_str running)
    wrapping "failed to get updated proxy" (get_proxy_by_id proxy_id)

  upsert_with : String → String → ℤ → Option (ProxyService w.Env) → Exec (Manager w) Proxy
  upsert_with api_key service_type min_time_reset none =
      fail ("unknown service type: " ++ service_type)
  upsert_with api_key service_type min_time_reset (some service) = do
    existing ← wrapping "failed to check existing proxy" (λ m. (w.select_id_by_key api_key m.db, m))
    elim existing [
      | none ↦ insert_new_proxy api_key service_type min_time_reset service
      | some existing_id ↦ update_existing_proxy (uint existing_id) api_key min_time_reset service
    ]

  unfoldable pub upsert_proxy : String → String → ℤ → Exec (Manager w) Proxy
  unfolding upsert_with
  upsert_proxy api_key service_type min_time_reset = do
    services ← gets (λ m. m.proxy_services)
    upsert_with api_key service_type min_time_reset (find service_type services)

  -- a running instance is stopped and forgotten
  remove_instance : ℕ → Option (ProxyInstance w) → Exec (Manager w) Unit
  remove_instance id none = pure tt
  remove_instance id (some pi) = do
    wrapping "failed to stop proxy instance" (on_env (stop w pi))
    modify (λ m. record m { instances = erase id m.instances })

  unfoldable pub delete_proxy : ℕ → Exec (Manager w) Unit
  unfolding remove_instance
  delete_proxy id = do
    running ← gets (λ m. lookup id m.instances)
    remove_instance id running
    wrapping "failed to delete proxy from database" (on_db (w.delete_proxy id))

  -- the loop over the rows: the first `Scan` that fails ends it
  scan_all : List (Result Proxy) → Result (List Proxy)
  scan_all [] = ok []
  scan_all (err e ∷ rs) = err ("failed to scan proxy: " ++ e)
  scan_all (ok p ∷ rs) = elim (scan_all rs) [ ok ps ↦ ok (p ∷ ps) | err e ↦ err e ]

  unfoldable pub get_all_proxies : Exec (Manager w) (List Proxy)
  unfolding scan_all
  get_all_proxies = do
    rows ← wrapping "failed to query proxies" (λ m. (w.select_ordered m.db, m))
    lift (scan_all rows)

  -- One round of the loop of `StartAll`: an error is printed, and the next proxy is tried.
  pub start_one : Proxy → Exec (Manager w) Unit
  start_one p = do
    cfg ← gets (λ m. m.config)
    pi ← on_env (new_proxy_instance w p.id p.proxy_str p.service_type cfg)
    pi' ← on_env (start w pi)
    modify (set_instance p.id pi')

  pub start_each : List Proxy → Manager w → Manager w
  start_each [] m = m
  start_each (p ∷ ps) m = start_each ps (start_one p m).1

  unfoldable pub start_all : Exec (Manager w) Unit
  unfolding start_one start_each
  start_all = do
    proxies ← wrapping "failed to load proxies" get_all_proxies
    modify (start_each proxies)

  stop_each : Dict (ProxyInstance w) → w.Env → w.Env
  stop_each [] env = env
  stop_each ((id, pi) ∷ d) env = stop_each d (stop w pi env).1

  unfoldable pub stop_all : Exec (Manager w) Unit
  unfolding stop_each
  stop_all = modify (λ m. record m { env = stop_each m.instances m.env; instances = [] })

  update_found : ℕ → String → Option (ProxyInstance w) → Exec (Manager w) Unit
  update_found id proxy_str none = fail ("proxy instance " ++ format_nat id ++ " not found")
  update_found id proxy_str (some pi) = do
    pi' ← lift (update_upstream w proxy_str pi)
    modify (set_instance id pi')

  unfoldable pub update_instance : ℕ → String → Exec (Manager w) Unit
  unfolding update_found
  update_instance proxy_id new_proxy_str = do
    running ← gets (λ m. lookup proxy_id m.instances)
    update_found proxy_id new_proxy_str running
