-- ===== src/Program.antt =====
-- cmd/server/main.go: how the program starts and stops. What `log.Fatalf` prints is the error of a
-- start that fails; the other messages to the log are left out.
pub mod Boot
use go_forward_proxy.Base.{String, List, [], ◌∷◌}
use go_forward_proxy.Base.Result.{Result, ok, err, Exec, pure, lift, wrapping, ◌>>=◌, ◌>>◌}
use go_forward_proxy.Services.Http.{Http}
use go_forward_proxy.Services.TmProxy.{tmproxy_service}
use go_forward_proxy.Services.KiotProxy.{kiotproxy_service}
use go_forward_proxy.Config.{Config, Environment, load_config}
use go_forward_proxy.Database.{Storage, init_db}
use go_forward_proxy.World.{World}
use go_forward_proxy.Manager.{Manager, Services, new_manager, start_all, stop_all}

module _ (w : World) (h : Http w.Env) (st : Storage w.Env w.Db) where
  -- the map `services` of `main`
  unfoldable pub services : Services w
  services = ("tmproxy", tmproxy_service h) ∷ ("kiotproxy", kiotproxy_service h) ∷ []

  -- `main` as far as the start of all existing proxies
  unfoldable pub boot : Environment → Exec w.Env (Manager w)
  unfolding services
  boot vars = do
    cfg ← wrapping "Failed to load config" (lift (load_config vars))
    db ← wrapping "Failed to initialize database" (init_db st cfg.database_path)
    started ← (λ env. (ok (start_all w (new_manager w db cfg services env)), env))
    (λ env. elim (started.0) [
      | ok tt ↦ (ok started.1, started.1.env)
      | err e ↦ wrapping "Failed to start existing proxies" (lift (err e)) started.1.env
    ])

  -- `main` after the signal: the event loop of the auto-reset service has ended, and all instances
  -- are stopped.
  unfoldable pub shut_down : Manager w → Manager w
  shut_down m = (stop_all w m).1
