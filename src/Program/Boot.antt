-- ===== src/Program/Boot.antt =====
-- The state in which the program begins to serve.
use go_forward_proxy.Base.{String, ◌≡◌, sym, inl, inr, some, arith, eq_iff}
use go_forward_proxy.Base.Dict.{find}
use go_forward_proxy.Base.Result.{ok, Result-cases}
use go_forward_proxy.Services.Interface.{ProxyService}
use go_forward_proxy.Services.Http.{Http}
use go_forward_proxy.Services.TmProxy.{tmproxy_service}
use go_forward_proxy.Services.KiotProxy.{kiotproxy_service}
use go_forward_proxy.Config.{Config, Environment, load_config}
use go_forward_proxy.Database.{Storage, init_db}
use go_forward_proxy.World.{World}
use go_forward_proxy.World.Sqlite.{Sqlite}
use go_forward_proxy.Manager.{Manager, new_manager, start_all}
use go_forward_proxy.Manager.Invariant.{IsConsistent}
use go_forward_proxy.Manager.StartStop.{start_all-IsConsistent}
use go_forward_proxy.Manager.Current.{IsCurrent, start_all-IsCurrent, new_manager-IsCurrent}
use go_forward_proxy.AutoReset.Steps.{new_manager-IsConsistent}
use go_forward_proxy.Program.{services, boot}

module _ {w : World} (s : Sqlite w) (h : Http w.Env) (st : Storage w.Env w.Db) where
  boot-inverse :
      (vars : Environment) (env : w.Env) (m : Manager w)
      → (boot w h st vars env).0 ≡ ok m
      → (cfg : Config) × (db : w.Db) × (env' : w.Env) × (load_config vars ≡ ok cfg)
        × ((start_all w (new_manager w db cfg (services w h st) env')).1 ≡ m)
  unfolding boot
  boot-inverse vars env m b = elim (Result-cases (load_config vars)) [
    | inr (e, x) ↦ absurd (ground arith)
    | inl (cfg, x) ↦ elim (Result-cases (init_db st cfg.database_path env).0) [
      | inr (e, y) ↦ absurd (ground arith)
      | inl (db, y) ↦ (cfg, db, (init_db st cfg.database_path env).1, x, ground arith)
    ]
  ]

  -- When the program begins to serve, each instance runs on its port, has a row of its type, and
  -- dials through the `proxy_str` of that row.
  pub boot_ready :
      (vars : Environment) (env : w.Env) (m : Manager w)
      → (boot w h st vars env).0 ≡ ok m
      → IsConsistent s m × IsCurrent s m
  boot_ready vars env m b =
      let (cfg, db, env', _, eq) = boot-inverse vars env m b in
      let m₀ = new_manager w db cfg (services w h st) env' in
      (
        rw (sym eq) (
            start_all-IsConsistent s m₀ (new_manager-IsConsistent s db cfg (services w h st) env')),
        rw (sym eq)
            (start_all-IsCurrent s m₀ (new_manager-IsCurrent s db cfg (services w h st) env')),
      )

-- The service that is found for a type is the one that calls itself so.
pub find-services :
    (w : World) (h : Http w.Env) (st : Storage w.Env w.Db) (ty : String)
    (service : ProxyService w.Env)
    → find ty (services w h st) ≡ some service
    → service.get_service_type ≡ ty
unfolding find services tmproxy_service kiotproxy_service
find-services w h st ty service f = ground (arith, eq_iff "tmproxy" ty, eq_iff "kiotproxy" ty)
