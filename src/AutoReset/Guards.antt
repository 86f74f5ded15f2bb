-- ===== src/AutoReset/Guards.antt =====
-- The steps of the whole program keep the instances in the manager's map guarded.
use go_forward_proxy.Base.{String, ◌≡◌, refl, inl, inr, none, some, Option, Option-cases}
use go_forward_proxy.Base.Int.{uint}
use go_forward_proxy.Base.Decimal.{parse_uint32}
use go_forward_proxy.Base.Result.{ok}
use go_forward_proxy.Config.{Config}
use go_forward_proxy.World.{World}
use go_forward_proxy.World.Sqlite.{Sqlite}
use go_forward_proxy.Instance.{auth_url}
use go_forward_proxy.Manager.{Manager, Services, new_manager, on_db}
use go_forward_proxy.Manager.StartStop.{get_all_proxies-same}
use go_forward_proxy.Manager.Guards.{
  AreGuarded, AreGuarded-same, new_manager-AreGuarded, delete_proxy-AreGuarded,
  update_instance-AreGuarded, start_all-AreGuarded, stop_all-AreGuarded,
}
use go_forward_proxy.Manager.Guards.Upsert.{upsert_proxy-AreGuarded}
use go_forward_proxy.Api.{
  UpsertProxyRequest, create_proxy, delete_proxy_handler, list_proxies, export_text,
}
use go_forward_proxy.Api.Router.{Request, handle}
use go_forward_proxy.Api.Keeps.{
  create_proxy-state, delete_proxy_handler-bad, delete_proxy_handler-state,
}
use go_forward_proxy.AutoReset.Steps.{Step, Reach}

module _ {w : World} (s : Sqlite w) (made : w.Auth → Type 0) (cfg : Config)
    (makes : (a : w.Auth) (env : w.Env) → (w.new_auth (auth_url cfg) env).0 ≡ ok a → made a) where
  create_proxy-AreGuarded :
      (req : Option UpsertProxyRequest) (m : Manager w)
      → AreGuarded made cfg m
      → AreGuarded made cfg (create_proxy w req m).1
  unfolding create_proxy
  create_proxy-AreGuarded none m g = g
  create_proxy-AreGuarded (some req) m g = elim (create_proxy-state w m req) [
    | inl e ↦ rw e g
    | inr e ↦ rw e (
        upsert_proxy-AreGuarded s made cfg makes req.api_key req.min_time_reset m g
          req.service_type)
  ]

  delete_proxy_handler-AreGuarded :
      (id_str : String) (m : Manager w)
      → AreGuarded made cfg m
      → AreGuarded made cfg (delete_proxy_handler w id_str m).1
  delete_proxy_handler-AreGuarded id_str m g = elim (Option-cases (parse_uint32 id_str)) [
    | inl e ↦ rw (delete_proxy_handler-bad w m id_str e) g
    | inr (id, e) ↦
        rw (delete_proxy_handler-state w m id_str id e)
          (delete_proxy-AreGuarded made cfg (uint id) m g)
  ]

  handle-AreGuarded :
      (r : Request) (m : Manager w) → AreGuarded made cfg m → AreGuarded made cfg (handle w r m).1
  unfolding handle list_proxies export_text
  handle-AreGuarded (Request.create req) m g = create_proxy-AreGuarded req m g
  handle-AreGuarded (Request.delete id) m g = delete_proxy_handler-AreGuarded id m g
  handle-AreGuarded Request.list m g = rw (get_all_proxies-same s m) g
  handle-AreGuarded Request.export m g = rw (get_all_proxies-same s m) g

  Step-AreGuarded :
      {m m' : Manager w} → Step w m m' → AreGuarded made cfg m → AreGuarded made cfg m'
  Step-AreGuarded (Step.outside m env) g =
      AreGuarded-same made cfg m (record m { env = env }) refl refl g
  Step-AreGuarded (Step.request m r) g = handle-AreGuarded r m g
  Step-AreGuarded (Step.store m str t id) g =
      AreGuarded-same made cfg m (on_db w (w.update_reset str t id) m).1 refl refl g
  Step-AreGuarded (Step.switch m str id) g = update_instance-AreGuarded made cfg id str m g
  Step-AreGuarded (Step.start m) g = start_all-AreGuarded made cfg makes m g
  Step-AreGuarded (Step.stop m) g = stop_all-AreGuarded made cfg m g

  Reach-AreGuarded :
      {m m' : Manager w} → Reach w m m' → AreGuarded made cfg m → AreGuarded made cfg m'
  Reach-AreGuarded Reach.here g = g
  Reach-AreGuarded (Reach.next r st) g = Step-AreGuarded st (Reach-AreGuarded r g)

  -- Whatever the program has been through, the server of each instance in the map serves with the
  -- instance's handler, and that asks a provider that was made for the configuration.
  pub reachable-AreGuarded :
      (db : w.Db) (services : Services w) (env : w.Env) (m : Manager w)
      → Reach w (new_manager w db cfg services env) m
      → AreGuarded made cfg m
  reachable-AreGuarded db services env m r =
      Reach-AreGuarded r (new_manager-AreGuarded made cfg db services env)
