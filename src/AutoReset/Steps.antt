-- ===== src/AutoReset/Steps.antt =====
-- The program as a whole: the API and the auto-reset service share the manager and the database.
-- A request that takes the manager's lock is one step; a reset takes no lock for as long as it
-- waits for the service, so each of its three parts is a step of its own, and other steps may come
-- between them.
use go_forward_proxy.Base.{ℕ, String, ◌≡◌, ◌≢◌, some, refl, sym, ◌∙◌, arith}
use go_forward_proxy.Base.Dict.{lookup, lookup-nil}
use go_forward_proxy.Services.Interface.{Time}
use go_forward_proxy.Config.{Config}
use go_forward_proxy.World.{World}
use go_forward_proxy.World.Sqlite.{Sqlite}
use go_forward_proxy.World.Rows.{types-reset, keys-reset, HasUniqueKeys}
use go_forward_proxy.Instance.{ProxyInstance}
use go_forward_proxy.Manager.{
  Manager, Services, on_db, new_manager, update_instance, start_all, stop_all,
}
use go_forward_proxy.Manager.Invariant.{
  IsConsistent, IsConsistent-mono, update_instance-IsConsistent, update_instance-db,
}
use go_forward_proxy.Manager.StartStop.{
  start_all-IsConsistent, stop_all-IsConsistent, start_all-db, stop_all-db,
}
use go_forward_proxy.Api.Router.{Request, handle}
use go_forward_proxy.Api.Keeps.{handle-IsConsistent, handle-HasUniqueKeys}
use go_forward_proxy.Manager.Ports.{ports_distinct}
use go_forward_proxy.Manager.Keys.{HasUniqueKeys-sub}

module _ (w : World) where
  pub data Step : Manager w → Manager w → Type 0 where
    -- the outside changes: time passes, a service or a client acts
    outside : (m : Manager w) (env : w.Env) → Step m (record m { env = env })
    -- a request of the API
    request : (m : Manager w) (r : Request) → Step m (handle w r m).1
    -- a reset stores what the service gave, for a proxy that was read at any time before
    store :
        (m : Manager w) (proxy_str : String) (t : Time) (id : ℕ)
        → Step m (on_db w (w.update_reset proxy_str t id) m).1
    -- a reset updates the running instance; one that leaves the map between the look-up and the
    -- update is no longer part of the manager, so that this is then a step that changes nothing
    switch :
        (m : Manager w) (proxy_str : String) (id : ℕ) → Step m (update_instance w id proxy_str m).1
    -- the start of the program, and its end
    start : (m : Manager w) → Step m (start_all w m).1
    stop : (m : Manager w) → Step m (stop_all w m).1

  pub data Reach (m : Manager w) : Manager w → Type 0 where
    here : Reach m m
    next : {m' m'' : Manager w} → Reach m m' → Step m' m'' → Reach m m''

module _ {w : World} (s : Sqlite w) where
  Step-IsConsistent : {m m' : Manager w} → Step w m m' → IsConsistent s m → IsConsistent s m'
  Step-IsConsistent (outside m env) c = record { at = c.at }
  Step-IsConsistent (request m r) c = handle-IsConsistent s r m c
  Step-IsConsistent (store m str t id) c =
      IsConsistent-mono s m (on_db w (w.update_reset str t id) m).1 refl
        (λ j ty h. types-reset s str t id m.db j ∙ h) c
  Step-IsConsistent (switch m str id) c = update_instance-IsConsistent s id str m c
  Step-IsConsistent (start m) c = start_all-IsConsistent s m c
  Step-IsConsistent (stop m) c = stop_all-IsConsistent s m

  pub Reach-IsConsistent : {m m' : Manager w} → Reach w m m' → IsConsistent s m → IsConsistent s m'
  Reach-IsConsistent here c = c
  Reach-IsConsistent (next r st) c = Step-IsConsistent st (Reach-IsConsistent r c)

  pub new_manager-IsConsistent :
      (db : w.Db) (cfg : Config) (services : Services w) (env : w.Env)
      → IsConsistent s (new_manager w db cfg services env)
  unfolding new_manager
  new_manager-IsConsistent db cfg services env = record {
    at = λ id pi h. ground (arith, lookup-nil {V = ProxyInstance w} id);
  }

  -- Whatever requests, resets and failures the program has been through, and however the steps of
  -- resets and requests came between one another, each instance in the map runs on the port of its
  -- key, and its row is in the table with the service type that the instance was made for.
  pub reachable-IsConsistent :
      (db : w.Db) (cfg : Config) (services : Services w) (env : w.Env) (m : Manager w)
      → Reach w (new_manager w db cfg services env) m
      → IsConsistent s m
  reachable-IsConsistent db cfg services env m r =
      Reach-IsConsistent r (new_manager-IsConsistent db cfg services env)

  -- Whatever the program has been through, no two instances in the map have one port.
  pub reachable_ports_distinct :
      (db : w.Db) (cfg : Config) (services : Services w) (env : w.Env) (m : Manager w) (i j : ℕ)
      (a b : ProxyInstance w)
      → Reach w (new_manager w db cfg services env) m
      → lookup i m.instances ≡ some a
      → lookup j m.instances ≡ some b
      → i ≢ j
      → a.port ≢ b.port
  reachable_ports_distinct db cfg services env m i j a b r =
      ports_distinct s m i j a b (reachable-IsConsistent db cfg services env m r)

  Step-HasUniqueKeys :
      {m m' : Manager w} → Step w m m' → HasUniqueKeys s m.db → HasUniqueKeys s m'.db
  Step-HasUniqueKeys (outside m env) u = u
  Step-HasUniqueKeys (request m r) u = handle-HasUniqueKeys s r m u
  Step-HasUniqueKeys (store m str t id) u =
      HasUniqueKeys-sub s m.db (w.update_reset str t id m.db).1
        (λ j k h. sym (keys-reset s str t id m.db j) ∙ h) u
  Step-HasUniqueKeys (switch m str id) u = rw (update_instance-db s id str m) u
  Step-HasUniqueKeys (start m) u = rw (start_all-db s m) u
  Step-HasUniqueKeys (stop m) u = rw (stop_all-db s m) u

  -- From a table in which no two rows have one API key, no steps lead to one in which two have.
  pub reachable-HasUniqueKeys :
      {m m' : Manager w} → Reach w m m' → HasUniqueKeys s m.db → HasUniqueKeys s m'.db
  reachable-HasUniqueKeys here u = u
  reachable-HasUniqueKeys (next r st) u = Step-HasUniqueKeys st (reachable-HasUniqueKeys r u)
