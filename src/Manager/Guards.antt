-- ===== src/Manager/Guards.antt =====
-- Who guards the instances in the manager's map: each keeps the provider that it was made with, by
-- the one configuration of the manager.
pub mod Upsert
use go_forward_proxy.Base.{
  ℕ, String, ◌≡◌, refl, sym, ap, ◌∙◌, inl, inr, none, some, Option, arith, Option-cases, List, [],
  ◌∷◌, ◌⊎◌, ◌==◌, if◌then◌else◌,
}
use go_forward_proxy.Base.Int.{ℤ, uint}
use go_forward_proxy.Base.Dict.{lookup, lookup-insert, lookup-nil}
use go_forward_proxy.Base.Result.{ok, err, Result-cases}
use go_forward_proxy.Config.{Config}
use go_forward_proxy.Services.Interface.{ProxyService}
use go_forward_proxy.Database.{Proxy}
use go_forward_proxy.World.{World}
use go_forward_proxy.Instance.{
  ProxyInstance, auth_url, new_proxy_instance, start, stop, update_upstream,
}
use go_forward_proxy.Manager.{
  Manager, Services, set_instance, new_manager, launch_new, insert_new_proxy, switch_upstream,
  update_existing_proxy, upsert_proxy, delete_proxy, start_one, start_each, start_all, stop_all,
  get_all_proxies, update_found, update_instance, fetch,
}
use go_forward_proxy.Manager.Launch.{SameTables, fetch-SameTables}
use go_forward_proxy.Manager.Delete.{delete_proxy-fields}

module _ {w : World} (made : w.Auth → Type 0) where
  -- An instance serves with its own handler, which asks the instance's provider, and that is one
  -- of those in `made`.
  abbrev pub IsGuarded : ProxyInstance w → Type 0
  IsGuarded pi =
      (pi.server ≡ some (record { handler = pi.handler }))
      × (pi.handler.auth ≡ pi.auth)
      × made pi.auth

  pub update_upstream-IsGuarded :
      (str : String) (pi pi' : ProxyInstance w)
      → update_upstream w str pi ≡ ok pi'
      → IsGuarded pi
      → IsGuarded pi'
  unfolding update_upstream
  update_upstream-IsGuarded str pi pi' h g = ground arith

  module _ (cfg : Config) where
    -- The manager has this configuration, and every instance in its map is guarded so.
    pub record AreGuarded (m : Manager w) : Type 0 where
      pub config_eq : m.config ≡ cfg
      pub all : (id : ℕ) (pi : ProxyInstance w) → lookup id m.instances ≡ some pi → IsGuarded pi

    pub AreGuarded-same :
        (m m' : Manager w)
        → m'.instances ≡ m.instances
        → m'.config ≡ m.config
        → AreGuarded m
        → AreGuarded m'
    AreGuarded-same m m' e k g = record {
      config_eq = k ∙ g.config_eq;
      all = λ id pi h. g.all id pi (ap (λ d. lookup id d) (sym e) ∙ h);
    }

    pub set_instance-AreGuarded :
        (id : ℕ) (pi : ProxyInstance w) (m : Manager w)
        → IsGuarded pi
        → AreGuarded m
        → AreGuarded (set_instance w id pi m)
    set_instance-AreGuarded id pi m p g = record {
      config_eq = g.config_eq;
      all = λ j q h. grind (arith, lookup-insert id j pi m.instances, p, g.all j q);
    }

    pub fetch-AreGuarded :
        (service : ProxyService w.Env) (key : String) (m : Manager w)
        → AreGuarded m
        → AreGuarded (fetch w service key m).1
    fetch-AreGuarded service key m g =
        let same = fetch-SameTables w service key m in
        AreGuarded-same m (fetch w service key m).1 same.0 (same.2) g

    module _
        (makes : (a : w.Auth) (env : w.Env)
          → (w.new_auth (auth_url cfg) env).0 ≡ ok a
          → made a) where
      new_proxy_instance-made :
          (id : ℕ) (s ty : String) (env : w.Env) (pi : ProxyInstance w)
          → (new_proxy_instance w id s ty cfg env).0 ≡ ok pi
          → (pi.handler.auth ≡ pi.auth) × made pi.auth
      unfolding new_proxy_instance auth_url
      new_proxy_instance-made id s ty env pi h =
          elim (Result-cases (w.new_auth (auth_url cfg) env).0) [
            | inr (e, bad) ↦ absurd (ground arith)
            | inl (a, good) ↦ ground (arith, makes a env good)
          ]

      -- An instance that was made with the manager's configuration, and started, is guarded.
      start-IsGuarded :
          (id : ℕ) (s ty : String) (env env' : w.Env) (pi pi' : ProxyInstance w)
          → (new_proxy_instance w id s ty cfg env).0 ≡ ok pi
          → (start w pi env').0 ≡ ok pi'
          → IsGuarded pi'
      unfolding start
      start-IsGuarded id s ty env env' pi pi' h k =
          ground (arith, new_proxy_instance-made id s ty env pi h)

      started-AreGuarded :
          (p : Proxy) (m : Manager w) (pi pi' : ProxyInstance w)
          → (new_proxy_instance w p.id p.proxy_str p.service_type m.config m.env).0 ≡ ok pi
          → (start w pi (new_proxy_instance w p.id p.proxy_str p.service_type m.config m.env).1).0
            ≡ ok pi'
          → AreGuarded m
          → AreGuarded (set_instance w p.id pi' m)
      started-AreGuarded p m pi pi' good up g =
          set_instance-AreGuarded p.id pi' m
            (start-IsGuarded p.id p.proxy_str p.service_type m.env
              (new_proxy_instance w p.id p.proxy_str p.service_type m.config m.env).1 pi pi'
              (rw (sym g.config_eq) good) up)
            g

      -- A launch changes no configuration; it ends with the instances from before, or with them and
      -- the new one, which is guarded.
      pub launch_new-AreGuarded :
          (id : ℕ) (p : Proxy) (m : Manager w) → AreGuarded m → AreGuarded (launch_new w id p m).1
      unfolding launch_new
      launch_new-AreGuarded id p m g =
          let c = new_proxy_instance w p.id p.proxy_str p.service_type m.config m.env in
          elim (Result-cases c.0) [
            | inr (e, bad) ↦
                AreGuarded-same m (launch_new w id p m).1 (ground arith) (ground arith) g
            | inl (pi, good) ↦ elim (Result-cases (start w pi c.1).0) [
              | inr (e, bad) ↦
                  AreGuarded-same m (launch_new w id p m).1 (ground arith) (ground arith) g
              | inl (pi', up) ↦
                  AreGuarded-same (set_instance w p.id pi' m) (launch_new w id p m).1 (ground arith)
                    (ground arith) (started-AreGuarded p m pi pi' good up g)
            ]
          ]

      start_one-AreGuarded :
          (p : Proxy) (m : Manager w) → AreGuarded m → AreGuarded (start_one w p m).1
      unfolding start_one
      start_one-AreGuarded p m g =
          let c = new_proxy_instance w p.id p.proxy_str p.service_type m.config m.env in
          elim (Result-cases c.0) [
            | inr (e, bad) ↦ AreGuarded-same m (start_one w p m).1 (ground arith) (ground arith) g
            | inl (pi, good) ↦ elim (Result-cases (start w pi c.1).0) [
              | inr (e, bad) ↦ AreGuarded-same m (start_one w p m).1 (ground arith) (ground arith) g
              | inl (pi', up) ↦
                  AreGuarded-same (set_instance w p.id pi' m) (start_one w p m).1 (ground arith)
                    (ground arith) (started-AreGuarded p m pi pi' good up g)
            ]
          ]

      start_each-AreGuarded :
          (ps : List Proxy) (m : Manager w) → AreGuarded m → AreGuarded (start_each w ps m)
      unfolding start_each
      start_each-AreGuarded [] m g = g
      start_each-AreGuarded (p ∷ ps) m g =
          start_each-AreGuarded ps (start_one w p m).1 (start_one-AreGuarded p m g)

      pub start_all-AreGuarded : (m : Manager w) → AreGuarded m → AreGuarded (start_all w m).1
      unfolding start_all get_all_proxies
      start_all-AreGuarded m g = elim (Result-cases (get_all_proxies w m).0) [
        | inr (e, h) ↦ AreGuarded-same m (start_all w m).1 (ground arith) (ground arith) g
        | inl (ps, h) ↦
            AreGuarded-same (start_each w ps m) (start_all w m).1 (ground arith) (ground arith)
              (start_each-AreGuarded ps m g)
      ]

    pub new_manager-AreGuarded :
        (db : w.Db) (services : Services w) (env : w.Env)
        → AreGuarded (new_manager w db cfg services env)
    unfolding new_manager
    new_manager-AreGuarded db services env = record {
      config_eq = refl;
      all = λ id pi h. ground (arith, lookup-nil {V = ProxyInstance w} id);
    }

    pub stop_all-AreGuarded : (m : Manager w) → AreGuarded m → AreGuarded (stop_all w m).1
    unfolding stop_all
    stop_all-AreGuarded m g = record {
      config_eq = g.config_eq;
      all = λ id pi h. ground (arith, lookup-nil {V = ProxyInstance w} id);
    }

    delete_proxy-config : (id : ℕ) (m : Manager w) → (delete_proxy w id m).1.config ≡ m.config
    unfolding delete_proxy stop
    delete_proxy-config id m = ground arith

    pub delete_proxy-AreGuarded :
        (id : ℕ) (m : Manager w) → AreGuarded m → AreGuarded (delete_proxy w id m).1
    delete_proxy-AreGuarded id m g = record {
      config_eq = delete_proxy-config id m ∙ g.config_eq;
      all =
          λ j pi h. let gone = (delete_proxy-fields w id m).0 in ground (arith, gone j, g.all j pi);
    }

    pub update_instance-AreGuarded :
        (id : ℕ) (str : String) (m : Manager w)
        → AreGuarded m
        → AreGuarded (update_instance w id str m).1
    unfolding update_instance
    update_instance-AreGuarded id str m g = elim (Option-cases (lookup id m.instances)) [
      | inl e ↦ rw (e, update_found) g
      | inr (pi, e) ↦ elim (Result-cases (update_upstream w str pi)) [
        | inl (pi', u) ↦
            rw (e, update_found)
              (rw u (
                set_instance-AreGuarded id pi' m
                  (update_upstream-IsGuarded str pi pi' u (g.all id pi e)) g))
        | inr (x, u) ↦ rw (e, update_found) (rw u g)
      ]
    ]

    pub switch_upstream-AreGuarded :
        (id : ℕ) (str : String) (m : Manager w)
        → AreGuarded m
        → AreGuarded (switch_upstream w id str (lookup id m.instances) m).1
    unfolding switch_upstream
    switch_upstream-AreGuarded id str m g = elim (Option-cases (lookup id m.instances)) [
      | inl e ↦ rw e g
      | inr (pi, e) ↦ elim (Result-cases (update_upstream w str pi)) [
        | inl (pi', u) ↦ rw e (
            rw u (
              set_instance-AreGuarded id pi' m
                (update_upstream-IsGuarded str pi pi' u (g.all id pi e)) g))
        | inr (x, u) ↦ rw e (rw u g)
      ]
    ]
