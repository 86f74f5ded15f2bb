-- ===== src/Manager/Launch.antt =====
-- The parts of the manager's methods, each by what it changes: fetching the proxy from its service,
-- launching a new instance, switching the upstream of one.
use go_forward_proxy.Base.{ℕ, String, ◌≡◌, ◌≢◌, inl, inr, none, some, arith}
use go_forward_proxy.Base.Dict.{lookup, lookup-insert}
use go_forward_proxy.Base.Result.{ok, err, Result-cases}
use go_forward_proxy.Services.Interface.{ProxyService}
use go_forward_proxy.Database.{Proxy}
use go_forward_proxy.World.{World}
use go_forward_proxy.Instance.{ProxyInstance, new_proxy_instance, start}
use go_forward_proxy.Instance.Lifecycle.{IsRunning, dialer_for, start-IsRunning}
use go_forward_proxy.Manager.{Manager, fetch, launch_new}

module _ (w : World) where
  -- Nothing but the outside changes.
  abbrev pub SameTables : Manager w → Manager w → Type 0
  SameTables m m' =
      (m'.instances ≡ m.instances)
      × (m'.db ≡ m.db)
      × (m'.config ≡ m.config)
      × (m'.proxy_services ≡ m.proxy_services)

  pub fetch-SameTables :
      (service : ProxyService w.Env) (key : String) (m : Manager w)
      → SameTables m (fetch w service key m).1
  unfolding fetch
  fetch-SameTables service key m = ground arith

  module _ (id : ℕ) (p : Proxy) (m : Manager w) where
    pub launch_new-err :
        (e : String)
        → (launch_new w id p m).0 ≡ err e
        → let m' = (launch_new w id p m).1 in
          (m'.instances ≡ m.instances) × (m'.db ≡ (w.delete_proxy id m.db).1)
    unfolding launch_new
    launch_new-err e h = ground arith

    pub launch_new-ok :
        (q : Proxy)
        → (launch_new w id p m).0 ≡ ok q
        → let m' = (launch_new w id p m).1 in
          (q ≡ p) × (m'.db ≡ m.db) × (lookup p.id m'.instances ≢ none)
    unfolding launch_new
    launch_new-ok q h = grind (arith, lookup-insert)

    -- After a launch the instances are those from before and the new one, which runs.
    pub launch_new-IsRunning :
        (q : Proxy) (j : ℕ) (pi : ProxyInstance w)
        → (launch_new w id p m).0 ≡ ok q
        → lookup j (launch_new w id p m).1.instances ≡ some pi
        → (p.id ≡ j
            → IsRunning w j pi
              × (pi.service_type ≡ p.service_type)
              × (dialer_for w p.proxy_str p.service_type ≡ ok pi.dialer))
          × (p.id ≢ j → lookup j m.instances ≡ some pi)
    unfolding launch_new
    launch_new-IsRunning q j pi h l =
        elim (Result-cases
          (new_proxy_instance w p.id p.proxy_str p.service_type m.config m.env).0) [
            | inr (e, bad) ↦ ground arith
            | inl (pi₀, good) ↦
                elim (Result-cases
                  (start w pi₀
                    (new_proxy_instance w p.id p.proxy_str p.service_type m.config m.env).1).0) [
                      | inr (e, bad) ↦ ground arith
                      | inl (pi₁, started) ↦ grind (
                        arith,
                        lookup-insert p.id j pi₁ m.instances,
                        start-IsRunning w p.id p.proxy_str p.service_type m.config m.env
                            (new_proxy_instance w p.id p.proxy_str p.service_type m.config m.env).1
                            pi₀ pi₁ good started,
                      )
                    ]
          ]
