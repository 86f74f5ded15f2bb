-- ===== src/AutoReset/Reset.antt =====
-- What one reset does: nothing to a proxy that is not due, and to one that is due a new upstream.
use go_forward_proxy.Base.{
  ℕ, String, ◌≡◌, ap, ◌∙◌, ◌≢◌, inl, inr, some, arith, Option-cases, ◌==◌, if◌then◌else◌,
}
use go_forward_proxy.Base.Dict.{lookup, find, lookup-insert}
use go_forward_proxy.Base.Result.{Result, ok, Result-cases}
use go_forward_proxy.Services.Interface.{Time, ProxyInfo, ProxyService}
use go_forward_proxy.Database.{Proxy}
use go_forward_proxy.World.{World}
use go_forward_proxy.World.Sqlite.{Sqlite, set_reset}
use go_forward_proxy.Instance.{ProxyInstance, update_upstream}
use go_forward_proxy.Instance.Lifecycle.{dialer_for, update_upstream-dials}
use go_forward_proxy.Manager.{Manager, update_instance}
use go_forward_proxy.Manager.Invariant.{update_instance-db}
use go_forward_proxy.AutoReset.{reset_proxy}

module _ {w : World} (id : ℕ) (str : String) (m : Manager w) where
  -- An instance that `UpdateInstance` reports as updated was in the map and still is, with its type,
  -- and dials through the new `proxy_str`; the map is otherwise as it was.
  pub update_instance-lookup :
      (update_instance w id str m).0 ≡ ok tt
      → let m' = (update_instance w id str m).1 in
        ((j : ℕ) → id ≢ j → lookup j m'.instances ≡ lookup j m.instances)
        × (pi : ProxyInstance w) × (pi' : ProxyInstance w) × (lookup id m.instances ≡ some pi)
        × (lookup id m'.instances ≡ some pi')
        × (pi'.service_type ≡ pi.service_type)
        × (dialer_for w str pi.service_type ≡ ok pi'.dialer)
  unfolding update_instance
  update_instance-lookup h = elim (Option-cases (lookup id m.instances)) [
    | inl e ↦ absurd (ground (arith, h, e))
    | inr (pi, e) ↦ elim (Result-cases (update_upstream w str pi)) [
      | inr (x, u) ↦ absurd (ground (arith, h, e, u))
      | inl (pi', u) ↦
          let (same_type, dials) = update_upstream-dials w str pi pi' u in
          (
            λ j ne. ground (arith, e, u, lookup-insert id j pi' m.instances, ne),
            pi,
            pi',
            e,
            ground (arith, e, u, lookup-insert id id pi' m.instances),
            same_type,
            dials,
          )
    ]
  ]

module _ {w : World} (s : Sqlite w) (p : Proxy) (t : Time) (m : Manager w)
    (service : ProxyService w.Env) (info : ProxyInfo)
    (found : find p.service_type m.proxy_services ≡ some service)
    (fetched : (service.get_new_proxy p.api_key m.env).0 ≡ ok info) where
  abbrev storing : Result (Unit {0}) × w.Db
  storing = w.update_reset info.proxy_str t p.id m.db

  abbrev stored : Manager w
  stored = record m { env = (service.get_new_proxy p.api_key m.env).1; db = storing.1 }

  reset-stored : (reset_proxy w p t m).0 ≡ ok tt → storing.0 ≡ ok tt
  unfolding reset_proxy
  reset-stored h = elim (Result-cases storing.0) [
    | inr (x, k) ↦ absurd (ground arith)
    | inl (tt, k) ↦ k
  ]

  reset-switched :
      storing.0 ≡ ok tt
      → (reset_proxy w p t m).0 ≡ ok tt
      → ((update_instance w p.id info.proxy_str stored).0 ≡ ok tt)
        × ((reset_proxy w p t m).1 ≡ (update_instance w p.id info.proxy_str stored).1)
  unfolding reset_proxy
  reset-switched k h = (ground arith, ground arith)

  -- Where the service is known and gives a proxy, a reset that succeeds has stored the service's new
  -- `proxy_str` and the time in the proxy's row and changed no other row. The proxy had an instance
  -- and has one, of the same type, which dials through the new upstream; every other proxy has the
  -- instance that it had, or none as before.
  pub reset_proxy-ok :
      (reset_proxy w p t m).0 ≡ ok tt
      → let m' = (reset_proxy w p t m).1 in
        ((j : ℕ)
          → s.row m'.db j
            ≡ (if p.id == j then set_reset info.proxy_str t (s.row m.db j) else s.row m.db j))
        × ((j : ℕ) → p.id ≢ j → lookup j m'.instances ≡ lookup j m.instances)
        × (pi : ProxyInstance w) × (pi' : ProxyInstance w) × (lookup p.id m.instances ≡ some pi)
        × (lookup p.id m'.instances ≡ some pi')
        × (pi'.service_type ≡ pi.service_type)
        × (dialer_for w info.proxy_str pi.service_type ≡ ok pi'.dialer)
  reset_proxy-ok h =
      let k = reset-stored h in
      let (done, same) = reset-switched k h in
      let (others, pi, pi', was, is, same_type, dials) =
        update_instance-lookup p.id info.proxy_str stored done in
      (
        λ j.
            ap (λ x. s.row x.db j) same
            ∙ ap (λ d. s.row d j) (update_instance-db s p.id info.proxy_str stored)
            ∙ s.reset-ok info.proxy_str t p.id m.db k j,
        λ j ne. ap (λ x. lookup j x.instances) same ∙ others j ne,
        pi,
        pi',
        was,
        ap (λ x. lookup p.id x.instances) same ∙ is,
        same_type,
        dials,
      )

  -- Where the service is known and gives a proxy, the UPDATE succeeds and the proxy has an instance
  -- for which the new upstream has a dialer, the reset succeeds.
  pub reset_proxy_succeeds :
      (pi : ProxyInstance w) (d : w.Dialer)
      → storing.0 ≡ ok tt
      → lookup p.id m.instances ≡ some pi
      → dialer_for w info.proxy_str pi.service_type ≡ ok d
      → (reset_proxy w p t m).0 ≡ ok tt
  unfolding reset_proxy update_instance update_upstream
  reset_proxy_succeeds pi d k l e = ground arith
