-- ===== src/Manager/Update.antt =====
-- `updateExistingProxy`: what it leaves behind on each of its ways out.
pub mod Outcome
use go_forward_proxy.Base.{
  ℕ, ◌<◌, String, ◌≡◌, refl, sym, ap, ◌∙◌, ◌≢◌, inl, inr, none, some, Option, arith, Option-cases,
  ◌==◌, if◌then◌else◌,
}
use go_forward_proxy.Base.Int.{ℤ, two_63, uint, uint_lem}
use go_forward_proxy.Base.Dict.{lookup, insert, lookup-insert, lookup-erase}
use go_forward_proxy.Base.Result.{Result, ok, err, Exec, Result-cases}
use go_forward_proxy.Services.Interface.{ProxyInfo, ProxyService, Time}
use go_forward_proxy.Database.{Proxy}
use go_forward_proxy.World.{World}
use go_forward_proxy.World.Sqlite.{Sqlite, set_proxy}
use go_forward_proxy.World.Rows.{types, keys, types-update, keys-update}
use go_forward_proxy.Instance.{ProxyInstance, update_upstream}
use go_forward_proxy.Instance.Lifecycle.{IsRunning, dialer_for, update_upstream-dials}
use go_forward_proxy.Manager.{
  Manager, set_instance, fetch, switch_upstream, get_proxy_by_id, update_existing_proxy,
}
use go_forward_proxy.Manager.Launch.{SameTables, fetch-SameTables}
use go_forward_proxy.Manager.Invariant.{
  IsConsistent, IsConsistent-mono, SameTables-IsConsistent, update_upstream-IsConsistent,
}

module _ {w : World} (s : Sqlite w) (id : ℕ) (str : String) (m : Manager w) where
  switch_upstream-IsConsistent :
      IsConsistent s m → IsConsistent s (switch_upstream w id str (lookup id m.instances) m).1
  unfolding switch_upstream
  switch_upstream-IsConsistent c = elim (Option-cases (lookup id m.instances)) [
    | inl e ↦ rw e c
    | inr (pi, e) ↦ elim (Result-cases (update_upstream w str pi)) [
      | inl (pi', u) ↦ rw e (rw u (update_upstream-IsConsistent s m id str pi pi' e u c))
      | inr (x, u) ↦ rw e (rw u c)
    ]
  ]

  -- A switch that succeeds leaves the instance, if there is one, with a dialer for the new upstream.
  switch_upstream-ok :
      (switch_upstream w id str (lookup id m.instances) m).0 ≡ ok tt
      → (pi : ProxyInstance w)
      → lookup id (switch_upstream w id str (lookup id m.instances) m).1.instances ≡ some pi
      → dialer_for w str pi.service_type ≡ ok pi.dialer
  unfolding switch_upstream
  switch_upstream-ok h pi l = elim (Option-cases (lookup id m.instances)) [
    | inl e ↦ ground arith
    | inr (pi₀, e) ↦ elim (Result-cases (update_upstream w str pi₀)) [
      | inl (pi', u) ↦
          ground (arith, lookup-insert id id pi' m.instances, update_upstream-dials w str pi₀ pi' u)
      | inr (x, u) ↦ ground arith
    ]
  ]

  -- A switch to an upstream that has no dialer fails and changes nothing.
  switch_upstream_refused :
      (pi : ProxyInstance w) (e : String)
      → lookup id m.instances ≡ some pi
      → dialer_for w str pi.service_type ≡ err e
      → ((switch_upstream w id str (lookup id m.instances) m).0 ≢ ok tt)
        × ((switch_upstream w id str (lookup id m.instances) m).1 ≡ m)
  unfolding switch_upstream
  switch_upstream_refused pi e l d = elim (Result-cases (update_upstream w str pi)) [
    | inl (pi', u) ↦ absurd (ground (arith, update_upstream-dials w str pi pi' u))
    | inr (x, u) ↦ (ground arith, ground arith)
  ]

  pub switch_upstream-db : (switch_upstream w id str (lookup id m.instances) m).1.db ≡ m.db
  unfolding switch_upstream
  switch_upstream-db = ground arith

module _ {w : World} (s : Sqlite w) (id : ℕ) (key : String) (min_time : ℤ)
    (service : ProxyService w.Env) (m : Manager w) where
  -- the manager after the UPDATE statement
  abbrev pub updating : ProxyInfo × Time × Time → Result (Unit {0}) × w.Db
  updating (info, last, t) =
      w.update_proxy info.proxy_str min_time last id (fetch w service key m).1.db

  abbrev pub updated : ProxyInfo × Time × Time → Manager w
  updated x = record ((fetch w service key m).1) { db = (updating x).1 }

  abbrev pub switched : ProxyInfo × Time × Time → Result (Unit {0}) × Manager w
  switched x =
      switch_upstream w id (x.0.proxy_str) (lookup id (fetch w service key m).1.instances)
        (updated x)

  pub update-fetch-err :
      (e : String)
      → (fetch w service key m).0 ≡ err e
      → update_existing_proxy w id key min_time service m ≡ (err e, (fetch w service key m).1)
  unfolding update_existing_proxy
  update-fetch-err e h = ground arith

  pub update-refused :
      (x : ProxyInfo × Time × Time) (e : String)
      → (fetch w service key m).0 ≡ ok x
      → (updating x).0 ≡ err e
      → (update_existing_proxy w id key min_time service m).1 ≡ updated x
  unfolding update_existing_proxy
  update-refused (info, last, t) e h k = ground arith

  -- Neither the switch's error nor the last SELECT changes the manager further.
  pub update-switched :
      (x : ProxyInfo × Time × Time)
      → (fetch w service key m).0 ≡ ok x
      → (updating x).0 ≡ ok tt
      → (update_existing_proxy w id key min_time service m).1 ≡ (switched x).1
  unfolding update_existing_proxy get_proxy_by_id
  update-switched (info, last, t) h k = ground arith

  update-switched-ok :
      (x : ProxyInfo × Time × Time) (p : Proxy)
      → (fetch w service key m).0 ≡ ok x
      → (updating x).0 ≡ ok tt
      → (update_existing_proxy w id key min_time service m).0 ≡ ok p
      → (switched x).0 ≡ ok tt
  unfolding update_existing_proxy
  update-switched-ok (info, last, t) p h k r = elim (Result-cases (switched (info, last, t)).0) [
    | inl (tt, e) ↦ e
    | inr (y, e) ↦ absurd (ground arith)
  ]

  updated-IsConsistent :
      (x : ProxyInfo × Time × Time) → IsConsistent s m → IsConsistent s (updated x)
  updated-IsConsistent (info, last, t) c =
      let m₁ = (fetch w service key m).1 in
      IsConsistent-mono s m₁ (updated (info, last, t)) refl
        (λ j ty h. types-update s info.proxy_str min_time last id m₁.db j ∙ h)
        (SameTables-IsConsistent s m m₁ (fetch-SameTables w service key m) c)

  pub update_existing_proxy-IsConsistent :
      IsConsistent s m → IsConsistent s (update_existing_proxy w id key min_time service m).1
  update_existing_proxy-IsConsistent c = elim (Result-cases (fetch w service key m).0) [
    | inr (e, h) ↦
        rw (update-fetch-err e h) (
          SameTables-IsConsistent s m (fetch w service key m).1 (fetch-SameTables w service key m)
            c)
    | inl (x, h) ↦ elim (Result-cases (updating x).0) [
      | inr (e, k) ↦ rw (update-refused x e h k) (updated-IsConsistent x c)
      | inl (tt, k) ↦
          rw (update-switched x h k) (
            switch_upstream-IsConsistent s id (x.0.proxy_str) (updated x)
              (updated-IsConsistent x c))
    ]
  ]
