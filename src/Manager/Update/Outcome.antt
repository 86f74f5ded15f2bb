-- ===== src/Manager/Update/Outcome.antt =====
-- `updateExistingProxy`: what a success means, and what a switch that fails leaves.
use go_forward_proxy.Base.{ℕ, String, ◌≡◌, ap, ◌∙◌, ◌≢◌, inl, inr, some, arith}
use go_forward_proxy.Base.Int.{ℤ}
use go_forward_proxy.Base.Dict.{lookup}
use go_forward_proxy.Base.Result.{ok, err, Result-cases}
use go_forward_proxy.Services.Interface.{ProxyInfo, ProxyService, Time}
use go_forward_proxy.Database.{Proxy}
use go_forward_proxy.World.{World}
use go_forward_proxy.World.Sqlite.{Sqlite, set_proxy}
use go_forward_proxy.World.Rows.{keys, keys-update}
use go_forward_proxy.Instance.{ProxyInstance}
use go_forward_proxy.Instance.Lifecycle.{dialer_for}
use go_forward_proxy.Manager.{Manager, fetch, get_proxy_by_id, update_existing_proxy}
use go_forward_proxy.Manager.Launch.{fetch-SameTables}
use go_forward_proxy.Manager.Invariant.{IsConsistent}
use go_forward_proxy.Manager.Update.{
  switch_upstream-ok, switch_upstream-db, switch_upstream_refused, updating, updated, switched,
  update-fetch-err, update-refused, update-switched, update-switched-ok,
  update_existing_proxy-IsConsistent,
}

module _ {w : World} (s : Sqlite w) (id : ℕ) (key : String) (min_time : ℤ)
    (service : ProxyService w.Env) (m : Manager w) where
  -- The steps of an update that succeeds.
  pub update-inverse :
      (p : Proxy)
      → (update_existing_proxy w id key min_time service m).0 ≡ ok p
      → (x : ProxyInfo × Time × Time) × ((fetch w service key m).0 ≡ ok x)
        × ((updating s id key min_time service m x).0 ≡ ok tt)
        × ((switched s id key min_time service m x).0 ≡ ok tt)
        × (w.select_by_id id (switched s id key min_time service m x).1.db ≡ ok p)
  unfolding update_existing_proxy get_proxy_by_id
  update-inverse p r = elim (Result-cases (fetch w service key m).0) [
    | inr (e, h) ↦ absurd (ground arith)
    | inl (x, h) ↦ elim (Result-cases (updating s id key min_time service m x).0) [
      | inr (e, k) ↦ absurd (ground arith)
      | inl (tt, k) ↦ (x, h, k, ground arith, ground arith)
    ]
  ]

  updated-row :
      (x : ProxyInfo × Time × Time) (p : Proxy)
      → (updating s id key min_time service m x).0 ≡ ok tt
      → w.select_by_id id (switched s id key min_time service m x).1.db ≡ ok p
      → (s.row (switched s id key min_time service m x).1.db id ≡ some p)
        × (p.min_time_reset ≡ min_time)
        × (p.proxy_str ≡ x.0.proxy_str)
  updated-row (info, last, t) p k sel =
      let m₁ = (fetch w service key m).1 in
      let there =
        s.select_by_id-ok id (switched s id key min_time service m (info, last, t)).1.db p sel in
      let same =
        switch_upstream-db s id info.proxy_str
          (updated s id key min_time service m (info, last, t)) in
      let set = s.update-ok info.proxy_str min_time last id m₁.db k id in
      (there, ground (arith, there, same, set), ground (arith, there, same, set))

  -- Where the map and the table are consistent, an update that succeeds returns the row as it is
  -- then, with the interval that was asked for, and a running instance of the proxy dials through
  -- the `proxy_str` of that row.
  pub update_existing_proxy-ok :
      (p : Proxy)
      → IsConsistent s m
      → (update_existing_proxy w id key min_time service m).0 ≡ ok p
      → let m' = (update_existing_proxy w id key min_time service m).1 in
        (s.row m'.db id ≡ some p)
        × (p.min_time_reset ≡ min_time)
        × ((pi : ProxyInstance w)
            → lookup id m'.instances ≡ some pi
            → dialer_for w p.proxy_str p.service_type ≡ ok pi.dialer)
  update_existing_proxy-ok p c r =
      let (x, h, k, sw, sel) = update-inverse p r in
      let same = update-switched s id key min_time service m x h k in
      let (there, min_eq, str_eq) = updated-row x p k sel in
      (
        rw same there,
        min_eq,
        λ pi l.
            let typed =
              (update_existing_proxy-IsConsistent s id key min_time service m c).at id pi l in
            let dials =
              switch_upstream-ok s id (x.0.proxy_str) (updated s id key min_time service m x) sw pi
                (rw same at l) in
            let typed' = rw same at (typed.1) in
            let ty_eq : p.service_type ≡ pi.service_type = ground (arith, typed', there) in
            rw (str_eq, ty_eq) dials,
      )

  updated-keys :
      (x : ProxyInfo × Time × Time) (j : ℕ)
      → keys s (updating s id key min_time service m x).1 j ≡ keys s (fetch w service key m).1.db j
  updated-keys (info, last, t) j =
      keys-update s info.proxy_str min_time last id (fetch w service key m).1.db j

  -- An update, whatever its result, changes no key.
  pub update_existing_proxy-keys :
      (j : ℕ) → keys s (update_existing_proxy w id key min_time service m).1.db j ≡ keys s m.db j
  update_existing_proxy-keys j =
      let same = ap (λ d. keys s d j) ((fetch-SameTables w service key m).1) in
      elim (Result-cases (fetch w service key m).0) [
        | inr (e, h) ↦ rw (update-fetch-err s id key min_time service m e h) same
        | inl (x, h) ↦ elim (Result-cases (updating s id key min_time service m x).0) [
          | inr (e, k) ↦
              rw (update-refused s id key min_time service m x e h k) (updated-keys x j ∙ same)
          | inl (tt, k) ↦ rw (update-switched s id key min_time service m x h k) (
              ap (λ d. keys s d j)
                (switch_upstream-db s id (x.0.proxy_str) (updated s id key min_time service m x))
              ∙ updated-keys x j
              ∙ same)
        ]
      ]

  -- Where the service gave a proxy and the UPDATE succeeds, an update whose `proxy_str` the running
  -- instance has no dialer for, as where another type of service was asked for, fails: the row, if
  -- there is one, has the new `proxy_str`, interval and time, and the instance is the old one.
  pub update_existing_proxy_torn :
      (x : ProxyInfo × Time × Time) (pi : ProxyInstance w) (e : String)
      → (fetch w service key m).0 ≡ ok x
      → (updating s id key min_time service m x).0 ≡ ok tt
      → lookup id m.instances ≡ some pi
      → dialer_for w (x.0.proxy_str) pi.service_type ≡ err e
      → let (r, m') = update_existing_proxy w id key min_time service m in
        ((p : Proxy) → r ≢ ok p)
        × (s.row m'.db id ≡ set_proxy (x.0.proxy_str) min_time (x.1) (s.row m.db id))
        × (lookup id m'.instances ≡ some pi)
  update_existing_proxy_torn (info, last, t) pi e h k l d =
      let m₁ = (fetch w service key m).1 in
      let (same, db_eq, _, _) = fetch-SameTables w service key m in
      let x : ProxyInfo × Time × Time = (info, last, t) in
      let there = ap (λ i. lookup id i) same ∙ l in
      let (refused, kept) =
        switch_upstream_refused s id info.proxy_str (updated s id key min_time service m x) pi e
          there d in
      (
        λ p r. refused (update-switched-ok s id key min_time service m x p h k r),
        ap (λ z. s.row z.db id) (update-switched s id key min_time service m x h k ∙ kept)
            ∙ ground (
              arith,
              s.update-ok info.proxy_str min_time last id m₁.db k id,
              ap (λ d. s.row d id) db_eq,
            ),
        ap (λ z. lookup id z.instances) (update-switched s id key min_time service m x h k ∙ kept)
            ∙ there,
      )
