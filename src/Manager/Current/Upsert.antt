-- ===== src/Manager/Current/Upsert.antt =====
-- An upsert and a reset that succeed keep every instance on the stored upstream of its proxy.
use go_forward_proxy.Base.{ℕ, String, ◌≡◌, ◌≢◌, refl, sym, ap, ◌∙◌, inl, inr, arith, Option-cases}
use go_forward_proxy.Base.Int.{ℤ, uint}
use go_forward_proxy.Base.Dict.{lookup, lookup-insert}
use go_forward_proxy.Base.Result.{ok, Result-cases}
use go_forward_proxy.Services.Interface.{Time, ProxyInfo, ProxyService}
use go_forward_proxy.Database.{Proxy}
use go_forward_proxy.World.{World}
use go_forward_proxy.World.Sqlite.{Sqlite}
use go_forward_proxy.Instance.{update_upstream}
use go_forward_proxy.Manager.{
  Manager, fetch, switch_upstream, update_existing_proxy, insert_new_proxy, upsert_proxy,
}
use go_forward_proxy.Manager.Launch.{fetch-SameTables}
use go_forward_proxy.Manager.Invariant.{IsConsistent}
use go_forward_proxy.Manager.Update.{
  switch_upstream-db, updating, updated, switched, update-switched,
}
use go_forward_proxy.Manager.Update.Outcome.{update-inverse, update_existing_proxy-ok}
use go_forward_proxy.Manager.Insert.Outcome.{insert_new_proxy-ok}
use go_forward_proxy.Manager.Upsert.{upsert-inverse, upsert-inserts, upsert-updates}
use go_forward_proxy.Manager.Current.{IsCurrent, IsCurrent-except}

module _ {w : World} (id : ℕ) (str : String) (m : Manager w) where
  switch_upstream_others :
      (j : ℕ)
      → id ≢ j
      → lookup j (switch_upstream w id str (lookup id m.instances) m).1.instances
        ≡ lookup j m.instances
  unfolding switch_upstream
  switch_upstream_others j ne = elim (Option-cases (lookup id m.instances)) [
    | inl e ↦ ground arith
    | inr (pi, e) ↦ elim (Result-cases (update_upstream w str pi)) [
      | inl (pi', u) ↦ ground (arith, lookup-insert id j pi' m.instances)
      | inr (x, u) ↦ ground arith
    ]
  ]

module _ {w : World} (s : Sqlite w) (id : ℕ) (key : String) (min_time : ℤ)
    (service : ProxyService w.Env) (m : Manager w) where
  abbrev after : Manager w
  after = (update_existing_proxy w id key min_time service m).1

  updated_others :
      (x : ProxyInfo × Time × Time) (j : ℕ)
      → (updating s id key min_time service m x).0 ≡ ok tt
      → id ≢ j
      → let m' = (switched s id key min_time service m x).1 in
        (lookup j m'.instances ≡ lookup j m.instances) × (s.row m'.db j ≡ s.row m.db j)
  updated_others (info, last, t) j k ne =
      let m₁ = (fetch w service key m).1 in
      let (same, db_eq, _, _) = fetch-SameTables w service key m in
      let m₂ = updated s id key min_time service m (info, last, t) in
      (
        switch_upstream_others id info.proxy_str m₂ j ne ∙ ap (λ d. lookup j d) same,
        ground (
          arith,
          ap (λ d. s.row d j) (switch_upstream-db s id info.proxy_str m₂),
          s.update-ok info.proxy_str min_time last id m₁.db k j,
          ap (λ d. s.row d j) db_eq,
        ),
      )

  -- An update that succeeds changes one row and one instance at most.
  pub update_existing_proxy_others :
      (p : Proxy) (j : ℕ)
      → (update_existing_proxy w id key min_time service m).0 ≡ ok p
      → id ≢ j
      → (lookup j after.instances ≡ lookup j m.instances) × (s.row after.db j ≡ s.row m.db j)
  update_existing_proxy_others p j r ne =
      let (x, h, k, _, _) = update-inverse s id key min_time service m p r in
      rw (update-switched s id key min_time service m x h k) (updated_others x j k ne)

  update_existing_proxy-IsCurrent :
      (p : Proxy)
      → IsConsistent s m
      → (update_existing_proxy w id key min_time service m).0 ≡ ok p
      → IsCurrent s m
      → IsCurrent s after
  update_existing_proxy-IsCurrent p c r cur =
      let (there, _, dials) = update_existing_proxy-ok s id key min_time service m p c r in
      IsCurrent-except s m after id (λ pi l. ground (arith, there, dials pi l))
        (λ j ne.
          let (same, row_eq) = update_existing_proxy_others p j r ne in
          (λ pi l. sym same ∙ l, row_eq))
        cur

module _ {w : World} (s : Sqlite w) (key ty : String) (min_time : ℤ) (m : Manager w) where
  inserted-IsCurrent :
      (service : ProxyService w.Env) (p : Proxy)
      → (insert_new_proxy w key ty min_time service m).0 ≡ ok p
      → IsCurrent s m
      → IsCurrent s (insert_new_proxy w key ty min_time service m).1
  inserted-IsCurrent service p r cur =
      let (_, _, _, _, _, rows, instances) = insert_new_proxy-ok s key ty min_time service m p r in
      IsCurrent-except s m (insert_new_proxy w key ty min_time service m).1 p.id
        (λ pi l. ground (arith, rows p.id, ((instances p.id pi l).0 refl).1))
        (λ j ne. (λ pi l. (instances j pi l).1 ne, ground (arith, rows j))) cur

  -- Where the map and the table are consistent, an upsert that succeeds keeps every instance on the
  -- stored upstream of its proxy.
  pub upsert_proxy-IsCurrent :
      (p : Proxy)
      → IsConsistent s m
      → (upsert_proxy w key ty min_time m).0 ≡ ok p
      → IsCurrent s m
      → IsCurrent s (upsert_proxy w key ty min_time m).1
  upsert_proxy-IsCurrent p c h cur =
      let (service, found, e, sel) = upsert-inverse s key ty min_time m p h in
      elim (Option-cases found) [
        | inl absent ↦
            let eq = upsert-inserts s key ty min_time m service e (sel ∙ ap ok absent) in
            rw eq (inserted-IsCurrent service p (rw eq at h) cur)
        | inr (id, present) ↦
            let eq = upsert-updates s key ty min_time m service id e (sel ∙ ap ok present) in
            rw eq (
              update_existing_proxy-IsCurrent s (uint id) key min_time service m p c (rw eq at h)
                cur)
      ]
