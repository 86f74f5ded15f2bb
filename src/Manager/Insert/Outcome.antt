-- ===== src/Manager/Insert/Outcome.antt =====
-- `insertNewProxy`: what a success means, and what a failed launch leaves.
use go_forward_proxy.Base.{
  ℕ, String, ◌≡◌, refl, sym, ap, ◌∙◌, ◌≢◌, ◌⊎◌, inl, inr, none, some, arith, ◌==◌, if◌then◌else◌,
}
use go_forward_proxy.Base.Int.{ℤ}
use go_forward_proxy.Base.Dict.{lookup}
use go_forward_proxy.Base.Result.{Result, ok, err, Result-cases}
use go_forward_proxy.Services.Interface.{ProxyInfo, ProxyService, Time}
use go_forward_proxy.Database.{Proxy}
use go_forward_proxy.World.{World}
use go_forward_proxy.World.Sqlite.{Sqlite}
use go_forward_proxy.World.Rows.{keys, keys-insert, keys-delete}
use go_forward_proxy.Instance.{ProxyInstance}
use go_forward_proxy.Instance.Lifecycle.{IsRunning, dialer_for}
use go_forward_proxy.Manager.{Manager, fetch, launch_new, insert_new_proxy}
use go_forward_proxy.Manager.Launch.{
  fetch-SameTables, launch_new-err, launch_new-ok, launch_new-IsRunning,
}
use go_forward_proxy.Manager.Insert.{
  new_row, inserting, inserted, insert-fetch-err, insert-launch, insert-failed, insert-refused,
  inserted-id, inserted-row,
}

module _ {w : World} (s : Sqlite w) (key ty : String) (min_time : ℤ) (service : ProxyService w.Env)
    (m : Manager w) where
  abbrev pub outcome : Result Proxy × Manager w
  outcome = insert_new_proxy w key ty min_time service m

  -- The steps of an insert that succeeds.
  pub insert-inverse :
      (p : Proxy)
      → outcome.0 ≡ ok p
      → (x : ProxyInfo × Time × Time) × (id : ℕ) × ((fetch w service key m).0 ≡ ok x)
        × ((inserting w key ty min_time service m x).0 ≡ ok (ok id))
  unfolding insert_new_proxy
  insert-inverse p r = elim (Result-cases (fetch w service key m).0) [
    | inr (e, h) ↦ absurd (ground arith)
    | inl (x, h) ↦ elim (Result-cases (inserting w key ty min_time service m x).0) [
      | inr (e, k) ↦ absurd (ground arith)
      | inl (r', k) ↦ elim (Result-cases r') [
        | inr (e, l) ↦ absurd (ground arith)
        | inl (id, l) ↦ (x, id, h, k ∙ ap ok l)
      ]
    ]
  ]

  -- One row was added, under an id that no row had, and an instance under that id that runs and
  -- dials through the row's `proxy_str`. All other rows and instances are as they were.
  abbrev pub IsInserted : Proxy → Manager w → Type 0
  IsInserted p m' =
      (p.api_key ≡ key)
      × (p.service_type ≡ ty)
      × (p.min_time_reset ≡ min_time)
      × (s.row m.db p.id ≡ none)
      × (lookup p.id m'.instances ≢ none)
      × ((j : ℕ) → s.row m'.db j ≡ (if p.id == j then some p else s.row m.db j))
      × ((j : ℕ) (pi : ProxyInstance w)
          → lookup j m'.instances ≡ some pi
          → (p.id ≡ j → IsRunning w j pi × (dialer_for w p.proxy_str p.service_type ≡ ok pi.dialer))
            × (p.id ≢ j → lookup j m.instances ≡ some pi))

  launched-IsInserted :
      (x : ProxyInfo × Time × Time) (id : ℕ) (q : Proxy)
      → (inserting w key ty min_time service m x).0 ≡ ok (ok id)
      → let p = new_row w key ty min_time service m id x in
        let mid = inserted w key ty min_time service m x in
        (launch_new w id p mid).0 ≡ ok q → IsInserted p (launch_new w id p mid).1
  launched-IsInserted x id q k launched =
      let p = new_row w key ty min_time service m id x in
      let mid = inserted w key ty min_time service m x in
      let (is_next, fits) = inserted-id s key ty min_time service m x id k in
      let (_, db_eq, has) = launch_new-ok w id p mid q launched in
      let same = (fetch-SameTables w service key m).0 in
      (
        refl,
        refl,
        refl,
        ap (λ i. s.row m.db i) (fits ∙ is_next) ∙ s.row-next_id m.db,
        has,
        λ j.
            ap (λ d. s.row d j) db_eq
            ∙ inserted-row s key ty min_time service m x id k j
            ∙ ap (λ i. if i == j then some p else s.row m.db j) (sym fits),
        λ j pi l.
            let (new, old) = launch_new-IsRunning w id p mid q j pi launched l in
            (
              λ e. let (runs, _, dials) = new e in (runs, dials),
              λ ne. ap (λ d. lookup j d) (sym same) ∙ old ne,
            ),
      )

  -- An insert that succeeds has added the row that it returns, with the key, type and interval that
  -- were asked for, under an id that no row had, and an instance under that id that runs and dials
  -- through the row's `proxy_str`. All other rows are as they were, and no other instance is new or
  -- changed.
  pub insert_new_proxy-ok : (p : Proxy) → outcome.0 ≡ ok p → IsInserted p outcome.1
  insert_new_proxy-ok p r =
      let (x, id, h, k) = insert-inverse p r in
      let eq = insert-launch w key ty min_time service m x id h k in
      let row_new = new_row w key ty min_time service m id x in
      let mid = inserted w key ty min_time service m x in
      let launched : (launch_new w id row_new mid).0 ≡ ok p = rw eq at r in
      let same = (launch_new-ok w id row_new mid p launched).0 in
      rw eq (rw same (launched-IsInserted x id p k launched))

  -- Where the service gave a proxy and its row was inserted, an insert that then fails is rolled
  -- back: where the DELETE succeeds, every row and every instance is as it was before the insert.
  pub insert_new_proxy_rollback :
      (x : ProxyInfo × Time × Time) (id : ℕ) (e : String)
      → (fetch w service key m).0 ≡ ok x
      → (inserting w key ty min_time service m x).0 ≡ ok (ok id)
      → outcome.0 ≡ err e
      → (w.delete_proxy id (inserting w key ty min_time service m x).1).0 ≡ ok tt
      → (outcome.1.instances ≡ m.instances) × ((j : ℕ) → s.row outcome.1.db j ≡ s.row m.db j)
  insert_new_proxy_rollback x id e h k r d =
      let eq = insert-launch w key ty min_time service m x id h k in
      let row_new = new_row w key ty min_time service m id x in
      let mid = inserted w key ty min_time service m x in
      let failed : (launch_new w id row_new mid).0 ≡ err e = rw eq at r in
      let (kept, db_eq) = launch_new-err w id row_new mid e failed in
      let (is_next, _) = inserted-id s key ty min_time service m x id k in
      rw eq (
        kept ∙ (fetch-SameTables w service key m).0,
        λ j. ground (
          arith,
          ap (λ db. s.row db j) db_eq,
          s.delete-ok id (inserting w key ty min_time service m x).1 d j,
          inserted-row s key ty min_time service m x id k j,
          ap (λ i. s.row m.db i) is_next,
          s.row-next_id m.db,
        ),
      )

  inserted-keys :
      (x : ProxyInfo × Time × Time) (j : ℕ) (k : String)
      → keys s (inserting w key ty min_time service m x).1 j ≡ some k
      → (keys s m.db j ≡ some k) ⊎ ((s.next_id m.db ≡ j) × (key ≡ k))
  inserted-keys (info, last, t) j k h =
      let same = (fetch-SameTables w service key m).1 in
      rw (sym same)
        (keys-insert s info.proxy_str key ty min_time last t (fetch w service key m).1.db j k h)

  launched-keys :
      (x : ProxyInfo × Time × Time) (id j : ℕ) (k : String)
      → let p = new_row w key ty min_time service m id x in
        let mid = inserted w key ty min_time service m x in
        keys s (launch_new w id p mid).1.db j ≡ some k → keys s mid.db j ≡ some k
  launched-keys x id j k h =
      let p = new_row w key ty min_time service m id x in
      let mid = inserted w key ty min_time service m x in
      elim (Result-cases (launch_new w id p mid).0) [
        | inl (q, e) ↦ ap (λ d. keys s d j) (sym ((launch_new-ok w id p mid q e).1)) ∙ h
        | inr (x', e) ↦
            keys-delete s id mid.db j k
              (ap (λ d. keys s d j) (sym ((launch_new-err w id p mid x' e).1)) ∙ h)
      ]

  -- Whatever the result of an insert, the only new key is the one that was asked for.
  pub insert_new_proxy-keys :
      (j : ℕ) (k : String)
      → keys s outcome.1.db j ≡ some k
      → (keys s m.db j ≡ some k) ⊎ ((s.next_id m.db ≡ j) × (key ≡ k))
  insert_new_proxy-keys j k l = elim (Result-cases (fetch w service key m).0) [
    | inr (e, h) ↦ inl (
        ap (λ d. keys s d j) (sym ((fetch-SameTables w service key m).1))
        ∙ (rw (insert-fetch-err w key ty min_time service m e h) at l))
    | inl (x, h) ↦ elim (Result-cases (inserting w key ty min_time service m x).0) [
      | inr (e, q) ↦
          inserted-keys x j k (rw (insert-refused w key ty min_time service m x e h q) at l)
      | inl (r, q) ↦ elim (Result-cases r) [
        | inr (e, o) ↦
            inserted-keys x j k
              (rw (insert-failed w key ty min_time service m x e h (q ∙ ap ok o)) at l)
        | inl (id, o) ↦ inserted-keys x j k (
            launched-keys x id j k
              (rw (insert-launch w key ty min_time service m x id h (q ∙ ap ok o)) at l))
      ]
    ]
  ]
