-- ===== src/Api/Stored.antt =====
-- What the answers of the handlers say about the state behind them.

use go_forward_proxy.Base.{ℕ, String, ◌≡◌, refl, sym, ap, ◌∙◌, inl, inr, some, arith, Option-cases}
use go_forward_proxy.Base.Int.{ℤ, uint, uint_lem}
use go_forward_proxy.Base.Dict.{lookup}
use go_forward_proxy.Base.Result.{Result, ok}
use go_forward_proxy.Services.Interface.{ProxyService}
use go_forward_proxy.Database.{Proxy}
use go_forward_proxy.World.{World}
use go_forward_proxy.World.Sqlite.{Sqlite}
use go_forward_proxy.Instance.{ProxyInstance}
use go_forward_proxy.Instance.Lifecycle.{dialer_for}
use go_forward_proxy.Manager.{Manager, upsert_proxy, update_existing_proxy, insert_new_proxy}
use go_forward_proxy.Manager.Invariant.{IsConsistent}
use go_forward_proxy.Manager.Insert.Outcome.{insert_new_proxy-ok}
use go_forward_proxy.Manager.Update.Outcome.{update_existing_proxy-ok, update_existing_proxy-keys}
use go_forward_proxy.Manager.Upsert.{upsert-inverse, upsert-inserts, upsert-updates}
use go_forward_proxy.Api.{UpsertProxyRequest, proxy, create_proxy}

module _ {w : World} (s : Sqlite w) (key ty : String) (min_time : ℤ) (m : Manager w) where
  abbrev upserted : Result Proxy × Manager w
  upserted = upsert_proxy w key ty min_time m

  -- The proxy is stored under its id with the key and interval that were asked for, and an
  -- instance that runs for it dials through the stored `proxy_str`.
  abbrev pub IsStored : Proxy → Manager w → Type 0
  IsStored p m' =
      (s.row m'.db p.id ≡ some p)
      × (p.api_key ≡ key)
      × (p.min_time_reset ≡ min_time)
      × ((pi : ProxyInstance w)
          → lookup p.id m'.instances ≡ some pi
          → dialer_for w p.proxy_str p.service_type ≡ ok pi.dialer)

  inserted-IsStored :
      (service : ProxyService w.Env) (p : Proxy)
      → (insert_new_proxy w key ty min_time service m).0 ≡ ok p
      → IsStored p (insert_new_proxy w key ty min_time service m).1
  inserted-IsStored service p h =
      let (key_eq, _, min_eq, _, _, rows, instances) =
        insert_new_proxy-ok s key ty min_time service m p h in
      (ground (arith, rows p.id), key_eq, min_eq, λ pi l. ((instances p.id pi l).0 refl).1)

  updated-IsStored :
      (service : ProxyService w.Env) (id : ℕ) (p : Proxy)
      → IsConsistent s m
      → w.select_id_by_key key m.db ≡ ok (some id)
      → (update_existing_proxy w (uint id) key min_time service m).0 ≡ ok p
      → IsStored p (update_existing_proxy w (uint id) key min_time service m).1
  updated-IsStored service id p c found h =
      let (old, there, key_eq) = s.select_id-some key m.db id found in
      let fits = uint_lem id (omega (arith, s.row-lt m.db id old there)) in
      let m' = (update_existing_proxy w (uint id) key min_time service m).1 in
      let (row_eq, min_eq, dials) =
        update_existing_proxy-ok s (uint id) key min_time service m p c h in
      let id_eq = s.row-id m'.db (uint id) p row_eq in
      let same = update_existing_proxy-keys s (uint id) key min_time service m (uint id) in
      let old_row = ap (λ i. s.row m.db i) fits ∙ there in
      (
        ap (λ i. s.row m'.db i) id_eq ∙ row_eq,
        ground (arith, row_eq, same, old_row, key_eq),
        min_eq,
        λ pi l. dials pi (ap (λ i. lookup i m'.instances) (sym id_eq) ∙ l),
      )

  -- An upsert that succeeds has stored the proxy that it returns.
  pub upsert_proxy-IsStored :
      (p : Proxy) → IsConsistent s m → upserted.0 ≡ ok p → IsStored p upserted.1
  upsert_proxy-IsStored p c h =
      let (service, found, e, sel) = upsert-inverse s key ty min_time m p h in
      elim (Option-cases found) [
        | inl absent ↦
            let eq = upsert-inserts s key ty min_time m service e (sel ∙ ap ok absent) in
            rw eq (inserted-IsStored service p (rw eq at h))
        | inr (id, present) ↦
            let eq = upsert-updates s key ty min_time m service id e (sel ∙ ap ok present) in
            rw eq (updated-IsStored service id p c (sel ∙ ap ok present) (rw eq at h))
      ]

module _ {w : World} (s : Sqlite w) (req : UpsertProxyRequest) (m : Manager w) where
  create_proxy-ok :
      (p : Proxy)
      → (create_proxy w (some req) m).0 ≡ record { status = 200; body = proxy p }
      → ((create_proxy w (some req) m).1
          ≡ (upsert_proxy w req.api_key req.service_type req.min_time_reset m).1)
        × ((upsert_proxy w req.api_key req.service_type req.min_time_reset m).0 ≡ ok p)
  unfolding create_proxy
  create_proxy-ok p h = ground arith

  -- Where the map and the table are consistent, a proxy that `POST /api/proxies` answers with 200 is
  -- in the table as it was returned, with the key and the interval that were asked for, and an
  -- instance that runs for it dials through the stored `proxy_str`.
  pub create_proxy-IsStored :
      (p : Proxy)
      → IsConsistent s m
      → (create_proxy w (some req) m).0 ≡ record { status = 200; body = proxy p }
      → IsStored s req.api_key req.service_type req.min_time_reset m p
          (create_proxy w (some req) m).1
  create_proxy-IsStored p c h =
      let (same, stored) = create_proxy-ok p h in
      rw same (upsert_proxy-IsStored s req.api_key req.service_type req.min_time_reset m p c stored)
