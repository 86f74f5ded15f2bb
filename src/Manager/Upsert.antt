-- ===== src/Manager/Upsert.antt =====
-- `UpsertProxy`: which of its two flows runs, and what a success means.
use go_forward_proxy.Base.{
  ℕ, String, ◌≡◌, ap, ◌∙◌, inl, inr, none, some, Option, arith, Option-cases,
}
use go_forward_proxy.Base.Int.{ℤ, uint}
use go_forward_proxy.Base.Dict.{find}
use go_forward_proxy.Base.Result.{Result, ok, err, Result-cases}
use go_forward_proxy.Services.Interface.{ProxyService}
use go_forward_proxy.Database.{Proxy}
use go_forward_proxy.World.{World}
use go_forward_proxy.World.Sqlite.{Sqlite}
use go_forward_proxy.Manager.{Manager, upsert_proxy, insert_new_proxy, update_existing_proxy}
use go_forward_proxy.Manager.Invariant.{IsConsistent}
use go_forward_proxy.Manager.Insert.{insert_new_proxy-IsConsistent}
use go_forward_proxy.Manager.Update.{update_existing_proxy-IsConsistent}

module _ {w : World} (s : Sqlite w) (key ty : String) (min_time : ℤ) (m : Manager w) where
  abbrev upserted : Result Proxy × Manager w
  upserted = upsert_proxy w key ty min_time m

  pub upsert-unknown : find ty m.proxy_services ≡ none → upserted.1 ≡ m
  unfolding upsert_proxy
  upsert-unknown e = ground arith

  pub upsert-unread :
      (service : ProxyService w.Env) (x : String)
      → find ty m.proxy_services ≡ some service
      → w.select_id_by_key key m.db ≡ err x
      → upserted.1 ≡ m
  unfolding upsert_proxy
  upsert-unread service x e h = ground arith

  pub upsert-inserts :
      (service : ProxyService w.Env)
      → find ty m.proxy_services ≡ some service
      → w.select_id_by_key key m.db ≡ ok none
      → upserted ≡ insert_new_proxy w key ty min_time service m
  unfolding upsert_proxy
  upsert-inserts service e h = ground arith

  pub upsert-updates :
      (service : ProxyService w.Env) (id : ℕ)
      → find ty m.proxy_services ≡ some service
      → w.select_id_by_key key m.db ≡ ok (some id)
      → upserted ≡ update_existing_proxy w (uint id) key min_time service m
  unfolding upsert_proxy
  upsert-updates service id e h = ground arith

  -- What an upsert that succeeds has read.
  pub upsert-inverse :
      (p : Proxy)
      → upserted.0 ≡ ok p
      → (service : ProxyService w.Env) × (found : Option ℕ) × (find ty m.proxy_services
          ≡ some service)
        × (w.select_id_by_key key m.db ≡ ok found)
  unfolding upsert_proxy
  upsert-inverse p h = elim (Option-cases (find ty m.proxy_services)) [
    | inl e ↦ absurd (ground arith)
    | inr (service, e) ↦ elim (Result-cases (w.select_id_by_key key m.db)) [
      | inr (x, k) ↦ absurd (ground arith)
      | inl (found, k) ↦ (service, found, e, k)
    ]
  ]

  -- An upsert, whatever its result, keeps the map and the table consistent.
  pub upsert_proxy-IsConsistent : IsConsistent s m → IsConsistent s upserted.1
  upsert_proxy-IsConsistent c = elim (Option-cases (find ty m.proxy_services)) [
    | inl e ↦ rw (upsert-unknown e) c
    | inr (service, e) ↦ elim (Result-cases (w.select_id_by_key key m.db)) [
      | inr (x, h) ↦ rw (upsert-unread service x e h) c
      | inl (found, h) ↦ elim (Option-cases found) [
        | inl absent ↦
            rw (upsert-inserts service e (h ∙ ap ok absent))
              (insert_new_proxy-IsConsistent s key ty min_time service m c)
        | inr (id, present) ↦
            rw (upsert-updates service id e (h ∙ ap ok present))
              (update_existing_proxy-IsConsistent s (uint id) key min_time service m c)
      ]
    ]
  ]
