-- ===== src/Manager/Guards/Upsert.antt =====
-- `UpsertProxy` keeps the instances in the manager's map guarded.
use go_forward_proxy.Base.{ℕ, String, ◌≡◌, refl, ap, ◌∙◌, inl, inr, Option-cases}
use go_forward_proxy.Base.Int.{ℤ, uint}
use go_forward_proxy.Base.Dict.{find}
use go_forward_proxy.Base.Result.{ok, Result-cases}
use go_forward_proxy.Config.{Config}
use go_forward_proxy.Services.Interface.{ProxyService, ProxyInfo, Time}
use go_forward_proxy.World.{World}
use go_forward_proxy.World.Sqlite.{Sqlite}
use go_forward_proxy.Instance.{auth_url}
use go_forward_proxy.Manager.{Manager, fetch, insert_new_proxy, update_existing_proxy, upsert_proxy}
use go_forward_proxy.Manager.Insert.{
  new_row, inserting, inserted, insert-fetch-err, insert-launch, insert-failed, insert-refused,
}
use go_forward_proxy.Manager.Update.{
  updating, updated, update-fetch-err, update-refused, update-switched,
}
use go_forward_proxy.Manager.Upsert.{upsert-unknown, upsert-unread, upsert-inserts, upsert-updates}
use go_forward_proxy.Manager.Guards.{
  AreGuarded, AreGuarded-same, fetch-AreGuarded, launch_new-AreGuarded, switch_upstream-AreGuarded,
}

module _ {w : World} (s : Sqlite w) (made : w.Auth → Type 0) (cfg : Config)
    (makes : (a : w.Auth) (env : w.Env) → (w.new_auth (auth_url cfg) env).0 ≡ ok a → made a)
    (key : String) (min_time : ℤ) (m : Manager w) (g : AreGuarded made cfg m) where
  module _ (service : ProxyService w.Env) where
    fetched : AreGuarded made cfg (fetch w service key m).1
    fetched = fetch-AreGuarded made cfg service key m g

    inserted-AreGuarded :
        (ty : String) (x : ProxyInfo × Time × Time)
        → AreGuarded made cfg (inserted w key ty min_time service m x)
    inserted-AreGuarded ty x =
        AreGuarded-same made cfg (fetch w service key m).1 (inserted w key ty min_time service m x)
          refl refl fetched

    insert_new_proxy-AreGuarded :
        (ty : String) → AreGuarded made cfg (insert_new_proxy w key ty min_time service m).1
    insert_new_proxy-AreGuarded ty = elim (Result-cases (fetch w service key m).0) [
      | inr (e, h) ↦ rw (insert-fetch-err w key ty min_time service m e h) fetched
      | inl (x, h) ↦ elim (Result-cases (inserting w key ty min_time service m x).0) [
        | inr (e, k) ↦
            rw (insert-refused w key ty min_time service m x e h k) (inserted-AreGuarded ty x)
        | inl (r, k) ↦ elim (Result-cases r) [
          | inr (e, l) ↦
              rw (insert-failed w key ty min_time service m x e h (k ∙ ap ok l))
                (inserted-AreGuarded ty x)
          | inl (id, l) ↦ rw (insert-launch w key ty min_time service m x id h (k ∙ ap ok l)) (
              launch_new-AreGuarded made cfg makes id (new_row w key ty min_time service m id x)
                (inserted w key ty min_time service m x) (inserted-AreGuarded ty x))
        ]
      ]
    ]

    updated-AreGuarded :
        (id : ℕ) (x : ProxyInfo × Time × Time)
        → AreGuarded made cfg (updated s id key min_time service m x)
    updated-AreGuarded id x =
        AreGuarded-same made cfg (fetch w service key m).1 (updated s id key min_time service m x)
          refl refl fetched

    update_existing_proxy-AreGuarded :
        (id : ℕ) → AreGuarded made cfg (update_existing_proxy w id key min_time service m).1
    update_existing_proxy-AreGuarded id = elim (Result-cases (fetch w service key m).0) [
      | inr (e, h) ↦ rw (update-fetch-err s id key min_time service m e h) fetched
      | inl (x, h) ↦ elim (Result-cases (updating s id key min_time service m x).0) [
        | inr (e, k) ↦
            rw (update-refused s id key min_time service m x e h k) (updated-AreGuarded id x)
        | inl (tt, k) ↦ rw (update-switched s id key min_time service m x h k) (
            switch_upstream-AreGuarded made cfg id (x.0.proxy_str)
              (updated s id key min_time service m x) (updated-AreGuarded id x))
      ]
    ]

  pub upsert_proxy-AreGuarded :
      (ty : String) → AreGuarded made cfg (upsert_proxy w key ty min_time m).1
  upsert_proxy-AreGuarded ty = elim (Option-cases (find ty m.proxy_services)) [
    | inl e ↦ rw (upsert-unknown s key ty min_time m e) g
    | inr (service, e) ↦ elim (Result-cases (w.select_id_by_key key m.db)) [
      | inr (x, h) ↦ rw (upsert-unread s key ty min_time m service x e h) g
      | inl (found, h) ↦ elim (Option-cases found) [
        | inl absent ↦
            rw (upsert-inserts s key ty min_time m service e (h ∙ ap ok absent))
              (insert_new_proxy-AreGuarded service ty)
        | inr (id, present) ↦
            rw (upsert-updates s key ty min_time m service id e (h ∙ ap ok present))
              (update_existing_proxy-AreGuarded service (uint id))
      ]
    ]
  ]
