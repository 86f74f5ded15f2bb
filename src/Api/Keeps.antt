-- ===== src/Api/Keeps.antt =====
-- The handlers: which state they leave, and the answers to requests that they refuse.
use go_forward_proxy.Base.{ℕ, String, ◌≡◌, ◌⊎◌, inl, inr, none, some, Option, arith, Option-cases}
use go_forward_proxy.Base.Int.{uint}
use go_forward_proxy.Base.Decimal.{parse_uint32}
use go_forward_proxy.World.{World}
use go_forward_proxy.World.Sqlite.{Sqlite}
use go_forward_proxy.Manager.{Manager, upsert_proxy, delete_proxy}
use go_forward_proxy.Manager.Invariant.{IsConsistent}
use go_forward_proxy.Manager.Upsert.{upsert_proxy-IsConsistent}
use go_forward_proxy.Manager.Delete.{delete_proxy-IsConsistent}
use go_forward_proxy.Manager.StartStop.{get_all_proxies-same}
use go_forward_proxy.World.Rows.{HasUniqueKeys}
use go_forward_proxy.Manager.Keys.{upsert_proxy-HasUniqueKeys, delete_proxy-HasUniqueKeys}
use go_forward_proxy.Api.{
  UpsertProxyRequest, create_proxy, delete_proxy_handler, list_proxies, export_text, failure,
}
use go_forward_proxy.Api.Router.{Request, handle}

module _ (w : World) (m : Manager w) where
  pub create_proxy-state :
      (req : UpsertProxyRequest)
      → ((create_proxy w (some req) m).1 ≡ m)
        ⊎ ((create_proxy w (some req) m).1
            ≡ (upsert_proxy w req.api_key req.service_type req.min_time_reset m).1)
  unfolding create_proxy
  create_proxy-state req = ground arith

  pub delete_proxy_handler-bad :
      (id_str : String)
      → parse_uint32 id_str ≡ none
      → delete_proxy_handler w id_str m ≡ (failure 400 "Invalid proxy ID", m)
  unfolding delete_proxy_handler
  delete_proxy_handler-bad id_str h = ground arith

  pub delete_proxy_handler-state :
      (id_str : String) (id : ℕ)
      → parse_uint32 id_str ≡ some id
      → (delete_proxy_handler w id_str m).1 ≡ (delete_proxy w (uint id) m).1
  unfolding delete_proxy_handler
  delete_proxy_handler-state id_str id h = ground arith

module _ {w : World} (s : Sqlite w) where
  create_proxy-IsConsistent :
      (req : Option UpsertProxyRequest) (m : Manager w)
      → IsConsistent s m
      → IsConsistent s (create_proxy w req m).1
  unfolding create_proxy
  create_proxy-IsConsistent none m c = c
  create_proxy-IsConsistent (some req) m c = elim (create_proxy-state w m req) [
    | inl e ↦ rw e c
    | inr e ↦ rw e (upsert_proxy-IsConsistent s req.api_key req.service_type req.min_time_reset m c)
  ]

  delete_proxy_handler-IsConsistent :
      (id_str : String) (m : Manager w)
      → IsConsistent s m
      → IsConsistent s (delete_proxy_handler w id_str m).1
  delete_proxy_handler-IsConsistent id_str m c = elim (Option-cases (parse_uint32 id_str)) [
    | inl e ↦ rw (delete_proxy_handler-bad w m id_str e) c
    | inr (id, e) ↦
        rw (delete_proxy_handler-state w m id_str id e) (delete_proxy-IsConsistent s (uint id) m c)
  ]

  -- Every request keeps the map and the table consistent.
  pub handle-IsConsistent :
      (r : Request) (m : Manager w) → IsConsistent s m → IsConsistent s (handle w r m).1
  unfolding handle list_proxies export_text
  handle-IsConsistent (Request.create req) m c = create_proxy-IsConsistent req m c
  handle-IsConsistent (Request.delete id) m c = delete_proxy_handler-IsConsistent id m c
  handle-IsConsistent Request.list m c = rw (get_all_proxies-same s m) c
  handle-IsConsistent Request.export m c = rw (get_all_proxies-same s m) c

  create_proxy-HasUniqueKeys :
      (req : Option UpsertProxyRequest) (m : Manager w)
      → HasUniqueKeys s m.db
      → HasUniqueKeys s (create_proxy w req m).1.db
  unfolding create_proxy
  create_proxy-HasUniqueKeys none m u = u
  create_proxy-HasUniqueKeys (some req) m u = elim (create_proxy-state w m req) [
    | inl e ↦ rw e u
    | inr e ↦
        rw e (upsert_proxy-HasUniqueKeys s req.api_key req.service_type req.min_time_reset m u)
  ]

  delete_proxy_handler-HasUniqueKeys :
      (id_str : String) (m : Manager w)
      → HasUniqueKeys s m.db
      → HasUniqueKeys s (delete_proxy_handler w id_str m).1.db
  delete_proxy_handler-HasUniqueKeys id_str m u = elim (Option-cases (parse_uint32 id_str)) [
    | inl e ↦ rw (delete_proxy_handler-bad w m id_str e) u
    | inr (id, e) ↦
        rw (delete_proxy_handler-state w m id_str id e) (delete_proxy-HasUniqueKeys s (uint id) m u)
  ]

  -- Every request keeps the API keys unique.
  pub handle-HasUniqueKeys :
      (r : Request) (m : Manager w) → HasUniqueKeys s m.db → HasUniqueKeys s (handle w r m).1.db
  unfolding handle list_proxies export_text
  handle-HasUniqueKeys (Request.create req) m u = create_proxy-HasUniqueKeys req m u
  handle-HasUniqueKeys (Request.delete id) m u = delete_proxy_handler-HasUniqueKeys id m u
  handle-HasUniqueKeys Request.list m u = rw (get_all_proxies-same s m) u
  handle-HasUniqueKeys Request.export m u = rw (get_all_proxies-same s m) u
