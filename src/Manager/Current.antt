-- ===== src/Manager/Current.antt =====
-- Which upstream the running instances dial: after a start, and after a call that succeeds, it is
-- the one that the row of the proxy names.
pub mod Upsert
use go_forward_proxy.Base.{
  ℕ, ◌≡◌, ◌≢◌, ◌==◌, Bool-cases, sym, ap, ◌∙◌, inl, inr, none, some, Option, arith, List, [], ◌∷◌,
}
use go_forward_proxy.Base.Dict.{lookup, lookup-nil}
use go_forward_proxy.Base.Result.{Result, ok, err, Result-cases}
use go_forward_proxy.Database.{Proxy}
use go_forward_proxy.World.{World}
use go_forward_proxy.World.Sqlite.{Sqlite}
use go_forward_proxy.World.Rows.{row-delete_ne}
use go_forward_proxy.Instance.{ProxyInstance}
use go_forward_proxy.Instance.Lifecycle.{dialer_for}
use go_forward_proxy.Config.{Config}
use go_forward_proxy.Manager.{
  Manager, Services, new_manager, get_all_proxies, start_one, start_each, start_all, delete_proxy,
}
use go_forward_proxy.Manager.Delete.{delete_proxy-fields}
use go_forward_proxy.Manager.StartStop.{
  AreRows, start_one-db, start_one-failed, start_one-ok, get_all_proxies-AreRows, start_all-each,
  start_all-unread,
}

module _ {w : World} (s : Sqlite w) where
  -- the dialer for the upstream that a row names
  abbrev pub upstream_of : Option Proxy → Result w.Dialer
  upstream_of none = err "no row"
  upstream_of (some p) = dialer_for w p.proxy_str p.service_type

  -- Every instance dials through the `proxy_str` that is stored for its proxy.
  pub record IsCurrent (m : Manager w) : Type 0 where
    pub dials :
        (id : ℕ) (pi : ProxyInstance w)
        → lookup id m.instances ≡ some pi
        → upstream_of (s.row m.db id) ≡ ok pi.dialer

  -- Where all but one proxy have the row that they had, and an instance at most that they had.
  pub IsCurrent-except :
      (m m' : Manager w) (id : ℕ)
      → ((pi : ProxyInstance w)
          → lookup id m'.instances ≡ some pi
          → upstream_of (s.row m'.db id) ≡ ok pi.dialer)
      → ((j : ℕ)
          → id ≢ j
          → ((pi : ProxyInstance w)
              → lookup j m'.instances ≡ some pi
              → lookup j m.instances ≡ some pi)
            × (s.row m'.db j ≡ s.row m.db j))
      → IsCurrent m
      → IsCurrent m'
  IsCurrent-except m m' id here others c = record {
    dials = λ j pi l. elim (Bool-cases (id == j)) [
      | inl e ↦
          let same : id ≡ j = ground arith in
          ap (λ i. upstream_of (s.row m'.db i)) (sym same)
          ∙ here pi (ap (λ i. lookup i m'.instances) same ∙ l)
      | inr e ↦
          let (kept, row_eq) = others j (ground arith) in
          ap upstream_of row_eq ∙ c.dials j pi (kept pi l)
    ];
  }

  start_one-IsCurrent :
      (p : Proxy) (m : Manager w)
      → s.row m.db p.id ≡ some p
      → IsCurrent m
      → IsCurrent (start_one w p m).1
  start_one-IsCurrent p m there c = elim (Result-cases (start_one w p m).0) [
    | inr (e, h) ↦ record {
      dials = λ j q l.
          rw (start_one-db s p m)
            (c.dials j q (ap (λ d. lookup j d) (sym (start_one-failed s p m e h)) ∙ l));
    }
    | inl (tt, h) ↦ record {
      dials = λ j q l.
          rw (start_one-db s p m)
            (grind (arith, start_one-ok s p m j q h l, c.dials j q, ap upstream_of there));
    }
  ]

  start_each-IsCurrent :
      (ps : List Proxy) (m : Manager w)
      → AreRows (s.row m.db) ps
      → IsCurrent m
      → IsCurrent (start_each w ps m)
  unfolding start_each
  start_each-IsCurrent [] m h c = c
  start_each-IsCurrent (p ∷ ps) m h c =
      start_each-IsCurrent ps (start_one w p m).1 (rw (start_one-db s p m) (h.1))
        (start_one-IsCurrent p m (h.0) c)

  -- `StartAll` keeps every instance on the stored upstream of its proxy.
  pub start_all-IsCurrent : (m : Manager w) → IsCurrent m → IsCurrent (start_all w m).1
  start_all-IsCurrent m c = elim (Result-cases (get_all_proxies w m).0) [
    | inr (e, h) ↦ rw (start_all-unread s m e h) c
    | inl (ps, h) ↦
        rw (start_all-each s m ps h)
          (start_each-IsCurrent ps m (get_all_proxies-AreRows s m ps h) c)
  ]

  -- A new manager has no instances.
  pub new_manager-IsCurrent :
      (db : w.Db) (cfg : Config) (services : Services w) (env : w.Env)
      → IsCurrent (new_manager w db cfg services env)
  unfolding new_manager
  new_manager-IsCurrent db cfg services env = record {
    dials = λ id pi h. ground (arith, lookup-nil {V = ProxyInstance w} id);
  }

  -- `DeleteProxy`, on every branch, keeps every instance on the stored upstream of its proxy.
  pub delete_proxy-IsCurrent :
      (id : ℕ) (m : Manager w) → IsCurrent m → IsCurrent (delete_proxy w id m).1
  delete_proxy-IsCurrent id m c = record {
    dials = λ j pi h.
        let (gone, db_eq, _) = delete_proxy-fields w id m in
        ground (arith, gone j, ap (λ d. s.row d j) db_eq, row-delete_ne s id m.db j, c.dials j pi);
  }
