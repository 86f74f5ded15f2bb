-- ===== src/Manager/StartStop.antt =====
-- `StartAll` and `StopAll`.
use go_forward_proxy.Base.{
  ℕ, String, ◌≡◌, refl, sym, ap, ◌∙◌, ◌≢◌, inl, inr, some, Option, arith, List, [], ◌∷◌,
}
use go_forward_proxy.Base.Dict.{lookup, lookup-insert, lookup-nil}
use go_forward_proxy.Base.Result.{Result, ok, err, Result-cases}
use go_forward_proxy.Database.{Proxy}
use go_forward_proxy.World.{World}
use go_forward_proxy.World.Sqlite.{Sqlite, Scanned}
use go_forward_proxy.Instance.{ProxyInstance, new_proxy_instance, start}
use go_forward_proxy.Instance.Lifecycle.{IsRunning, dialer_for, start-IsRunning}
use go_forward_proxy.Manager.{
  Manager, get_all_proxies, scan_all, start_one, start_each, start_all, stop_all,
}
use go_forward_proxy.Manager.Invariant.{IsConsistent}

-- Each of these proxies is a row of the table.
abbrev pub AreRows : (ℕ → Option Proxy) → List Proxy → Type 0
AreRows row [] = Unit
AreRows row (p ∷ ps) = (row p.id ≡ some p) × AreRows row ps

module _ {w : World} (s : Sqlite w) where
  -- `GetAllProxies` changes nothing, and what it returns are rows of the table.
  scan_all-AreRows :
      (row : ℕ → Option Proxy) (rs : List (Result Proxy)) (ps : List Proxy)
      → Scanned row rs
      → scan_all w rs ≡ ok ps
      → AreRows row ps
  unfolding scan_all
  scan_all-AreRows row [] [] h e = tt
  scan_all-AreRows row [] (q ∷ ps) h e = cc
  scan_all-AreRows row (err x ∷ rs) ps h e = ground arith
  scan_all-AreRows row (ok p ∷ rs) [] h e = ground arith
  scan_all-AreRows row (ok p ∷ rs) (q ∷ ps) h e = ground (arith, scan_all-AreRows row rs ps (h.1))

  pub get_all_proxies-AreRows :
      (m : Manager w) (ps : List Proxy) → (get_all_proxies w m).0 ≡ ok ps → AreRows (s.row m.db) ps
  unfolding get_all_proxies
  get_all_proxies-AreRows m ps h = elim (Result-cases (w.select_ordered m.db)) [
    | inl (rs, e) ↦
        scan_all-AreRows (s.row m.db) rs ps (s.select_ordered-ok m.db rs e) (ground arith)
    | inr (x, e) ↦ absurd (ground arith)
  ]

  pub get_all_proxies-same : (m : Manager w) → (get_all_proxies w m).1 ≡ m
  unfolding get_all_proxies
  get_all_proxies-same m = ground arith

  -- One round changes no row and no other instance; it leaves its own proxy with an instance that
  -- runs, or with what it had.
  pub start_one-db : (p : Proxy) (m : Manager w) → (start_one w p m).1.db ≡ m.db
  unfolding start_one
  start_one-db p m = ground arith

  pub start_one-failed :
      (p : Proxy) (m : Manager w) (e : String)
      → (start_one w p m).0 ≡ err e
      → (start_one w p m).1.instances ≡ m.instances
  unfolding start_one
  start_one-failed p m e h = ground arith

  -- A round that succeeds puts in an instance that runs.
  pub start_one-ok :
      (p : Proxy) (m : Manager w) (j : ℕ) (q : ProxyInstance w)
      → (start_one w p m).0 ≡ ok tt
      → lookup j (start_one w p m).1.instances ≡ some q
      → (p.id ≡ j
          → IsRunning w j q
            × (q.service_type ≡ p.service_type)
            × (dialer_for w p.proxy_str p.service_type ≡ ok q.dialer))
        × (p.id ≢ j → lookup j m.instances ≡ some q)
  unfolding start_one
  start_one-ok p m j q h l =
      let made = new_proxy_instance w p.id p.proxy_str p.service_type m.config m.env in
      elim (Result-cases made.0) [
        | inr (e, bad) ↦ ground arith
        | inl (pi, good) ↦ elim (Result-cases (start w pi made.1).0) [
          | inr (e, bad) ↦ ground arith
          | inl (pi', started) ↦ grind (
            arith,
            lookup-insert p.id j pi' m.instances,
            start-IsRunning w p.id p.proxy_str p.service_type m.config m.env made.1 pi pi' good
                started,
          )
        ]
      ]

  start_one-IsConsistent :
      (p : Proxy) (m : Manager w)
      → s.row m.db p.id ≡ some p
      → IsConsistent s m
      → IsConsistent s (start_one w p m).1
  start_one-IsConsistent p m there c = elim (Result-cases (start_one w p m).0) [
    | inr (e, h) ↦ record {
      at = λ j q l.
          rw (start_one-db p m)
            (c.at j q (ap (λ d. lookup j d) (sym (start_one-failed p m e h)) ∙ l));
    }
    | inl (tt, h) ↦ record {
      at = λ j q l. rw (start_one-db p m) (grind (arith, start_one-ok p m j q h l, c.at j q));
    }
  ]

  start_each-IsConsistent :
      (ps : List Proxy) (m : Manager w)
      → AreRows (s.row m.db) ps
      → IsConsistent s m
      → IsConsistent s (start_each w ps m)
  unfolding start_each
  start_each-IsConsistent [] m h c = c
  start_each-IsConsistent (p ∷ ps) m h c =
      start_each-IsConsistent ps (start_one w p m).1 (rw (start_one-db p m) (h.1))
        (start_one-IsConsistent p m (h.0) c)

  pub start_all-unread :
      (m : Manager w) (e : String) → (get_all_proxies w m).0 ≡ err e → (start_all w m).1 ≡ m
  unfolding start_all
  start_all-unread m e h = ground (arith, get_all_proxies-same m)

  pub start_all-each :
      (m : Manager w) (ps : List Proxy)
      → (get_all_proxies w m).0 ≡ ok ps
      → (start_all w m).1 ≡ start_each w ps m
  unfolding start_all
  start_all-each m ps h = ground (arith, get_all_proxies-same m)

  -- Starting all proxies, whichever of them fail, keeps the map and the table consistent.
  pub start_all-IsConsistent : (m : Manager w) → IsConsistent s m → IsConsistent s (start_all w m).1
  start_all-IsConsistent m c = elim (Result-cases (get_all_proxies w m).0) [
    | inr (e, h) ↦ rw (start_all-unread m e h) c
    | inl (ps, h) ↦
        rw (start_all-each m ps h) (start_each-IsConsistent ps m (get_all_proxies-AreRows m ps h) c)
  ]

  pub stop_all-IsConsistent : (m : Manager w) → IsConsistent s (stop_all w m).1
  unfolding stop_all
  stop_all-IsConsistent m = record {
    at = λ id pi h. ground (arith, lookup-nil {V = ProxyInstance w} id);
  }

  start_each-db : (ps : List Proxy) (m : Manager w) → (start_each w ps m).db ≡ m.db
  unfolding start_each
  start_each-db [] m = refl
  start_each-db (p ∷ ps) m = start_each-db ps (start_one w p m).1 ∙ start_one-db p m

  pub start_all-db : (m : Manager w) → (start_all w m).1.db ≡ m.db
  start_all-db m = elim (Result-cases (get_all_proxies w m).0) [
    | inr (e, h) ↦ rw (start_all-unread m e h)
    | inl (ps, h) ↦ rw (start_all-each m ps h) (start_each-db ps m)
  ]

  pub stop_all-db : (m : Manager w) → (stop_all w m).1.db ≡ m.db
  unfolding stop_all
  stop_all-db m = refl
