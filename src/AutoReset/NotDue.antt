-- ===== src/AutoReset/NotDue.antt =====
-- A tick resets what is due, and nothing else.
use go_forward_proxy.Base.{
  ℕ, String, ◌≡◌, ◌≢◌, refl, ap, ◌∙◌, inl, inr, Option, some, false, arith, Option-cases,
  Bool-cases, List, [], ◌∷◌,
}
use go_forward_proxy.Base.Dict.{lookup, find, lookup-insert}
use go_forward_proxy.Base.Result.{Result, ok, err, Result-cases}
use go_forward_proxy.Services.Interface.{Time, ProxyInfo, ProxyService}
use go_forward_proxy.Database.{Proxy}
use go_forward_proxy.World.{World}
use go_forward_proxy.World.Sqlite.{Sqlite, Scanned}
use go_forward_proxy.Instance.{update_upstream}
use go_forward_proxy.Manager.{Manager, update_instance}
use go_forward_proxy.AutoReset.{
  needs_reset, reset_proxy, scanned, check_one, check_each, check_and_reset_proxies,
}
use go_forward_proxy.AutoReset.Traces.{
  fetched, storing, stored, reset-unfetched, reset-unstored, reset-updates, reset-unknown,
  checks-unread, checks-each,
}

module _ {w : World} (s : Sqlite w) (j : ℕ) where
  -- The row and the instance of the proxy `j` are the same.
  abbrev pub IsUntouched : Manager w → Manager w → Type 0
  IsUntouched m m' = (lookup j m'.instances ≡ lookup j m.instances) × (s.row m'.db j ≡ s.row m.db j)

  IsUntouched-trans : (a b c : Manager w) → IsUntouched a b → IsUntouched b c → IsUntouched a c
  IsUntouched-trans a b c h k = (k.0 ∙ h.0, k.1 ∙ h.1)

  update_instance-IsUntouched :
      (id : ℕ) (str : String) (m : Manager w)
      → id ≢ j
      → IsUntouched m (update_instance w id str m).1
  unfolding update_instance
  update_instance-IsUntouched id str m ne = elim (Option-cases (lookup id m.instances)) [
    | inl e ↦ ground arith
    | inr (pi, e) ↦ elim (Result-cases (update_upstream w str pi)) [
      | inl (pi', u) ↦ ground (arith, lookup-insert id j pi' m.instances)
      | inr (x, u) ↦ ground arith
    ]
  ]

  module _ (p : Proxy) (t : Time) (m : Manager w) (ne : p.id ≢ j) where
    stored-IsUntouched :
        (service : ProxyService w.Env) (info : ProxyInfo)
        → IsUntouched m (stored p t m service info)
    stored-IsUntouched service info = (
      refl,
      elim (Result-cases (storing p t m service info).0) [
        | inl (tt, k) ↦ ground (arith, s.reset-ok info.proxy_str t p.id m.db k j)
        | inr (e, k) ↦ s.reset-err info.proxy_str t p.id m.db e k j
      ],
    )

    -- A reset of another proxy, however it ends, leaves the proxy as it is.
    reset_proxy-IsUntouched : IsUntouched m (reset_proxy w p t m).1
    reset_proxy-IsUntouched = elim (Option-cases (find p.service_type m.proxy_services)) [
      | inl e ↦ rw (reset-unknown p t m e) (refl, refl)
      | inr (service, f) ↦ elim (Result-cases (fetched p t m service).0) [
        | inr (e, h) ↦ rw (reset-unfetched p t m service e f h) (refl, refl)
        | inl (info, h) ↦ elim (Result-cases (storing p t m service info).0) [
          | inr (e, k) ↦
              rw (reset-unstored p t m service info e f h k) (stored-IsUntouched service info)
          | inl (tt, k) ↦ rw (reset-updates p t m service info f h k) (
              IsUntouched-trans m (stored p t m service info)
                (update_instance w p.id info.proxy_str (stored p t m service info)).1
                (stored-IsUntouched service info)
                (update_instance-IsUntouched p.id info.proxy_str (stored p t m service info) ne))
        ]
      ]
    ]

  check_one-IsUntouched :
      (p : Proxy) (t : Time) (m : Manager w)
      → (p.id ≡ j → needs_reset w t p ≡ false)
      → IsUntouched m (check_one w t p m)
  unfolding check_one
  check_one-IsUntouched p t m h = elim (Bool-cases (needs_reset w t p)) [
    | inr e ↦ rw e (refl, refl)
    | inl e ↦ rw e (reset_proxy-IsUntouched p t m (λ same. ground (arith, h same)))
  ]

  -- each proxy of the list with the id `j` is not due
  NotDue : Time → List Proxy → Type 0
  NotDue t [] = Unit
  NotDue t (p ∷ ps) = (p.id ≡ j → needs_reset w t p ≡ false) × NotDue t ps

  check_each-IsUntouched :
      (t : Time) (ps : List Proxy) (m : Manager w)
      → NotDue t ps
      → IsUntouched m (check_each w t ps m)
  unfolding check_each NotDue
  check_each-IsUntouched t [] m h = (refl, refl)
  check_each-IsUntouched t (p ∷ ps) m h =
      IsUntouched-trans m (check_one w t p m) (check_each w t ps (check_one w t p m))
        (check_one-IsUntouched p t m (h.0)) (check_each-IsUntouched t ps (check_one w t p m) (h.1))

  scanned-NotDue :
      (q : Proxy) (t : Time) (row : ℕ → Option Proxy) (rs : List (Result Proxy))
      → row j ≡ some q
      → needs_reset w t q ≡ false
      → Scanned row rs
      → NotDue t (scanned w rs)
  unfolding scanned NotDue
  scanned-NotDue q t row [] there h all = tt
  scanned-NotDue q t row (err e ∷ rs) there h all = scanned-NotDue q t row rs there h all
  scanned-NotDue q t row (ok p ∷ rs) there h all =
      (λ same. ground (arith, ap row same, all.0), scanned-NotDue q t row rs there h (all.1))

  -- A tick leaves the row and the instance of a proxy that is not due at its time as they are, whatever
  -- the resets of the other proxies come to.
  pub check_and_reset_proxies_not_due :
      (q : Proxy) (m : Manager w)
      → s.row m.db j ≡ some q
      → needs_reset w ((w.now m.env).0) q ≡ false
      → IsUntouched m (check_and_reset_proxies w m).1
  check_and_reset_proxies_not_due q m there h = elim (Result-cases (w.select_all m.db)) [
    | inr (e, k) ↦ rw (checks-unread m e k) (refl, refl)
    | inl (rs, k) ↦ rw (checks-each m rs k) (
        check_each-IsUntouched ((w.now m.env).0) (scanned w rs) (record m { env = (w.now m.env).1 })
          (scanned-NotDue q ((w.now m.env).0) (s.row m.db) rs there h (s.select_all-ok m.db rs k)))
  ]
