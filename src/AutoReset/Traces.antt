-- ===== src/AutoReset/Traces.antt =====
-- The loop of the auto-reset service runs through the steps of AutoReset/Steps: what these keep
-- holds of every state that the loop goes through, and after it.
use go_forward_proxy.Base.{
  ◌≡◌, String, inl, inr, none, some, arith, Option-cases, Bool-cases, List, [], ◌∷◌,
}
use go_forward_proxy.Base.Dict.{find}
use go_forward_proxy.Base.Result.{Result, ok, err, Result-cases}
use go_forward_proxy.Services.Interface.{Time, ProxyInfo, ProxyService}
use go_forward_proxy.Database.{Proxy}
use go_forward_proxy.World.{World}
use go_forward_proxy.Manager.{Manager, update_instance}
use go_forward_proxy.AutoReset.{
  Event, tick, done, needs_reset, reset_proxy, scanned, check_one, check_each,
  check_and_reset_proxies, run,
}
use go_forward_proxy.AutoReset.Steps.{Reach, here, next, outside, store, switch}

module _ {w : World} where
  pub Reach_trans : {a b c : Manager w} → Reach w a b → Reach w b c → Reach w a c
  Reach_trans r here = r
  Reach_trans r (next q st) = next (Reach_trans r q) st

  module _ (p : Proxy) (t : Time) (m : Manager w) where
    module _ (service : ProxyService w.Env) where
      abbrev pub fetched : Result ProxyInfo × w.Env
      fetched = service.get_new_proxy p.api_key m.env

      -- the service has been asked
      abbrev pub asked : Manager w
      asked = record m { env = fetched.1 }

      abbrev pub storing : ProxyInfo → Result (Unit {0}) × w.Db
      storing info = w.update_reset info.proxy_str t p.id m.db

      -- the UPDATE was sent
      abbrev pub stored : ProxyInfo → Manager w
      stored info = record asked { db = (storing info).1 }

      pub reset-unfetched :
          (e : String)
          → find p.service_type m.proxy_services ≡ some service
          → fetched.0 ≡ err e
          → (reset_proxy w p t m).1 ≡ asked
      unfolding reset_proxy
      reset-unfetched e f h = ground arith

      pub reset-unstored :
          (info : ProxyInfo) (e : String)
          → find p.service_type m.proxy_services ≡ some service
          → fetched.0 ≡ ok info
          → (storing info).0 ≡ err e
          → (reset_proxy w p t m).1 ≡ stored info
      unfolding reset_proxy
      reset-unstored info e f h k = ground arith

      -- Once the row is stored, what is left of a reset is the update of the instance.
      pub reset-updates :
          (info : ProxyInfo)
          → find p.service_type m.proxy_services ≡ some service
          → fetched.0 ≡ ok info
          → (storing info).0 ≡ ok tt
          → (reset_proxy w p t m).1 ≡ (update_instance w p.id info.proxy_str (stored info)).1
      unfolding reset_proxy
      reset-updates info f h k = ground arith

      stored-Reach : (info : ProxyInfo) → Reach w m (stored info)
      stored-Reach info =
          next (next here (outside m (fetched.1))) (store asked info.proxy_str t p.id)

    pub reset-unknown : find p.service_type m.proxy_services ≡ none → (reset_proxy w p t m).1 ≡ m
    unfolding reset_proxy
    reset-unknown e = ground arith

    -- A reset is the call of the service, the UPDATE and the switch, as far as it comes.
    pub reset_proxy-Reach : Reach w m (reset_proxy w p t m).1
    reset_proxy-Reach = elim (Option-cases (find p.service_type m.proxy_services)) [
      | inl e ↦ rw (reset-unknown e) here
      | inr (service, f) ↦ elim (Result-cases (fetched service).0) [
        | inr (e, h) ↦
            rw (reset-unfetched service e f h) (next here (outside m ((fetched service).1)))
        | inl (info, h) ↦ elim (Result-cases (storing service info).0) [
          | inr (e, k) ↦ rw (reset-unstored service info e f h k) (stored-Reach service info)
          | inl (tt, k) ↦
              rw (reset-updates service info f h k) (
                next (stored-Reach service info) (switch (stored service info) info.proxy_str p.id))
        ]
      ]
    ]

    check_one-Reach : Reach w m (check_one w t p m)
    unfolding check_one
    check_one-Reach = elim (Bool-cases (needs_reset w t p)) [
      | inl e ↦ rw e reset_proxy-Reach
      | inr e ↦ rw e here
    ]

  check_each-Reach : (t : Time) (ps : List Proxy) (m : Manager w) → Reach w m (check_each w t ps m)
  unfolding check_each
  check_each-Reach t [] m = here
  check_each-Reach t (p ∷ ps) m =
      Reach_trans (check_one-Reach p t m) (check_each-Reach t ps (check_one w t p m))

  pub checks-unread :
      (m : Manager w) (e : String) → w.select_all m.db ≡ err e → (check_and_reset_proxies w m).1 ≡ m
  unfolding check_and_reset_proxies
  checks-unread m e h = ground arith

  pub checks-each :
      (m : Manager w) (rs : List (Result Proxy))
      → w.select_all m.db ≡ ok rs
      → (check_and_reset_proxies w m).1
        ≡ check_each w ((w.now m.env).0) (scanned w rs) (record m { env = (w.now m.env).1 })
  unfolding check_and_reset_proxies
  checks-each m rs h = ground arith

  pub check_and_reset_proxies-Reach : (m : Manager w) → Reach w m (check_and_reset_proxies w m).1
  check_and_reset_proxies-Reach m = elim (Result-cases (w.select_all m.db)) [
    | inr (e, h) ↦ rw (checks-unread m e h) here
    | inl (rs, h) ↦ rw (checks-each m rs h) (
        Reach_trans (next here (outside m ((w.now m.env).1)))
          (check_each-Reach ((w.now m.env).0) (scanned w rs) (record m { env = (w.now m.env).1 })))
  ]

  -- Whatever events it receives, what the loop of the service does is steps of the program.
  pub run-Reach : (es : List Event) (m : Manager w) → Reach w m (run w es m)
  unfolding run
  run-Reach [] m = here
  run-Reach (done ∷ es) m = here
  run-Reach (tick ∷ es) m =
      Reach_trans (check_and_reset_proxies-Reach m) (run-Reach es (check_and_reset_proxies w m).1)
