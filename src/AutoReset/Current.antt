-- ===== src/AutoReset/Current.antt =====
-- A reset that succeeds keeps every instance on the stored upstream of its proxy.
use go_forward_proxy.Base.{◌≡◌, sym, ◌∙◌, some, arith}
use go_forward_proxy.Instance.Lifecycle.{dialer_for}
use go_forward_proxy.Base.Dict.{find}
use go_forward_proxy.Base.Result.{ok}
use go_forward_proxy.Services.Interface.{Time, ProxyInfo, ProxyService}
use go_forward_proxy.Database.{Proxy}
use go_forward_proxy.World.{World}
use go_forward_proxy.World.Sqlite.{Sqlite}
use go_forward_proxy.Manager.{Manager}
use go_forward_proxy.Manager.Invariant.{IsConsistent}
use go_forward_proxy.Manager.Current.{IsCurrent, IsCurrent-except}
use go_forward_proxy.AutoReset.{reset_proxy}
use go_forward_proxy.AutoReset.Steps.{Reach-IsConsistent}
use go_forward_proxy.AutoReset.Traces.{reset_proxy-Reach}
use go_forward_proxy.AutoReset.Reset.{reset_proxy-ok}

module _ {w : World} (s : Sqlite w) (p : Proxy) (t : Time) (m : Manager w)
    (service : ProxyService w.Env) (info : ProxyInfo)
    (found : find p.service_type m.proxy_services ≡ some service)
    (fetched : (service.get_new_proxy p.api_key m.env).0 ≡ ok info) where
  abbrev m' : Manager w
  m' = (reset_proxy w p t m).1

  -- Where the map and the table are consistent, a reset that succeeds with a proxy that the service
  -- gave keeps every instance on the stored upstream of its proxy, whatever row it was decided by.
  pub reset_proxy-IsCurrent :
      IsConsistent s m → (reset_proxy w p t m).0 ≡ ok tt → IsCurrent s m → IsCurrent s m'
  reset_proxy-IsCurrent c h cur =
      let (rows, others, old, new, was, is, same_type, dials) =
        reset_proxy-ok s p t m service info found fetched h in
      let c' = Reach-IsConsistent s (reset_proxy-Reach p t m) c in
      IsCurrent-except s m m' p.id
        (λ pi l.
          let typed = (c'.at p.id pi l).1 in
          let dialled : dialer_for w info.proxy_str pi.service_type ≡ ok pi.dialer =
            ground (arith, is, l, same_type, dials) in
          ground (arith, rows p.id, typed, dialled))
        (λ j ne. (λ pi l. sym (others j ne) ∙ l, ground (arith, rows j))) cur
