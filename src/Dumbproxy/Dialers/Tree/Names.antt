-- ===== src/Dumbproxy/Dialers/Tree/Names.antt =====
-- Which dialers are given the name that a client asks for, and which an address.
use go_forward_proxy.Base.{String, ◌≡◌, refl, true, arith}
use go_forward_proxy.Base.Result.{Result, ok}
use go_forward_proxy.Dumbproxy.Handler.Ends.{DialParams}
use go_forward_proxy.Dumbproxy.Dialers.Resolve.{resolving_dial}
use go_forward_proxy.Dumbproxy.Dialers.Tree.{
  TreeNet, Dialer, leaf, wrapped_hostname, resolving, wants_hostname, dial,
  maybe_wrap_with_hostname_wanter, proxy_dialer_from_url,
}

module _ (net : TreeNet) where
  -- The dialer that `ProxyDialerFromURL` makes of a proxy that says nothing on names, as one over
  -- HTTP, is given each text as the client asked for it, also behind a `NameResolvingDialer`: this
  -- program does not look up the names that an upstream is to reach.
  pub proxy_dialer_from_url-names :
      {Url : Type 0} (parse : String → Result Url)
      (from_url : Url → Dialer net → Result (Dialer net)) (proxy_url : String) (u : Url)
      (forward : Dialer net) (l : net.Leaf)
      → parse proxy_url ≡ ok u
      → from_url u forward ≡ ok (leaf l)
      → (d : Dialer net) × (proxy_dialer_from_url net parse from_url proxy_url forward ≡ ok d)
        × ((params : DialParams) (network address : String) (env : net.resolve.E)
            → dial net (resolving d) params network address env
              ≡ net.leaf_dial l params network address env)
  unfolding proxy_dialer_from_url maybe_wrap_with_hostname_wanter dial resolving_dial wants_hostname
  proxy_dialer_from_url-names parse from_url proxy_url u forward l p f =
      (wrapped_hostname true (leaf l), ground (arith, p, f), λ params network address env. refl)
