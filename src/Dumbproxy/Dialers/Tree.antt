-- ===== src/Dumbproxy/Dialers/Tree.antt =====
-- dialer/protect.go, fixed.go, chain.go and the constructors of dialer.go: dialers over dialers, and
-- which of them are to be given names and which addresses.
pub mod Names
use Prim.Native.String.{◌++◌}
use go_forward_proxy.Base.{
  ℕ, suc, String, ◌≡◌, refl, Bool, true, false, Option, none, some, List, [], ◌∷◌, str_eq, arith,
  if◌then◌else◌,
}
use go_forward_proxy.Base.Decimal.{format_nat}
use go_forward_proxy.Base.Result.{Result, ok, err, Exec}
use go_forward_proxy.Dumbproxy.Query.{values_of, parse_query}
use go_forward_proxy.Dumbproxy.Handler.Ends.{DialParams}
use go_forward_proxy.Dumbproxy.Access.{Filter}
use go_forward_proxy.Dumbproxy.Dialers.Resolve.{ResolveNet, resolving_dial, dial_each, map_unmap}

-- The calls: dialers without a method `WantsHostname`, with what they do by what the context carries;
-- and what resolving a name takes, where `next_dial` and
-- `wants_hostname` are those of the next dialer. The original destination, which resolving puts into
-- the context, is for scripts only.
pub record TreeNet : Type 1 where
  pub resolve : ResolveNet
  pub Leaf : Type 0
  pub leaf_dial : Leaf → DialParams → String → String → Exec resolve.E resolve.Conn

module _ (net : TreeNet) where
  -- The dialers that are made of others.
  pub data Dialer : Type 0 where
    leaf : net.Leaf → Dialer
    -- `WrappedHostnameDialer`
    wrapped_hostname : Bool → Dialer → Dialer
    -- `FixedDstDialer`
    fixed_dst : String → Dialer → Dialer
    -- `HintsSettingDialer`
    hints_setting : String → Dialer → Dialer
    -- `FilterDialer`
    filter : Filter → Dialer → Dialer
    -- `NameResolvingDialer`
    resolving : Dialer → Dialer

  -- the function `WantsHostname`, with the methods that it calls
  unfoldable pub wants_hostname : String → String → Dialer → Bool
  wants_hostname network address (leaf l) = false
  wants_hostname network address (wrapped_hostname value d) = value
  wants_hostname network address (fixed_dst addr d) = true
  wants_hostname network address (hints_setting hints d) = wants_hostname network address d
  wants_hostname network address (filter f d) = wants_hostname network address d
  wants_hostname network address (resolving d) = wants_hostname network address d

  -- `DialContext` of a dialer, by what the context carries
  abbrev pub Dial : Type 0
  Dial = DialParams → String → String → Exec net.resolve.E net.resolve.Conn

  -- what a resolving dialer works with
  abbrev pub over : (String → String → Bool) → Dial → DialParams → ResolveNet
  over wants dial params = record net.resolve {
    next_dial = λ origin network address. dial params network address;
    wants_hostname = wants;
  }

  -- by the error of the filter, which becomes `ErrAccessDenied`
  filtered :
      Option String
      → Result net.resolve.Conn × net.resolve.E
      → net.resolve.E
      → Result net.resolve.Conn × net.resolve.E
  filtered (some e) dialled env = (err ("access denied: " ++ e), env)
  filtered none dialled env = dialled

  unfoldable pub dial : Dialer → Dial
  unfolding filtered
  dial (leaf l) params network address env = net.leaf_dial l params network address env
  dial (wrapped_hostname value d) params network address env = dial d params network address env
  dial (fixed_dst addr d) params network address env = dial d params network addr env
  dial (hints_setting hints d) params network address env =
      dial d (record params { hints = some hints }) network address env
  dial (filter f d) params network address env =
      filtered (f params.request params.username network address)
        (dial d params network address env) env
  dial (resolving d) params network address env =
      resolving_dial (over (λ n a. wants_hostname n a d) (dial d) params) network address env

  -- whether a dialer has a method `WantsHostname`
  abbrev pub is_hostname_wanter : Dialer → Bool
  is_hostname_wanter (leaf l) = false
  is_hostname_wanter _ = true

  -- `MaybeWrapWithHostnameWanter`, with `AlwaysRequireHostname`
  unfoldable pub maybe_wrap_with_hostname_wanter : Dialer → Dialer
  maybe_wrap_with_hostname_wanter d = if is_hostname_wanter d then d else wrapped_hostname true d

  -- `NewFixedDstDialerFromURL`, by `Hostname` and `Port` of the URL
  unfoldable pub fixed_dst_from_url : String → String → Dialer → Result Dialer
  fixed_dst_from_url host port next =
      if str_eq host ""
      then err "missing hostname"
      else if str_eq port ""
      then err "missing port"
      else ok (fixed_dst (net.resolve.join_host_port host port) next)

  -- `ProxyDialerFromURL`, by `url.Parse` and by `FromURL` of golang.org/x/net/proxy, which calls the
  -- constructor that is registered for the scheme
  unfoldable pub proxy_dialer_from_url :
      {Url : Type 0} (parse : String → Result Url) (from_url : Url → Dialer → Result Dialer)
      → String
      → Dialer
      → Result Dialer
  proxy_dialer_from_url parse from_url proxy_url forward = elim (parse proxy_url) [
    | err e ↦ err ("unable to parse proxy URL: " ++ e)
    | ok u ↦ elim (from_url u forward) [
      | err e ↦ err (
          "unable to construct proxy dialer from URL " ++ net.resolve.quoted proxy_url ++ ": " ++ e)
      | ok d ↦ ok (maybe_wrap_with_hostname_wanter d)
    ]
  ]

  -- The loop of `ChainFromURL`, from an index on; `new` is `ProxyDialerFromURL`.
  unfoldable pub chain_from :
      (new : String → Dialer → Result Dialer) → ℕ → List String → Dialer → Result Dialer
  chain_from new i [] d = ok d
  chain_from new i (spec ∷ specs) d = elim (new spec d) [
    | err e ↦ err (
        "unable to construct proxy chain: proxy spec #"
        ++ format_nat (suc i)
        ++ " "
        ++ net.resolve.quoted spec
        ++ " construction failed: "
        ++ e)
    | ok d' ↦ chain_from new (suc i) specs d'
  ]

  unfoldable pub chain_from_url :
      (unescape : String → Result String) (new : String → Dialer → Result Dialer)
      → String
      → Dialer
      → Result Dialer
  chain_from_url unescape new raw_query base = elim (parse_query unescape raw_query) [
    | err e ↦ err e
    | ok params ↦ chain_from new 0 (values_of "next" params) base
  ]
