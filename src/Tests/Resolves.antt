-- ===== src/Tests/Resolves.antt =====
-- Look-ups of names, by the resolvers and behind the dialers, at concrete inputs.
use go_forward_proxy.Base.{
  ℕ, String, ◌≡◌, refl, true, false, ◌&&◌, Option, none, some, List, [], ◌∷◌, str_eq, eq_refl,
  arith, if◌then◌else◌,
}
use go_forward_proxy.Base.Int.{pos, ◌+ℤ◌}
use go_forward_proxy.Base.Result.{Result, ok, err}
use go_forward_proxy.Base.Text.{one_of}
use go_forward_proxy.Dumbproxy.Dialers.Resolve.Literals.{
  Literals, only_literals, resolving_dial-only_literals,
}
use go_forward_proxy.Dumbproxy.Dialers.Resolve.{
  resolving_dial, ResolveNet, resolve_network, dial_each,
}
use go_forward_proxy.Dumbproxy.Dialers.Cached.{
  CacheKey, CacheValue, CacheNet, CachingDialer, CacheLaws, IsName, look_up, dial_value, dial_key,
  resolved, caching_dial, caching_dial-again,
}
use go_forward_proxy.Dumbproxy.Resolver.Fast.{
  fast_lookup, answers, count_of, some_ok, is_over, succeeds, fast_lookup-perm,
}
use mathlib.Core.List.Permᴰ.{swap}

-- the state is the time; names are resolved to themselves
abbrev resolve_net : ResolveNet
resolve_net = record {
  E = ℕ;
  Conn = String;
  Addr = String;
  next_dial = λ origin network address n. (ok address, n);
  wants_hostname = λ network address. false;
  split_host_port = λ address. ok (address, "443");
  join_host_port = λ host port. host;
  parse_addr = λ host. none;
  unmap = λ a. a;
  addr_text = λ a. a;
  lookup_net_ip = λ kind host n. (ok (host ∷ []), n);
  append_error = λ e x. x;
  quoted = λ s. s;
  error_text = λ e. "";
}

-- a cache of one entry
abbrev dialled : Result String × ℕ
dialled = (ok "example.org", 0)

abbrev dialled_later : Result String × ℕ
dialled_later = (ok "example.org", 59)

abbrev cache_net : CacheNet resolve_net
cache_net = record {
  Cache = Option (CacheKey × CacheValue String);
  now = λ n. (pos n, n);
  get_valid_or_delete = λ valid key cache n. elim cache [
    | none ↦ (none, none, n)
    | some (k, v) ↦
        let (b, n') = valid v n in
        if str_eq k.network key.network && str_eq k.host key.host
        then (if b then (some v, some (k, v), n') else (none, none, n'))
        else (none, some (k, v), n)
  ];
  set = λ key v cache. some (key, v);
  to_lower = λ s. s;
  lookup_within = λ timeout kind host n. ((host ∷ [], none), n);
}

abbrev caching_dialer : CachingDialer
caching_dialer = record { pos_ttl = pos 60; neg_ttl = pos 10; timeout = pos 5 }

cache_laws : CacheLaws resolve_net cache_net caching_dialer
cache_laws = record {
  get_set = λ key v cache n h. ground (arith, h, eq_refl key.network, eq_refl key.host);
}

abbrev key : CacheKey
key = record { network = "ip"; host = "example.org" }

named : IsName resolve_net cache_net caching_dialer "tcp" "example.org" "443" key
unfolding resolve_network one_of
named = record {
  host = "example.org";
  resolves = refl;
  parts = refl;
  no_literal = refl;
  kind = refl;
  lower = refl;
}

abbrev entry : CacheValue String
entry = record { expires = pos 60; addrs = "example.org" ∷ []; failure = none }

caching_dial-again_example :
    (dialled ≡ dial_value resolve_net cache_net caching_dialer "tcp" "example.org" "443" entry 0)
    × (◌≡◌ {A = Option (CacheKey × CacheValue String)} (some (key, entry)) (some (key, entry)))
    × (dialled_later
        ≡ dial_value resolve_net cache_net caching_dialer "tcp" "example.org" "443" entry 59)
unfolding look_up caching_dial dial_value dial_each resolve_network one_of ◌+ℤ◌ dial_key resolved
caching_dial-again_example =
    caching_dial-again resolve_net cache_net caching_dialer cache_laws "tcp" "example.org" "443"
      "tcp" "example.org" "443" key named named none none 0 0 59 refl refl

abbrev refused_first : List (Result (List String))
refused_first = err "refused" ∷ ok ("192.0.2.1" ∷ []) ∷ []

abbrev found_first : List (Result (List String))
found_first = ok ("192.0.2.1" ∷ []) ∷ err "refused" ∷ []

fast_lookup-perm_example :
    (is_over (fast_lookup (λ e m. m) 2 none (answers found_first)) ≡ true)
    × (succeeds (fast_lookup (λ e m. m) 2 none (answers found_first)) ≡ true)
unfolding count_of some_ok
fast_lookup-perm_example =
    fast_lookup-perm (λ e m. m) (err "refused") (ok ("192.0.2.1" ∷ []) ∷ []) found_first
      (swap refl refl)

-- every name has one address
abbrev literal_net : ResolveNet
literal_net = record resolve_net { addr_text = λ a. "192.0.2.1" }

abbrev literals : Literals literal_net
literals = record { is_literal = λ s. str_eq s "192.0.2.1"; joined = λ a port. refl }

abbrev panicking : Option String → String → String → ℕ → Result String × ℕ
panicking origin network address n = (err "a name was dialled", 1000)

resolving_dial-only_literals_example :
    resolving_dial (only_literals literal_net literals panicking) "tcp" "example.org" 0
    ≡ resolving_dial literal_net "tcp" "example.org" 0
resolving_dial-only_literals_example =
    resolving_dial-only_literals literal_net literals panicking "tcp" "example.org" 0 refl
