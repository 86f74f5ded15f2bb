-- ===== src/Dumbproxy/Dialers/Cached.antt =====
-- dialer/rescache.go: `NameResolveCachingDialer`, which keeps what the resolver found.
use Prim.Native.String.{◌++◌}
use go_forward_proxy.Base.{
  String, ◌≡◌, ap, ◌∙◌, Bool, true, false, Option, none, some, List, not, arith, if◌then◌else◌,
}
use go_forward_proxy.Base.Int.{ℤ, ◌+ℤ◌, leb_ℤ}
use go_forward_proxy.Base.Result.{Result, ok, err, Exec}
use go_forward_proxy.Dumbproxy.Dialers.Resolve.{ResolveNet, resolve_network, map_unmap, dial_each}

-- `resolverCacheKey` and `resolverCacheValue`, with the error if there is one
pub record CacheKey : Type 0 where
  pub network : String
  pub host : String

pub record CacheValue (Addr : Type 0) : Type 0 where
  pub expires : ℤ
  pub addrs : List Addr
  pub failure : Option String

-- The further calls: the clock, the cache with its test for entries that are valid, `ToLower`, and
-- the resolver with a time limit, whose addresses beside an error are those that it has found.
pub record CacheNet (net : ResolveNet) : Type 1 where
  pub Cache : Type 0
  pub now : net.E → ℤ × net.E
  pub get_valid_or_delete :
      (valid : CacheValue net.Addr → net.E → Bool × net.E)
      → CacheKey
      → Cache
      → net.E
      → Option (CacheValue net.Addr) × Cache × net.E
  pub set : CacheKey → CacheValue net.Addr → Cache → Cache
  pub to_lower : String → String
  pub lookup_within : ℤ → String → String → net.E → (List net.Addr × Option String) × net.E

pub record CachingDialer : Type 0 where
  pub pos_ttl : ℤ
  pub neg_ttl : ℤ
  pub timeout : ℤ

-- `time.Now().Before(item.expires)`
abbrev pub is_before : ℤ → ℤ → Bool
is_before t expires = not (leb_ℤ expires t)

module _ (net : ResolveNet) (cn : CacheNet net) (d : CachingDialer) where
  -- the time to live of a result
  abbrev pub ttl : Option String → ℤ
  ttl none = d.pos_ttl
  ttl (some e) = d.neg_ttl

  -- the function that `Do` runs, where no other look-up of the key is under way
  unfoldable pub look_up : CacheKey → cn.Cache → net.E → CacheValue net.Addr × cn.Cache × net.E
  look_up key cache env =
      let ((found, failure), env₁) = cn.lookup_within d.timeout key.network key.host env in
      let (t, env₂) = cn.now env₁ in
      let item : CacheValue net.Addr = record {
        expires = t +ℤ ttl failure;
        addrs = map_unmap net found;
        failure = failure;
      } in
      (item, cn.set key item cache, env₂)

  -- what the cache has, or else the look-up
  unfoldable pub cached_or :
      CacheKey
      → Option (CacheValue net.Addr) × cn.Cache × net.E
      → CacheValue net.Addr × cn.Cache × net.E
  cached_or key (some v, cache, env) = (v, cache, env)
  cached_or key (none, cache, env) = look_up key cache env

  -- the function that the cache is made with: an entry is valid until it expires
  abbrev pub is_valid : CacheValue net.Addr → net.E → Bool × net.E
  is_valid v env = let (t, env') = cn.now env in (is_before t v.expires, env')

  unfoldable pub resolved : CacheKey → cn.Cache → net.E → CacheValue net.Addr × cn.Cache × net.E
  unfolding cached_or
  resolved key cache env = cached_or key (cn.get_valid_or_delete is_valid key cache env)

  -- what is done with the addresses of a name
  unfoldable pub dial_value : String → String → String → CacheValue net.Addr → Exec net.E net.Conn
  dial_value network address port v env = elim v.failure [
    | some e ↦ (err e, env)
    | none ↦ dial_each net network address port v.addrs none env
  ]

  abbrev pub Dialled : Type 0
  Dialled = Result net.Conn × cn.Cache × net.E

  keeping : cn.Cache → Result net.Conn × net.E → Dialled
  keeping cache (r, env) = (r, cache, env)

  -- the dial of a name, by the key of its cache entry
  unfoldable pub dial_key : String → String → String → CacheKey → cn.Cache → net.E → Dialled
  unfolding keeping
  dial_key network address port key cache env =
      let (v, cache', env') = resolved key cache env in
      keeping cache' (dial_value network address port v env')

  dial_cached_name : String → String → String → String → cn.Cache → net.E → Dialled
  dial_cached_name network address host port cache env = elim (resolve_network network) [
    | none ↦ (
      err (
          "resolving dial "
          ++ net.quoted address
          ++ ": unsupported network "
          ++ net.quoted network),
      cache,
      env,
    )
    | some kind ↦
        dial_key network address port (record { network = kind; host = cn.to_lower host }) cache env
  ]

  -- `DialContext`
  unfoldable pub caching_dial : String → String → cn.Cache → net.E → Dialled
  unfolding dial_cached_name keeping
  caching_dial network address cache env =
      if net.wants_hostname network address
      then keeping cache (net.next_dial none network address env)
      else elim (net.split_host_port address) [
        | err e ↦
            (err ("failed to extract host and port from " ++ address ++ ": " ++ e), cache, env)
        | ok (host, port) ↦ elim (net.parse_addr host) [
          | some addr ↦ keeping cache (
              net.next_dial none network (net.join_host_port (net.addr_text (net.unmap addr)) port)
                env)
          | none ↦ dial_cached_name network address host port cache env
        ]
      ]

  -- The address is a name with a port, to be resolved under the key.
  pub record IsName (network address port : String) (key : CacheKey) : Type 0 where
    pub host : String
    pub resolves : net.wants_hostname network address ≡ false
    pub parts : net.split_host_port address ≡ ok (host, port)
    pub no_literal : net.parse_addr host ≡ none
    pub kind : resolve_network network ≡ some key.network
    pub lower : cn.to_lower host ≡ key.host

  pub caching_dial-dial_key :
      (network address port : String) (key : CacheKey)
      → IsName network address port key
      → (cache : cn.Cache) (env : net.E)
      → caching_dial network address cache env ≡ dial_key network address port key cache env
  unfolding caching_dial dial_cached_name
  caching_dial-dial_key network address port key n cache env =
      ground (arith, n.resolves, n.parts, n.no_literal, n.kind, n.lower)

  -- What the cache promises: an entry that was set is found while it is valid.
  pub record CacheLaws : Type 0 where
    pub get_set :
        (key : CacheKey) (v : CacheValue net.Addr) (cache : cn.Cache) (env : net.E)
        → (is_valid v env).0 ≡ true
        → let (found, cache', env') =
            cn.get_valid_or_delete is_valid key (cn.set key v cache) env in
          (found ≡ some v) × (env' ≡ (is_valid v env).1)

  dial_key-missed :
      (network address port : String) (key : CacheKey) (cache cache₁ : cn.Cache) (env env₁ : net.E)
      → cn.get_valid_or_delete is_valid key cache env ≡ (none, cache₁, env₁)
      → let (v, cache₂, env₂) = look_up key cache₁ env₁ in
        let (r, cache₃, env₃) = dial_key network address port key cache env in
        ((r, env₃) ≡ dial_value network address port v env₂) × (cache₃ ≡ cache₂)
  unfolding dial_key keeping resolved cached_or
  dial_key-missed network address port key cache cache₁ env env₁ h = ground (arith, h)

  dial_key-found :
      (network address port : String) (key : CacheKey) (v : CacheValue net.Addr)
      (cache cache₁ : cn.Cache) (env env₁ : net.E)
      → cn.get_valid_or_delete is_valid key cache env ≡ (some v, cache₁, env₁)
      → let (r, cache₃, env₃) = dial_key network address port key cache env in
        (r, env₃) ≡ dial_value network address port v env₁
  unfolding dial_key keeping resolved cached_or
  dial_key-found network address port key v cache cache₁ env env₁ h = ground (arith, h)

  dial_key-again :
      CacheLaws
      → (network address port : String) (key : CacheKey) (cache : cn.Cache) (env env₂ : net.E)
      → let (v, cache₂, e) = look_up key cache env in
        is_before (cn.now env₂).0 v.expires ≡ true
        → let (r, cache₃, env₃) = dial_key network address port key cache₂ env₂ in
          (r, env₃) ≡ dial_value network address port v (cn.now env₂).1
  unfolding look_up
  dial_key-again laws network address port key cache env env₂ h =
      let v = (look_up key cache env).0 in
      let kept = cn.get_valid_or_delete is_valid key (look_up key cache env).1 env₂ in
      let found = laws.get_set key v cache env₂ h in
      dial_key-found network address port key v (look_up key cache env).1 kept.1 env₂ kept.2
        (ground (arith, found))
      ∙ ap (dial_value network address port v) (found.1)

  -- A name that is not in the cache is looked up, and dialled by what was found or fails with the
  -- error. Until that expires, after `posTTL` for addresses and `negTTL` for an error, any address
  -- with the same name, in upper or lower case, and the same family is dialled by it too, or fails so,
  -- with the clock read and the resolver not asked.
  pub caching_dial-again :
      CacheLaws
      → (network address port network₂ address₂ port₂ : String) (key : CacheKey)
      → IsName network address port key
      → IsName network₂ address₂ port₂ key
      → (cache cache₁ : cn.Cache) (env env₁ e : net.E)
      → cn.get_valid_or_delete is_valid key cache env ≡ (none, cache₁, env₁)
      → is_before (cn.now e).0 (look_up key cache₁ env₁).0.expires ≡ true
      → let (v, cache₂, env₂) = look_up key cache₁ env₁ in
        let (r, cache₃, env₃) = caching_dial network address cache env in
        let (r', cache₄, e') = caching_dial network₂ address₂ cache₃ e in
        ((r, env₃) ≡ dial_value network address port v env₂)
        × (cache₃ ≡ cache₂)
        × ((r', e') ≡ dial_value network₂ address₂ port₂ v (cn.now e).1)
  caching_dial-again laws network address port network₂ address₂ port₂ key n n₂ cache cache₁ env
        env₁ e miss h =
      let first = caching_dial-dial_key network address port key n cache env in
      let (dialled, kept) = dial_key-missed network address port key cache cache₁ env env₁ miss in
      let same : (caching_dial network address cache env).1 ≡ (look_up key cache₁ env₁).1 =
        ap (λ (x : Dialled). x.1) first ∙ kept in
      (
        ap (λ (x : Dialled). (x.0, x.2)) first ∙ dialled,
        same,
        ap (λ c. let (r', cache₄, e') = caching_dial network₂ address₂ c e in (r', e')) same
            ∙ ap (λ (x : Dialled). (x.0, x.2))
                (caching_dial-dial_key network₂ address₂ port₂ key n₂ (look_up key cache₁ env₁).1 e)
            ∙ dial_key-again laws network₂ address₂ port₂ key cache₁ env₁ e h,
      )
