-- ===== src/Dumbproxy/Forward/Limit.antt =====
-- forward/bwlimit.go: tunnels whose bytes are paid for with the tokens of a rate limiter, which the
-- tunnels of a group share. The package pkg/dumbproxy/rate is a copy of golang.org/x/time/rate: its
-- calls are parameters, as are those of the cache and of the scripts.
pub mod Paid
pub mod Counts
pub mod Shared
use Prim.Native.String.{◌++◌}
use go_forward_proxy.Base.{
  ℕ, zero, suc, ◌+◌, ◌-◌, String, Bool, true, not, ◌&&◌, ◌||◌, Option, none, some, List, ltb, leb,
  if◌then◌else◌,
}
use go_forward_proxy.Base.Dict.{Dict, lookup, insert}
use go_forward_proxy.Base.Int.{ℤ, pos, leb_ℤ}
use go_forward_proxy.Base.Result.{Result, ok, err, Exec}
use go_forward_proxy.Dumbproxy.Forward.{Event, Pair, paired, pair_connections}

abbrev pub copy_chunk_size : ℕ
copy_chunk_size = 131072

-- `LimitParameters`; a `float64` is a parameter
pub record LimitParameters (Float : Type 0) : Type 0 where
  pub upload_bps : Float
  pub upload_burst : ℤ
  pub download_bps : Float
  pub download_burst : ℤ
  pub group_key : Option String
  pub separate : Bool

pub record StaticLimitSpec : Type 0 where
  pub bps : ℕ
  pub burst : ℤ
  pub separate : Bool

pub record JsLimitSpec : Type 0 where
  pub filename : String
  pub instances : ℤ

-- `LimitSpec`: the kind, and the payload by its type.
pub data Payload : Type 0 where
  static_payload : StaticLimitSpec → Payload
  js_payload : JsLimitSpec → Payload
  other_payload : Payload

-- the kinds are `LimitKindStatic`, 1, and `LimitKindJS`, 2
pub record LimitSpec : Type 0 where
  pub kind : ℤ
  pub spec : Payload

-- The calls: `time.Now`; `NewLimiter`, `Tokens`, `Burst`, `ReserveN`, `OK`, `DelayFrom` and
-- `CancelAt` of the limiters; the `select` between a timer and the context, whose error is what ends
-- the wait early; `io.Copy` to a destination from a `LimitedReader` with so many bytes left to
-- take, which returns the bytes written, its error, and what the reader has left then; the map of
-- the cache, of pointers, where `set_locked` first drops some entries that are not valid.
pub record LimitNet : Type 1 where
  pub E : Type 0
  pub Time : Type 0
  pub now : E → Time × E
  pub Float : Type 0
  pub float64 : ℕ → Float
  pub ge : Float → Float → Bool
  pub int_to_float : ℤ → Float
  pub Limiter : Type 0
  pub new_limiter : Float → ℤ → E → Limiter × E
  pub tokens : Limiter → E → Float
  pub burst : Limiter → E → ℤ
  pub Reservation : Type 0
  pub reserve_n : Limiter → Time → ℕ → E → Reservation × E
  pub is_ok : Reservation → Bool
  pub delay_from : Reservation → Time → ℤ
  pub cancel_at : Reservation → Time → E → E
  pub wait : ℤ → E → Option String × E
  pub Dst : Type 0
  pub Src : Type 0
  pub io_copy : Dst → Src → ℕ → E → (ℕ × Option String × ℕ) × E
  pub Cache : Type 0
  pub get : String → Cache → Option ℕ
  pub set_locked : (valid : ℕ → Bool) → String → ℕ → Cache → Cache
  pub param_fn : String → String → String → Exec E (LimitParameters Float)
  pub new_js_limit_provider :
      String → ℤ → Exec E (String → String → String → Exec E (LimitParameters Float))
  pub type_name : String
  pub format_kind : ℤ → String
  pub quoted : String → String

abbrev pub is_positive : ℤ → Bool
is_positive d = leb_ℤ (pos 1) d

module _ (net : LimitNet) where
  abbrev pub LimitProvider : Type 0
  LimitProvider = String → String → String → Exec net.E (LimitParameters net.Float)

  static_provider : StaticLimitSpec → LimitProvider
  static_provider spec username network address env = (
    ok (record {
      upload_bps = net.float64 spec.bps;
      upload_burst = spec.burst;
      download_bps = net.float64 spec.bps;
      download_burst = spec.burst;
      group_key = some username;
      separate = spec.separate;
    }),
    env,
  )

  wrong_payload : Exec net.E LimitProvider
  wrong_payload env = (err ("incorrect payload type in BW limit spec: " ++ net.type_name), env)

  -- `ProviderFromSpec`
  unfoldable pub provider_from_spec : LimitSpec → Exec net.E LimitProvider
  unfolding static_provider wrong_payload
  provider_from_spec spec env = elim spec.kind [
    | pos (suc zero) ↦ elim spec.spec [
      | static_payload s ↦ (ok (static_provider s), env)
      | _ ↦ wrong_payload env
    ]
    | pos (suc (suc zero)) ↦ elim spec.spec [
      | js_payload j ↦ net.new_js_limit_provider j.filename j.instances env
      | _ ↦ wrong_payload env
    ]
    | kind ↦ (err ("unsupported BW limit kind " ++ net.format_kind kind), env)
  ]

  -- What `copy` returns, the bytes written and an error. No stream has 2 ^ 63 bytes, where the
  -- count, which nothing reads, would wrap.
  abbrev pub Copied : Type 0
  Copied = Option (ℕ × Option String) × net.E

  -- A round that wrote less than a chunk gives its tokens back, and takes those for what it wrote.
  unfoldable pub settle : net.Limiter → net.Time → net.Reservation → ℕ → net.E → net.E
  settle rl t r n env =
      let env₁ = net.cancel_at r t env in
      let (r', env₂) = net.reserve_n rl t n env₁ in
      if ltb n copy_chunk_size then (if ltb 0 n then env₂ else env₁) else env

  -- the end of a round, by the result of `io.Copy`; `next` is the rest of the loop
  unfoldable pub after_copy :
      (next : ℕ → net.E → Copied)
      → net.Limiter
      → net.Time
      → net.Reservation
      → ℕ
      → (ℕ × Option String × ℕ) × net.E
      → Copied
  after_copy next rl t r written ((n, some e, left), env) =
      (some (written + n, some e), settle rl t r n env)
  after_copy next rl t r written ((n, none, zero), env) = next (written + n) (settle rl t r n env)
  after_copy next rl t r written ((n, none, suc left), env) =
      (some (written + n, none), settle rl t r n env)

  unfoldable pub after_wait :
      (next : ℕ → net.E → Copied)
      → net.Limiter
      → net.Dst
      → net.Src
      → net.Time
      → net.Reservation
      → ℕ
      → Option String × net.E
      → Copied
  after_wait next rl dst src t r written (some e, env) = (some (written, some e), env)
  after_wait next rl dst src t r written (none, env) =
      after_copy next rl t r written (net.io_copy dst src copy_chunk_size env)

  unfoldable pub copy_round :
      (next : ℕ → net.E → Copied) → net.Limiter → net.Dst → net.Src → ℕ → net.E → Copied
  copy_round next rl dst src written env =
      let (t, env₁) = net.now env in
      let (r, env₂) = net.reserve_n rl t copy_chunk_size env₁ in
      let delay = net.delay_from r t in
      let waited = if is_positive delay then net.wait delay env₂ else (none, env₂) in
      if net.is_ok r
      then after_wait next rl dst src t r written waited
      else (some (written, some "can't get rate limit reservation"), env₂)

  -- `copy`, with so many rounds at most
  unfoldable pub copy_within : ℕ → net.Limiter → net.Dst → net.Src → ℕ → net.E → Copied
  copy_within zero rl dst src written env = (none, env)
  copy_within (suc n) rl dst src written env =
      copy_round (copy_within n rl dst src) rl dst src written env

  -- `cacheItem`; the lock is held by readers only, as an entry that the cache has locked is dropped
  pub record CacheItem : Type 0 where
    pub ul : net.Limiter
    pub dl : net.Limiter
    pub readers : ℕ

  -- The items by their pointers, the next pointer, and the cache of `BWLimit`.
  pub record Limits : Type 0 where
    pub items : Dict CacheItem
    pub next : ℕ
    pub cache : net.Cache

  -- a bucket that is full
  abbrev is_full : net.Limiter → net.E → Bool
  is_full rl env = net.ge (net.tokens rl env) (net.int_to_float (net.burst rl env))

  -- the function of `NewBWLimit`: an item that is read, or from which tokens are missing, is valid
  unfoldable pub is_valid : Dict CacheItem → net.E → ℕ → Bool
  is_valid items env p = elim (lookup p items) [
    | none ↦ true
    | some item ↦ ltb 0 item.readers || not (is_full item.ul env && is_full item.dl env)
  ]

  -- the number of readers of an item is changed
  unfoldable pub with_readers : (ℕ → ℕ) → ℕ → Dict CacheItem → Dict CacheItem
  with_readers f p items = elim (lookup p items) [
    | none ↦ items
    | some item ↦ insert p (record item { readers = f item.readers }) items
  ]

  -- `rLock` and `rUnlock`
  unfoldable pub r_lock : ℕ → Limits → Limits
  r_lock p s = record s { items = with_readers suc p s.items }

  unfoldable pub r_unlock : ℕ → Limits → Limits
  r_unlock p s = record s { items = with_readers (λ n. n - 1) p s.items }

  abbrev pub group_of : LimitParameters net.Float → String → String
  group_of params username = elim params.group_key [ none ↦ username | some key ↦ key ]

  -- `max(copyChunkSize, burst)`
  abbrev at_least_chunk : ℤ → ℤ
  at_least_chunk burst = if leb_ℤ burst (pos copy_chunk_size) then pos copy_chunk_size else burst

  -- the limiters for a group that is not in the cache
  unfoldable pub new_item : LimitParameters net.Float → net.E → CacheItem × net.E
  new_item params env =
      let (ul, env₁) = net.new_limiter params.upload_bps (at_least_chunk params.upload_burst) env in
      let (dl, env₂) =
        net.new_limiter params.download_bps (at_least_chunk params.download_burst) env₁ in
      if params.separate
      then (record { ul = ul; dl = dl; readers = 1 }, env₂)
      else (record { ul = ul; dl = ul; readers = 1 }, env₁)

  -- what follows the look-up in the cache
  unfoldable pub found_item :
      LimitParameters net.Float → String → Limits → net.E → Option ℕ → ℕ × Limits × net.E
  unfolding r_lock
  found_item params key s env (some p) = (p, r_lock p s, env)
  found_item params key s env none =
      let (item, env') = new_item params env in
      (
        s.next,
        record {
          items = insert s.next item s.items;
          next = suc s.next;
          cache = net.set_locked (is_valid s.items env') key s.next s.cache;
        },
        env',
      )

  -- what is done with the cache, under its lock
  unfoldable pub get_item : LimitParameters net.Float → String → Limits → net.E → ℕ × Limits × net.E
  unfolding found_item
  get_item params key s env = found_item params key s env (net.get key s.cache)

  -- `getRatelimiters`: the pointer of the item, which is locked for a reader
  unfoldable pub get_ratelimiters :
      String → String → String → Limits → net.E → Result ℕ × Limits × net.E
  get_ratelimiters username network address s env =
      let (params, env₁) = net.param_fn username network address env in
      elim params [
        | err e ↦ (err e, s, env₁)
        | ok ps ↦ let (p, s', env₂) = get_item ps (group_of ps username) s env₁ in (ok p, s', env₂)
      ]

  -- `PairConnections` of a `BWLimit`, by the events that its loop receives: its error, if it is over.
  -- Nothing else uses the limiters meanwhile; Shared has the steps of several tunnels.
  unfoldable pub limited_pair :
      String → String → String → List Event → Limits → net.E → Option String × Limits × net.E
  unfolding get_ratelimiters r_unlock
  limited_pair username network address events s env =
      let (found, s₁, env₁) = get_ratelimiters username network address s env in
      elim found [
        | err e ↦ (
          some (
              "ratelimit parameter computarion failed for user "
              ++ net.quoted username
              ++ ": "
              ++ e),
          s₁,
          env₁,
        )
        | ok p ↦ ((pair_connections paired events).failure, r_unlock p s₁, env₁)
      ]
