-- ===== src/Dumbproxy/CertCache/Layers.antt =====
-- The caches over one another: in memory over an encrypted one over a Redis server.
use Prim.Native.String.{◌++◌}
use go_forward_proxy.Base.{
  ℕ, String, ◌≡◌, refl, ap, ◌∙◌, Bool, true, Option, none, some, inl, inr, arith, eq_refl, ◌⊎◌,
  if◌then◌else◌, Bool-cases,
}
use go_forward_proxy.Base.Int.{ℤ}
use go_forward_proxy.Base.Bytes.{Bytes}
use go_forward_proxy.Base.Result.{ok}
use go_forward_proxy.Dumbproxy.CertCache.{
  Store, Sealing, Memory, CertCacheValue, Redis, is_valid, local_get, local_put, fetched_from_next,
  local_cert_cache, encrypted_cache, redis_cache,
}
use go_forward_proxy.Dumbproxy.CertCache.Laws.{
  SealingLaws, IsStore, held_sealed, encrypted_cache-IsStore,
}
use go_forward_proxy.Dumbproxy.CertCache.Server.{
  RedisLaws, held_under, server_answers, redis_cache-IsStore,
}

-- What the map in memory promises: a value that was set is found while it is valid, and not after.
pub record MemoryLaws {E : Type 0} (mm : Memory E) : Type 0 where
  pub get_set :
      (valid : CertCacheValue → E → Bool × E) (key : String) (item : CertCacheValue)
      (cache : mm.Cache) (e : E)
      → let (found, cache', e') = mm.get_valid_or_delete valid key (mm.set key item cache) e in
        (found ≡ (if (valid item e).0 then some item else none)) × (e' ≡ (valid item e).1)

module _ {E : Type 0} (mm : Memory E) (laws : MemoryLaws mm) (ttl : ℤ) (next : Store E)
    (held : E → String → Option Bytes) (goes_through : E → Bool)
    (st : IsStore next held goes_through)
    (quiet : (e : E) (j : String) → held (mm.now e).1 j ≡ held e j)
    (stays : (e : E) → goes_through (mm.now e).1 ≡ goes_through e) where
  local_put-cache :
      (key : String) (content : Bytes) (cache : mm.Cache) (e : E)
      → (local_put mm ttl next key content (cache, e)).1.0
        ≡ mm.set key (record { ts = (mm.now e).0; res = ok content }) cache
  unfolding local_put
  local_put-cache key content cache e = refl

  local_get-set :
      (key : String) (item : CertCacheValue) (content : Bytes) (cache : mm.Cache) (later : E)
      → item.res ≡ ok content
      → goes_through later ≡ true
      → held later key ≡ some content
      → (local_get mm ttl next key (mm.set key item cache, later)).0 ≡ ok content
  unfolding local_get fetched_from_next
  local_get-set key item content cache later r up h =
      let (found, after) = laws.get_set (is_valid mm ttl next) key item cache later in
      elim (Bool-cases (is_valid mm ttl next item later).0) [
        | inl good ↦ ground (arith, found, good, r)
        | inr over ↦ ground (
          arith,
          found,
          over,
          after,
          st.get-through key content (mm.now later).1 (stays later ∙ up) (quiet later key ∙ h),
        )
      ]

  local_get-valid :
      (key : String) (item : CertCacheValue) (cache : mm.Cache) (later : E)
      → (is_valid mm ttl next item later).0 ≡ true
      → (local_get mm ttl next key (mm.set key item cache, later)).0 ≡ item.res
  unfolding local_get
  local_get-valid key item cache later h =
      let (found, after) = laws.get_set (is_valid mm ttl next) key item cache later in
      ground (arith, found, h)

  -- What was put is got back: for as long as its time to live, whatever became of the next cache,
  -- and also after that while the next cache holds it and its calls go through.
  pub local_get-put :
      (key : String) (content : Bytes) (cache : mm.Cache) (e later : E)
      → let item : CertCacheValue = record { ts = (mm.now e).0; res = ok content } in
        let kept = (local_put mm ttl next key content (cache, e)).1.0 in
        ((is_valid mm ttl next item later).0 ≡ true)
          ⊎ ((goes_through later ≡ true) × (held later key ≡ some content))
        → (local_get mm ttl next key (kept, later)).0 ≡ ok content
  unfolding local_put
  local_get-put key content cache e later h =
      let item : CertCacheValue = record { ts = (mm.now e).0; res = ok content } in
      elim h [
        | inl good ↦ local_get-valid key item cache later good
        | inr (up, there) ↦ local_get-set key item content cache later refl up there
      ]

  local_put-held :
      (key : String) (content : Bytes) (cache : mm.Cache) (e : E)
      → (local_put mm ttl next key content (cache, e)).0 ≡ ok tt
      → held (local_put mm ttl next key content (cache, e)).1.1 key ≡ some content
  unfolding local_put
  local_put-held key content cache e h =
      st.put-held key content (mm.now e).1 h key ∙ ground (arith, eq_refl key)

-- A cache in memory over an encrypted one over a Redis server, in the order in which
-- pkg/dumbproxy/main.go makes them.
abbrev pub layered :
    {E : Type 0} (mm : Memory (Bool × E)) (sl : Sealing (Bool × E)) (rd : Redis E)
    → ℤ
    → sl.Aead
    → rd.Client
    → String
    → Store (mm.Cache × (Bool × E))
layered mm sl rd ttl a r pfx = local_cert_cache mm ttl (encrypted_cache sl a (redis_cache rd r pfx))

module _ {E : Type 0} (mm : Memory (Bool × E)) (mm_laws : MemoryLaws mm) (sl : Sealing (Bool × E))
    (sl_laws : SealingLaws sl) (rd : Redis E) (stored : E → rd.Client → String → Option Bytes)
    (answers : E → Bool) (rd_laws : RedisLaws rd stored answers)
    (quiet_random : (n : ℕ) (s : Bool × E) (r : rd.Client) (key : String)
      → stored (sl.random n s).1.1 r key ≡ stored (s.1) r key)
    (quiet_clock : (s : Bool × E) (r : rd.Client) (key : String)
      → stored (mm.now s).1.1 r key ≡ stored (s.1) r key)
    (stays : (s : Bool × E) → answers (mm.now s).1.1 ≡ answers (s.1)) where
  -- Given what the map, the cipher and the server promise, and that neither the clock nor the random
  -- bytes change the server: after a `Put` without an error, at any later state of the outside in
  -- which the server answers and has under the key what it had when `Put` returned, `Get` returns
  -- what was put, whether the time to live is over or not.
  pub layered-get_put :
      (ttl : ℤ) (a : sl.Aead) (r : rd.Client) (pfx key : String) (content : Bytes)
      (cache : mm.Cache) (s later : Bool × E)
      → let st = layered mm sl rd ttl a r pfx in
        let (result, s') = st.put key content (cache, s) in
        result ≡ ok tt
        → answers (later.1) ≡ true
        → stored (later.1) r (pfx ++ key) ≡ stored (s'.1.1) r (pfx ++ key)
        → (st.get key (s'.0, later)).0 ≡ ok content
  layered-get_put ttl a r pfx key content cache s later done up same =
      let base = redis_cache rd r pfx in
      let next = encrypted_cache sl a base in
      let under = held_under rd stored answers r pfx in
      let works = server_answers rd stored answers in
      let holds = λ (x : Bool × E) (j : String). held_sealed sl a j (under x j) in
      let is_store =
        encrypted_cache-IsStore sl_laws a base under works
          (redis_cache-IsStore rd stored answers rd_laws r pfx)
          (λ n x j. quiet_random n x r (pfx ++ j)) in
      let quiet =
        λ (x : Bool × E) (j : String). ap (held_sealed sl a j) (quiet_clock x r (pfx ++ j)) in
      let put_held =
        local_put-held mm mm_laws ttl next holds works is_store quiet stays key content cache s
          done in
      local_get-put mm mm_laws ttl next holds works is_store quiet stays key content cache s later
        (inr (up, ap (held_sealed sl a key) same ∙ put_held))
