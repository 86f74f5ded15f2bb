-- ===== src/Dumbproxy/CertCache/Server.antt =====
-- The cache on a Redis server keeps the promise of a cache.
use Prim.Native.String.{◌++◌}
use text.Mathlib.TextLemmas.{append_cancel_left}
use go_forward_proxy.Base.{
  String, ◌≡◌, Bool, true, Option, none, some, inl, inr, arith, str_eq, eq_iff, eq_refl,
  if◌then◌else◌, Bool-cases,
}
use go_forward_proxy.Base.Bytes.{Bytes}
use go_forward_proxy.Base.Result.{ok}
use go_forward_proxy.Dumbproxy.CertCache.{Redis, bytes, redis_cache, redis_cache_get}
use go_forward_proxy.Dumbproxy.CertCache.Laws.{IsStore}

-- What the server promises: `GET` returns what is stored, and does where the server answers, `SET`
-- and `DEL` without an error change what is stored under their key.
pub record RedisLaws {E : Type 0} (rd : Redis E) (stored : E → rd.Client → String → Option Bytes)
    (answers : E → Bool) : Type 0 where
  pub get-stored :
      (r : rd.Client) (key : String) (e : E) (b : Bytes)
      → (rd.redis_get r key e).0 ≡ bytes b
      → stored e r key ≡ some b
  pub get-answers :
      (r : rd.Client) (key : String) (e : E) (b : Bytes)
      → answers e ≡ true
      → stored e r key ≡ some b
      → (rd.redis_get r key e).0 ≡ bytes b
  pub get-keeps :
      (r : rd.Client) (key j : String) (e : E) → stored (rd.redis_get r key e).1 r j ≡ stored e r j
  pub set-stored :
      (r : rd.Client) (key : String) (b : Bytes) (e : E)
      → (rd.redis_set r key b e).0 ≡ ok tt
      → (j : String)
      → stored (rd.redis_set r key b e).1 r j ≡ (if str_eq key j then some b else stored e r j)
  pub del-stored :
      (r : rd.Client) (key : String) (e : E)
      → (rd.redis_del r key e).0 ≡ ok tt
      → (j : String)
      → stored (rd.redis_del r key e).1 r j ≡ (if str_eq key j then none else stored e r j)

prefix-eq : (pfx key j : String) → str_eq (pfx ++ key) (pfx ++ j) ≡ str_eq key j
prefix-eq pfx key j = elim (Bool-cases (str_eq key j)) [
  | inl e ↦ ground (arith, e, eq_iff key j, eq_refl (pfx ++ j))
  | inr e ↦ ground (
    arith,
    e,
    eq_iff key j,
    eq_iff (pfx ++ key) (pfx ++ j),
    append_cancel_left pfx key j,
    eq_refl j,
  )
]

module _ {E : Type 0} (rd : Redis E) (stored : E → rd.Client → String → Option Bytes)
    (answers : E → Bool) where
  -- what a cache holds under its prefix
  abbrev pub held_under : rd.Client → String → Bool × E → String → Option Bytes
  held_under r pfx s key = stored (s.1) r (pfx ++ key)

  abbrev pub server_answers : Bool × E → Bool
  server_answers s = answers (s.1)

module _ {E : Type 0} (rd : Redis E) (stored : E → rd.Client → String → Option Bytes)
    (answers : E → Bool) (laws : RedisLaws rd stored answers) (r : rd.Client) (pfx : String) where
  redis_cache_get-held :
      (key : String) (content : Bytes) (s : Bool × E)
      → (redis_cache_get rd r pfx key s).0 ≡ ok content
      → held_under rd stored answers r pfx s key ≡ some content
  unfolding redis_cache_get
  redis_cache_get-held key content (stopped, e) h =
      ground (arith, h, laws.get-stored r (pfx ++ key) e content)

  redis_cache_get-through :
      (key : String) (content : Bytes) (s : Bool × E)
      → server_answers rd stored answers s ≡ true
      → held_under rd stored answers r pfx s key ≡ some content
      → (redis_cache_get rd r pfx key s).0 ≡ ok content
  unfolding redis_cache_get
  redis_cache_get-through key content (stopped, e) up h =
      ground (arith, laws.get-answers r (pfx ++ key) e content up h)

  redis_cache_get-keeps :
      (key j : String) (s : Bool × E)
      → held_under rd stored answers r pfx (redis_cache_get rd r pfx key s).1 j
        ≡ held_under rd stored answers r pfx s j
  unfolding redis_cache_get
  redis_cache_get-keeps key j (stopped, e) =
      ground (arith, laws.get-keeps r (pfx ++ key) (pfx ++ j) e)

  -- A cache on a Redis server keeps the promise, for the entries under its prefix.
  pub redis_cache-IsStore :
      IsStore
        (redis_cache rd r pfx)
        (held_under rd stored answers r pfx)
        (server_answers rd stored answers)
  unfolding redis_cache
  redis_cache-IsStore = record {
    get-held = redis_cache_get-held;
    get-through = redis_cache_get-through;
    get-keeps = redis_cache_get-keeps;
    put-held = λ key content s h j.
        ground
          (arith, prefix-eq pfx key j, laws.set-stored r (pfx ++ key) content (s.1) h (pfx ++ j));
    delete-held = λ key s h j.
        ground (arith, prefix-eq pfx key j, laws.del-stored r (pfx ++ key) (s.1) h (pfx ++ j));
  }
