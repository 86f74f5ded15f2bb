-- ===== src/Dumbproxy/CertCache.antt =====
-- certcache: the caches that certificates are kept in, each over the next one: local.go in memory
-- with a time to live, cryptobox.go encrypted, redis.go on a Redis server.
pub mod Laws
pub mod Server
pub mod Layers
use Prim.Native.String.{◌++◌}
use mathlib.Core.List.{◌++◌ as ◌+++◌}
use go_forward_proxy.Base.{
  ℕ, String, Bool, true, false, Option, none, some, not, leb, if◌then◌else◌,
}
use go_forward_proxy.Base.Int.{ℤ, ◌+ℤ◌, leb_ℤ}
use go_forward_proxy.Base.Bytes.{Bytes, length, take, drop}
use go_forward_proxy.Base.Result.{Result, ok, err, Exec, pure, lift, check, ◌>>=◌, ◌>>◌}

-- `autocert.Cache`, for one context of a call, and `Close` where it is an `io.Closer`
pub record Store (E : Type 0) : Type 0 where
  pub get : String → Exec E Bytes
  pub put : String → Bytes → Exec E Unit
  pub delete : String → Exec E Unit
  pub close : Option (Exec E Unit)

abbrev pub close_if_closer : {E : Type 0} → Option (Exec E Unit) → Exec E Unit
close_if_closer (some close) = close
close_if_closer none = pure tt

-- The calls of cryptobox.go: XChaCha20-Poly1305, the random bytes, and `[]byte(key)`.
pub record Sealing (E : Type 0) : Type 1 where
  pub Aead : Type 0
  pub new_aead : Bytes → Result Aead
  pub nonce_size : Aead → ℕ
  pub seal : Aead → (nonce content key : Bytes) → Bytes
  pub unseal : Aead → (nonce ciphertext key : Bytes) → Result Bytes
  pub random : ℕ → Exec E Bytes
  pub bytes_of : String → Bytes

module _ {E : Type 0} (sl : Sealing E) where
  -- what a `Get` does with the bytes that the next cache has
  unfoldable pub open_sealed : sl.Aead → String → Bytes → Result Bytes
  open_sealed aead key encrypted =
      if leb (sl.nonce_size aead) (length encrypted)
      then sl.unseal aead (take (sl.nonce_size aead) encrypted)
          (drop (sl.nonce_size aead) encrypted) (sl.bytes_of key)
      else err "ciphertext too short"

  -- `Seal` appends to the nonce.
  abbrev pub sealed : sl.Aead → String → (nonce content : Bytes) → Bytes
  sealed aead key nonce content = nonce +++ sl.seal aead nonce content (sl.bytes_of key)

  unfoldable pub encrypted_get : sl.Aead → Store E → String → Exec E Bytes
  encrypted_get aead next key = do encrypted ← next.get key; lift (open_sealed aead key encrypted)

  unfoldable pub encrypted_put : sl.Aead → Store E → String → Bytes → Exec E Unit
  encrypted_put aead next key content = do
    nonce ← sl.random (sl.nonce_size aead)
    next.put key (sealed aead key nonce content)

  abbrev pub encrypted_cache : sl.Aead → Store E → Store E
  encrypted_cache aead next = record {
    get = encrypted_get aead next;
    put = encrypted_put aead next;
    delete = next.delete;
    close = some (close_if_closer next.close);
  }

  -- `NewEncryptedCache`
  unfoldable pub new_encrypted_cache : Bytes → Store E → Result (Store E)
  new_encrypted_cache key next = elim (sl.new_aead key) [
    | err e ↦ err e
    | ok aead ↦ ok (encrypted_cache aead next)
  ]

-- A value in memory: when it was read or put, and the data or the error of that read.
pub record CertCacheValue : Type 0 where
  pub ts : ℤ
  pub res : Result Bytes

-- The calls of local.go: the clock, the end of the context, and the map in memory with its test for
-- the values that are valid.
pub record Memory (E : Type 0) : Type 1 where
  pub Cache : Type 0
  pub now : E → ℤ × E
  pub is_ended : E → Bool
  pub get_valid_or_delete :
      (valid : CertCacheValue → E → Bool × E)
      → String
      → Cache
      → E
      → Option CertCacheValue × Cache × E
  pub set : String → CertCacheValue → Cache → Cache
  pub delete : String → Cache → Cache

module _ {E : Type 0} (mm : Memory E) (ttl : ℤ) (next : Store E) where
  abbrev pub is_valid : CertCacheValue → E → Bool × E
  is_valid item e = let (t, e') = mm.now e in (not (leb_ℤ (item.ts +ℤ ttl) t), e')

  -- the function that `Do` runs, where no other `Get` of the key is under way
  unfoldable pub fetched_from_next : String → mm.Cache → E → Result Bytes × (mm.Cache × E)
  fetched_from_next key cache e =
      let (res, e₁) = next.get key e in
      let (t, e₂) = mm.now e₁ in
      let item : CertCacheValue = record { ts = t; res = res } in
      (res, (if mm.is_ended e₂ then cache else mm.set key item cache, e₂))

  unfoldable pub local_get : String → Exec (mm.Cache × E) Bytes
  local_get key (cache, e) =
      let (found, cache', e') = mm.get_valid_or_delete is_valid key cache e in
      elim found [ some item ↦ (item.res, (cache', e')) | none ↦ fetched_from_next key cache' e' ]

  -- The data are in memory before the next cache has taken them.
  unfoldable pub local_put : String → Bytes → Exec (mm.Cache × E) Unit
  local_put key content (cache, e) =
      let (t, e₁) = mm.now e in
      let (r, e₂) = next.put key content e₁ in
      (r, (mm.set key (record { ts = t; res = ok content }) cache, e₂))

  abbrev on_next : {A : Type 0} → Exec E A → Exec (mm.Cache × E) A
  on_next act (cache, e) = let (r, e') = act e in (r, (cache, e'))

  abbrev pub local_cert_cache : Store (mm.Cache × E)
  local_cert_cache = record {
    get = local_get;
    put = local_put;
    delete = λ key s. on_next (next.delete key) (mm.delete key (s.0), s.1);
    close = some (on_next (close_if_closer next.close));
  }

-- The answer to a `GET`: the bytes, `redis.Nil`, or another error.
pub data Reply : Type 0 where
  bytes : Bytes → Reply
  missing : Reply
  failed : String → Reply

pub record Redis (E : Type 0) : Type 1 where
  pub Client : Type 0
  pub new_client : String → Result Client
  pub new_cluster_client : String → Result Client
  pub redis_get : Client → String → E → Reply × E
  pub redis_set : Client → String → Bytes → Exec E Unit
  pub redis_del : Client → String → Exec E Unit
  pub redis_close : Client → Exec E Unit
  -- `autocert.ErrCacheMiss`
  pub cache_miss : String

module _ {E : Type 0} (rd : Redis E) where
  -- The state beside that of the outside is whether `Close` has run.
  unfoldable pub redis_cache_get : rd.Client → String → String → Exec (Bool × E) Bytes
  redis_cache_get r pfx key (stopped, e) =
      let (reply, e') = rd.redis_get r (pfx ++ key) e in
      elim reply [
        | bytes b ↦ (ok b, (stopped, e'))
        | missing ↦ (err rd.cache_miss, (stopped, e'))
        | failed x ↦ (err x, (stopped, e'))
      ]

  abbrev on_redis : {A : Type 0} → Exec E A → Exec (Bool × E) A
  on_redis act (stopped, e) = let (r, e') = act e in (r, (stopped, e'))

  close_once : rd.Client → Exec (Bool × E) Unit
  close_once r (true, e) = (ok tt, (true, e))
  close_once r (false, e) = let (x, e') = rd.redis_close r e in (x, (true, e'))

  unfoldable pub redis_cache : rd.Client → String → Store (Bool × E)
  unfolding close_once
  redis_cache r pfx = record {
    get = redis_cache_get r pfx;
    put = λ key content. on_redis (rd.redis_set r (pfx ++ key) content);
    delete = λ key. on_redis (rd.redis_del r (pfx ++ key));
    close = some (close_once r);
  }

  -- `RedisCacheFromURL` and `RedisClusterCacheFromURL`
  unfoldable pub redis_cache_from_url : Bool → String → String → Result (Store (Bool × E))
  redis_cache_from_url cluster url prefix =
      elim (if cluster then rd.new_cluster_client url else rd.new_client url) [
        | err e ↦ err e
        | ok r ↦ ok (redis_cache r prefix)
      ]
