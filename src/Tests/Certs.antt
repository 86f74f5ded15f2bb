-- ===== src/Tests/Certs.antt =====
-- The caches of certificates at concrete inputs: a server whose state is a clock and what it stores,
-- a cipher that puts the length of the key in front, and random bytes that are all seven.

use go_forward_proxy.Base.{
  ℕ, zero, suc, String, ◌≡◌, refl, ap, Bool, true, false, Option, none, some, [], ◌∷◌, str_eq,
  eq_refl, arith, ◌==◌, if◌then◌else◌,
}
use go_forward_proxy.Base.Int.{pos}
use go_forward_proxy.Base.Bytes.{Bytes, length}
use go_forward_proxy.Base.Result.{Result, ok, err}
use go_forward_proxy.Dumbproxy.CertCache.{
  Store, Sealing, Memory, CertCacheValue, Redis, Reply, bytes, missing, sealed, encrypted_get,
  encrypted_put, encrypted_cache, redis_cache, redis_cache_get, local_put,
}
use go_forward_proxy.Dumbproxy.CertCache.Laws.{
  SealingLaws, IsStore, held_sealed, encrypted_get-sealed, encrypted_cache-IsStore,
}
use go_forward_proxy.Dumbproxy.CertCache.Server.{
  RedisLaws, held_under, server_answers, redis_cache-IsStore,
}
use go_forward_proxy.Dumbproxy.CertCache.Layers.{MemoryLaws, layered, layered-get_put}

record Place : Type 0 where
  clock : ℕ
  cell : String → Option Bytes

abbrev write : String → Option Bytes → Place → Place
write key b e = record e { cell = λ j. if str_eq key j then b else e.cell j }

abbrev reply_of : Option Bytes → Reply
reply_of none = missing
reply_of (some b) = bytes b

abbrev redis : Redis Place
redis = record {
  Client = Unit {0};
  new_client = λ url. ok tt;
  new_cluster_client = λ url. ok tt;
  redis_get = λ r key e. (reply_of (e.cell key), e);
  redis_set = λ r key b e. (ok tt, write key (some b) e);
  redis_del = λ r key e. (ok tt, write key none e);
  redis_close = λ r e. (ok tt, e);
  cache_miss = "acme/autocert: certificate cache miss";
}

abbrev stored : Place → Unit {0} → String → Option Bytes
stored e r key = e.cell key

reply_of-stored : (o : Option Bytes) (b : Bytes) → reply_of o ≡ bytes b → o ≡ some b
reply_of-stored none b h = absurd (ground (arith, h))
reply_of-stored (some c) b h = ground (arith, h)

redis_laws : RedisLaws redis stored (λ e. true)
redis_laws = record {
  get-stored = λ r key e b h. reply_of-stored (e.cell key) b h;
  get-answers = λ r key e b up h. ap reply_of h;
  get-keeps = λ r key j e. refl;
  set-stored = λ r key b e h j. refl;
  del-stored = λ r key e h j. refl;
}

sevens : ℕ → Bytes
sevens zero = []
sevens (suc n) = 7 ∷ sevens n

length-sevens : (n : ℕ) → length (sevens n) ≡ n
unfolding sevens length
length-sevens zero = refl
length-sevens (suc n) = ap suc (length-sevens n)

abbrev unseal : ℕ → Bytes → Bytes → Bytes → Result Bytes
unseal a nonce [] key = err "message authentication failed"
unseal a nonce (t ∷ content) key =
    if t == length key then ok content else err "message authentication failed"

abbrev sealing : Sealing (Bool × Place)
sealing = record {
  Aead = ℕ;
  new_aead = λ key. ok 2;
  nonce_size = λ a. a;
  seal = λ a nonce content key. length key ∷ content;
  unseal = unseal;
  random = λ n s. (ok (sevens n), s);
  bytes_of = λ key. 1 ∷ [];
}

unsealed :
    (a : ℕ) (nonce content key ciphertext : Bytes)
    → unseal a nonce ciphertext key ≡ ok content
    → ◌≡◌ {A = Bytes} (length key ∷ content) ciphertext
unsealed a nonce content key [] h = absurd (ground (arith, h))
unsealed a nonce content key (t ∷ rest) h = ground (arith, h)

sealing_laws : SealingLaws sealing
sealing_laws = record {
  unseal-seal = λ a nonce content key. ground arith;
  seal-unseal = unsealed;
  random-length = λ n s b h. ground (arith, h, length-sevens n);
}

abbrev memory : Memory (Bool × Place)
memory = record {
  Cache = String → Option CertCacheValue;
  now = λ s. (pos (s.1.clock), s);
  is_ended = λ s. false;
  get_valid_or_delete = λ valid key cache s. elim (cache key) [
    | none ↦ (none, cache, s)
    | some item ↦
        let (good, s') = valid item s in
        if good
        then (some item, cache, s')
        else (none, (λ j. if str_eq key j then none else cache j), s')
  ];
  set = λ key item cache j. if str_eq key j then some item else cache j;
  delete = λ key cache j. if str_eq key j then none else cache j;
}

memory_laws : MemoryLaws memory
memory_laws = record { get_set = λ valid key item cache s. ground (arith, eq_refl key) }

abbrev at_start : Bool × Place
at_start = (false, record { clock = 0; cell = λ j. none })

-- an hour after the entry, when it is no longer valid in memory
abbrev later : Bool × Place
later = (
  false,
  write "certs/host" (some (7 ∷ 7 ∷ 1 ∷ 48 ∷ [])) (record { clock = 3600; cell = λ j. none }),
)

abbrev server : Store (Bool × Place)
server = redis_cache redis tt "certs/"

encrypted_get-sealed_example :
    ((encrypted_get sealing 2 server "host" later).0 ≡ ok (48 ∷ [])
      → (nonce : Bytes) × (length nonce ≡ 2)
        × (7 ∷ 7 ∷ 1 ∷ 48 ∷ [] ≡ sealed sealing 2 "host" nonce (48 ∷ [])))
    × ((nonce : Bytes)
        → length nonce ≡ 2
        → 7 ∷ 7 ∷ 1 ∷ 48 ∷ [] ≡ sealed sealing 2 "host" nonce (48 ∷ [])
        → (encrypted_get sealing 2 server "host" later).0 ≡ ok (48 ∷ []))
unfolding redis_cache redis_cache_get
encrypted_get-sealed_example =
    encrypted_get-sealed sealing_laws 2 server "host" later (7 ∷ 7 ∷ 1 ∷ 48 ∷ []) (48 ∷ []) refl

encrypted_cache-IsStore_example :
    IsStore
      (encrypted_cache sealing 2 server)
      (λ s key. held_sealed sealing 2 key (held_under redis stored (λ e. true) tt "certs/" s key))
      (server_answers redis stored (λ e. true))
encrypted_cache-IsStore_example =
    encrypted_cache-IsStore sealing_laws 2 server (held_under redis stored (λ e. true) tt "certs/")
      (server_answers redis stored (λ e. true))
      (redis_cache-IsStore redis stored (λ e. true) redis_laws tt "certs/") (λ n s j. refl)

layered-get_put_example :
    let st = layered memory sealing redis (pos 60) 2 tt "certs/" in
    (st.get "host" ((st.put "host" (48 ∷ []) ((λ j. none), at_start)).1.0, later)).0 ≡ ok (48 ∷ [])
unfolding local_put encrypted_put redis_cache sevens length
layered-get_put_example =
    layered-get_put memory memory_laws sealing sealing_laws redis stored (λ e. true) redis_laws
      (λ n s r key. refl) (λ s r key. refl) (λ s. refl) (pos 60) 2 tt "certs/" "host" (48 ∷ [])
      (λ j. none) at_start later refl refl refl
