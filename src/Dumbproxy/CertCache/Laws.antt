-- ===== src/Dumbproxy/CertCache/Laws.antt =====
-- The encrypted cache: what it takes for an entry, and that it keeps the promise of the next cache.
use mathlib.Core.List.{◌++◌ as ◌+++◌}
use go_forward_proxy.Base.{
  ℕ, String, ◌≡◌, sym, ap, ◌∙◌, Bool, true, Option, none, some, inl, inr, arith, leb, Bool-cases,
  Option-cases, str_eq, eq_iff, if◌then◌else◌,
}
use go_forward_proxy.Base.Bytes.{
  Bytes, length, take, drop, take-append, drop-append, length-append, take-drop, length-take,
}
use go_forward_proxy.Base.Result.{ok, err, Result-cases}
use go_forward_proxy.Dumbproxy.CertCache.{
  Store, Sealing, open_sealed, sealed, encrypted_get, encrypted_put, encrypted_cache,
}

-- What the cipher promises: the seal of bytes under a nonce and a key is what opens to them.
pub record SealingLaws {E : Type 0} (sl : Sealing E) : Type 0 where
  pub unseal-seal :
      (a : sl.Aead) (nonce content key : Bytes)
      → sl.unseal a nonce (sl.seal a nonce content key) key ≡ ok content
  pub seal-unseal :
      (a : sl.Aead) (nonce content key ciphertext : Bytes)
      → sl.unseal a nonce ciphertext key ≡ ok content
      → sl.seal a nonce content key ≡ ciphertext
  pub random-length : (n : ℕ) (e : E) (b : Bytes) → (sl.random n e).0 ≡ ok b → length b ≡ n

-- The promise of a cache that, at each state, holds one text of bytes or none for a key: a `Get`
-- returns what is held, and does where its calls go through; a `Put` and a `Delete` without an error
-- change what is held for their key only.
pub record IsStore {E : Type 0} (st : Store E) (held : E → String → Option Bytes)
    (goes_through : E → Bool) : Type 0 where
  pub get-held :
      (key : String) (content : Bytes) (e : E)
      → (st.get key e).0 ≡ ok content
      → held e key ≡ some content
  pub get-through :
      (key : String) (content : Bytes) (e : E)
      → goes_through e ≡ true
      → held e key ≡ some content
      → (st.get key e).0 ≡ ok content
  pub get-keeps : (key j : String) (e : E) → held (st.get key e).1 j ≡ held e j
  pub put-held :
      (key : String) (content : Bytes) (e : E)
      → (st.put key content e).0 ≡ ok tt
      → (j : String)
      → held (st.put key content e).1 j ≡ (if str_eq key j then some content else held e j)
  pub delete-held :
      (key : String) (e : E)
      → (st.delete key e).0 ≡ ok tt
      → (j : String) → held (st.delete key e).1 j ≡ (if str_eq key j then none else held e j)

-- what an encrypted cache holds, by what the next one does
unfoldable pub held_sealed :
    {E : Type 0} (sl : Sealing E) → sl.Aead → String → Option Bytes → Option Bytes
held_sealed sl a key none = none
held_sealed sl a key (some encrypted) = elim (open_sealed sl a key encrypted) [
  | ok content ↦ some content
  | err e ↦ none
]

module _ {E : Type 0} {sl : Sealing E} (laws : SealingLaws sl) (a : sl.Aead) where
  open_sealed-sealed :
      (key : String) (nonce content : Bytes)
      → length nonce ≡ sl.nonce_size a
      → open_sealed sl a key (sealed sl a key nonce content) ≡ ok content
  unfolding open_sealed
  open_sealed-sealed key nonce content h =
      let ciphertext = sl.seal a nonce content (sl.bytes_of key) in
      ground (
        arith,
        h,
        length-append nonce ciphertext,
        take-append nonce ciphertext,
        drop-append nonce ciphertext,
        laws.unseal-seal a nonce content (sl.bytes_of key),
      )

  -- the nonce is the first part of the bytes
  sealed-open_sealed :
      (key : String) (encrypted content : Bytes)
      → open_sealed sl a key encrypted ≡ ok content
      → (nonce : Bytes) × (length nonce ≡ sl.nonce_size a)
        × (encrypted ≡ sealed sl a key nonce content)
  unfolding open_sealed
  sealed-open_sealed key encrypted content h =
      let n = sl.nonce_size a in
      let nonce = take n encrypted in
      elim (Bool-cases (leb n (length encrypted))) [
        | inr short ↦ absurd (ground (arith, h, short))
        | inl long ↦
            let sealed_rest =
              laws.seal-unseal a nonce content (sl.bytes_of key) (drop n encrypted)
                (ground (arith, h, long)) in
            (
              nonce,
              length-take n encrypted (ground (arith, long)),
              sym (take-drop n encrypted (ground (arith, long)))
                  ∙ ap (λ rest. nonce +++ rest) (sym sealed_rest),
            )
      ]

  -- Where the next cache has bytes for a key, `Get` returns a text just if the bytes are a nonce of
  -- the right size and the seal of that text under this nonce and this key.
  pub encrypted_get-sealed :
      (next : Store E) (key : String) (e : E) (encrypted content : Bytes)
      → (next.get key e).0 ≡ ok encrypted
      → ((encrypted_get sl a next key e).0 ≡ ok content
          → (nonce : Bytes) × (length nonce ≡ sl.nonce_size a)
            × (encrypted ≡ sealed sl a key nonce content))
        × ((nonce : Bytes)
            → length nonce ≡ sl.nonce_size a
            → encrypted ≡ sealed sl a key nonce content
            → (encrypted_get sl a next key e).0 ≡ ok content)
  unfolding encrypted_get
  encrypted_get-sealed next key e encrypted content h = (
    λ got. sealed-open_sealed key encrypted content (ground (arith, h, got)),
    λ nonce size same. ground (arith, h, same, open_sealed-sealed key nonce content size),
  )

  module _ (next : Store E) (held : E → String → Option Bytes) (goes_through : E → Bool)
      (st : IsStore next held goes_through)
      (quiet : (n : ℕ) (e : E) (j : String) → held (sl.random n e).1 j ≡ held e j) where
    encrypted_get-held :
        (key : String) (content : Bytes) (e : E)
        → (encrypted_get sl a next key e).0 ≡ ok content
        → held_sealed sl a key (held e key) ≡ some content
    unfolding encrypted_get held_sealed
    encrypted_get-held key content e h = elim (Result-cases (next.get key e).0) [
      | inr (x, bad) ↦ absurd (ground (arith, h, bad))
      | inl (encrypted, got) ↦ ground (arith, h, got, st.get-held key encrypted e got)
    ]

    encrypted_get-through :
        (key : String) (content : Bytes) (e : E)
        → goes_through e ≡ true
        → held_sealed sl a key (held e key) ≡ some content
        → (encrypted_get sl a next key e).0 ≡ ok content
    unfolding encrypted_get held_sealed
    encrypted_get-through key content e up h = elim (Option-cases (held e key)) [
      | inl gone ↦ absurd (ground (arith, h, gone))
      | inr (encrypted, there) ↦ elim (Result-cases (open_sealed sl a key encrypted)) [
        | inr (x, bad) ↦ absurd (ground (arith, h, there, bad))
        | inl (c, good) ↦ ground (arith, h, there, good, st.get-through key encrypted e up there)
      ]
    ]

    encrypted_get-keeps :
        (key j : String) (e : E) → held (encrypted_get sl a next key e).1 j ≡ held e j
    unfolding encrypted_get
    encrypted_get-keeps key j e = elim (Result-cases (next.get key e).0) [
      | inr (x, bad) ↦ ground (arith, bad, st.get-keeps key j e)
      | inl (encrypted, got) ↦ ground (arith, got, st.get-keeps key j e)
    ]

    encrypted_put-held :
        (key : String) (content : Bytes) (e : E)
        → (encrypted_put sl a next key content e).0 ≡ ok tt
        → (j : String)
        → held_sealed sl a j (held (encrypted_put sl a next key content e).1 j)
          ≡ (if str_eq key j then some content else held_sealed sl a j (held e j))
    unfolding encrypted_put held_sealed
    encrypted_put-held key content e h j =
        let n = sl.nonce_size a in
        let e₁ = (sl.random n e).1 in
        elim (Result-cases (sl.random n e).0) [
          | inr (x, bad) ↦ absurd (ground (arith, h, bad))
          | inl (nonce, drawn) ↦ ground (
            arith,
            drawn,
            eq_iff key j,
            quiet n e j,
            open_sealed-sealed key nonce content (laws.random-length n e nonce drawn),
            st.put-held key (sealed sl a key nonce content) e₁ (ground (arith, h, drawn)) j,
          )
        ]

    -- Where the next cache keeps the promise, and the random bytes change nothing that it holds, the
    -- encrypted cache keeps it too, and holds for each key the text that is sealed there, whatever
    -- else the next one holds.
    pub encrypted_cache-IsStore :
        IsStore
          (encrypted_cache sl a next)
          (λ e key. held_sealed sl a key (held e key))
          goes_through
    unfolding held_sealed
    encrypted_cache-IsStore = record {
      get-held = encrypted_get-held;
      get-through = encrypted_get-through;
      get-keeps = λ key j e. ap (held_sealed sl a j) (encrypted_get-keeps key j e);
      put-held = encrypted_put-held;
      delete-held = λ key e h j. ground (arith, st.delete-held key e h j);
    }
