-- ===== src/Dumbproxy/Auth/Hmac/Token.antt =====
-- auth/hmac.go: a token is read as it was written.
use go_forward_proxy.Base.{
  ℕ, String, ◌+◌, ◌-◌, ◌*◌, ◌/◌, ◌%◌, ◌^◌, ◌<◌, ◌≡◌, refl, sym, ap, ◌∙◌, true, some, arith,
}
use go_forward_proxy.Base.Int.{
  ℤ, pos, negsuc, signed, two_63, two_64, ◌≤ℤ◌, ◌<ℤ◌, ◌+ℤ◌, ◌*ℤ◌, leb_ℤ,
}
use go_forward_proxy.Base.Result.{ok}
use go_forward_proxy.Dumbproxy.Calls.{Calls}
use go_forward_proxy.Dumbproxy.Auth.Hmac.{
  HmacToken, decode_token, encode_token, unix, hmac_sign, verify_hmac_login_and_password,
  calculate_hmac_signature,
}
use go_forward_proxy.Base.Bytes.{
  Bytes, length, take, take-length, eq_bytes, eq_bytes_refl, pattern_of, put_int64, get_int64,
}

bytes_value :
    (n : ℕ)
    → n < two_64
    → n / 2 ^ 56 % 256 * 2 ^ 56
        + n / 2 ^ 48 % 256 * 2 ^ 48
        + n / 2 ^ 40 % 256 * 2 ^ 40
        + n / 2 ^ 32 % 256 * 2 ^ 32
        + n / 2 ^ 24 % 256 * 2 ^ 24
        + n / 2 ^ 16 % 256 * 2 ^ 16
        + n / 2 ^ 8 % 256 * 2 ^ 8
        + n % 256
      ≡ n
bytes_value n h = omega arith

-- in the range of an `int64`
abbrev pub IsInt64 : ℤ → Type 0
IsInt64 z = (z <ℤ pos two_63) × (negsuc (two_63 - 1) ≤ℤ z)

pattern-bound : (z : ℤ) → IsInt64 z → pattern_of z < two_64
pattern-bound (pos n) h = omega (arith, h.0)
pattern-bound (negsuc n) h = omega (arith, h.1)

signed-pattern_of : (z : ℤ) → IsInt64 z → signed (pattern_of z) ≡ z
unfolding signed
signed-pattern_of (pos n) h = ground (arith, h.0)
signed-pattern_of (negsuc n) h = ground (arith, h.1)

get_int64-put_int64 : (z : ℤ) (bs : Bytes) → IsInt64 z → get_int64 (put_int64 z bs) ≡ some (z, bs)
unfolding get_int64 put_int64
get_int64-put_int64 z bs h =
    ap (λ k. some (signed k, bs)) (bytes_value (pattern_of z) (pattern-bound z h))
    ∙ ap (λ k. some (k, bs)) (signed-pattern_of z h)

decode_token-read :
    (bs rest : Bytes) (z : ℤ)
    → get_int64 bs ≡ some (z, rest)
    → length rest ≡ 32
    → decode_token bs ≡ some (record { expire = z; signature = take 32 rest })
unfolding decode_token
decode_token-read bs rest z h l = ground (arith, h, l)

take-all : (n : ℕ) (bs : Bytes) → length bs ≡ n → take n bs ≡ bs
take-all n bs h = ap (λ k. take k bs) (sym h) ∙ take-length bs

-- A token of 32 bytes of signature, whose time of expiry is in the range of an `int64`, is read back
-- from its bytes.
pub decode_token-encode_token :
    (token : HmacToken)
    → IsInt64 token.expire
    → length token.signature ≡ 32
    → decode_token (encode_token token) ≡ some token
unfolding encode_token
decode_token-encode_token token h l =
    decode_token-read (encode_token token) token.signature token.expire
      (get_int64-put_int64 token.expire token.signature h) l
    ∙ ap (λ bs. some (record { expire = token.expire; signature = bs }))
        (take-all 32 token.signature l)

-- What the packages for base64 and HMAC promise.
pub record TokenLaws (c : Calls) : Type 0 where
  pub decode-encode : (bs : Bytes) → c.decode_raw_url (c.encode_raw_url bs) ≡ some bs
  pub mac-length : (key message : Bytes) → length (c.hmac_sha256 key message) ≡ 32

module _ {c : Calls} (laws : TokenLaws c) where
  abbrev signed_token : Bytes → String → ℤ → HmacToken
  signed_token secret username expire = record {
    expire = expire;
    signature = take 32 (calculate_hmac_signature c secret username expire);
  }

  signature-take :
      (secret : Bytes) (username : String) (expire : ℤ)
      → take 32 (calculate_hmac_signature c secret username expire)
        ≡ calculate_hmac_signature c secret username expire
  unfolding calculate_hmac_signature
  signature-take secret username expire = take-all 32 _ (laws.mac-length secret _)

  signature-length :
      (secret : Bytes) (username : String) (expire : ℤ)
      → length (calculate_hmac_signature c secret username expire) ≡ 32
  unfolding calculate_hmac_signature
  signature-length secret username expire = laws.mac-length secret _

  hmac_sign-token :
      (key username duration : String) (secret : Bytes) (validity : ℤ) (env : c.Env)
      → c.decode_hex key ≡ ok secret
      → c.parse_duration duration ≡ ok validity
      → hmac_sign c key username duration env ≡ (
        ok (
            c.encode_raw_url
              (encode_token (signed_token secret username (unix c ((c.now env).0 +ℤ validity))))),
        (c.now env).1,
      )
  unfolding hmac_sign
  hmac_sign-token key username duration secret validity env k v = rw (k, v) refl

  verify-decoded :
      (secret bs : Bytes) (login password : String) (token : HmacToken) (env : c.Env)
      → c.decode_raw_url password ≡ some bs
      → decode_token bs ≡ some token
      → eq_bytes token.signature (calculate_hmac_signature c secret login token.expire) ≡ true
      → verify_hmac_login_and_password c secret login password env
        ≡ (leb_ℤ (c.now env).0 (token.expire *ℤ pos 1000000000), (c.now env).1)
  unfolding verify_hmac_login_and_password
  verify-decoded secret bs login password token env d t e = ground (arith, d, t, e)

  -- A password that `hmacSign` prints for a user is taken, under the same secret and for that user,
  -- until its time of expiry, the second in which the validity ends, and no longer. The time of
  -- expiry is taken to be in the range of an `int64`.
  pub verify-hmac_sign :
      (key username duration password : String) (secret : Bytes) (validity : ℤ) (env env' : c.Env)
      → c.decode_hex key ≡ ok secret
      → c.parse_duration duration ≡ ok validity
      → let expire = unix c ((c.now env).0 +ℤ validity) in
        IsInt64 expire
        → hmac_sign c key username duration env ≡ (ok password, env')
        → (later : c.Env)
        → verify_hmac_login_and_password c secret username password later
          ≡ (leb_ℤ (c.now later).0 (expire *ℤ pos 1000000000), (c.now later).1)
  verify-hmac_sign key username duration password secret validity env env' k v h s later =
      let expire = unix c ((c.now env).0 +ℤ validity) in
      let printed : password
          ≡ c.encode_raw_url (encode_token (signed_token secret username expire)) =
        ground (arith, s, hmac_sign-token key username duration secret validity env k v) in
      verify-decoded secret (encode_token (signed_token secret username expire)) username password
        (signed_token secret username expire) later
        (ap c.decode_raw_url printed ∙ laws.decode-encode _)
        (decode_token-encode_token (signed_token secret username expire) h (
          ap length (signature-take secret username expire)
          ∙ signature-length secret username expire))
        (ap (λ bs. eq_bytes bs (calculate_hmac_signature c secret username expire))
            (signature-take secret username expire)
          ∙ eq_bytes_refl _)
