-- ===== src/Dumbproxy/Auth.antt =====
-- pkg/dumbproxy/auth: the providers of authentication, each of which may pass a request on to
-- another. Messages to the log are left out.
pub mod Credentials
pub mod Basic
pub mod Hmac
pub mod Redis
pub mod Reject
pub mod Serial
pub mod Cert
pub mod Plain
pub mod Static
pub mod Unmade
pub mod Sizes
pub mod Fuel
pub mod Close
pub mod Answers
use go_forward_proxy.Base.{
  ℕ, zero, suc, String, Bool, true, false, Option, none, some, str_eq, if◌then◌else◌,
}
use go_forward_proxy.Base.Result.{Result, ok, err, Exec, pure, fail, lift, wrapping, ◌>>=◌, ◌>>◌}
use go_forward_proxy.Dumbproxy.Query.{Values, get}
use go_forward_proxy.Dumbproxy.Calls.{Url, Calls}
use go_forward_proxy.Dumbproxy.Auth.Credentials.{Validate, Valid}
use go_forward_proxy.Dumbproxy.Auth.Basic.{
  BasicAuth, new_basic_file_auth, new_static_auth, basic_validate, basic_valid,
}
use go_forward_proxy.Dumbproxy.Auth.Hmac.{HmacAuth, new_hmac_auth, hmac_validate, hmac_valid}
use go_forward_proxy.Dumbproxy.Auth.Redis.{RedisAuth, new_redis_auth, redis_validate, redis_valid}
use go_forward_proxy.Dumbproxy.Auth.Reject.{
  StaticRejectAuth, new_static_reject_auth, new_reject_http_auth, static_reject_validate,
  reject_http_validate, no_auth_validate,
}
use go_forward_proxy.Dumbproxy.Auth.Cert.{CertAuth, new_cert_auth, cert_validate}

module _ (c : Calls) where
  mutual
    -- The implementations of the interface `Auth`.
    pub data Auth : Type 0 where
      basic_auth : BasicAuth c → Next → Auth
      hmac_auth : HmacAuth → Next → Auth
      cert_auth : CertAuth → Next → Next → Auth
      redis_auth : RedisAuth c → Next → Auth
      no_auth : Auth
      reject_http_auth : c.ReverseProxy → Auth
      static_reject_auth : StaticRejectAuth → Auth

    -- The field `next`, which may be nil.
    pub data Next : Type 0 where
      nil : Next
      chained : Auth → Next

  -- What a constructor makes of the URL of another provider: `new` is `NewAuth`.
  unfoldable pub chain : (new : String → Exec c.Env Auth) → String → Values → Exec c.Env Next
  chain new key values =
      let next_auth = get key values in
      let built : Exec c.Env Next =
        wrapping "chained auth provider construction failed" (new next_auth) >>= λ a.
        pure (chained a) in
      if str_eq next_auth "" then pure nil else built

  unfoldable pub by_scheme : (new : String → Exec c.Env Auth) → Url → String → Exec c.Env Auth
  by_scheme new url scheme =
      if str_eq scheme "static"
      then (new_static_auth c (chain new "else") url >>= λ r. pure (basic_auth r.0 r.1))
      else if str_eq scheme "basicfile"
      then (new_basic_file_auth c (chain new "else") url >>= λ r. pure (basic_auth r.0 r.1))
      else if str_eq scheme "hmac"
      then (new_hmac_auth c (chain new "else") url >>= λ r. pure (hmac_auth r.0 r.1))
      else if str_eq scheme "cert"
      then (new_cert_auth c (chain new "next") (chain new "else") url >>= λ r.
          pure (cert_auth r.0 r.1 r.2))
      else if str_eq scheme "redis"
      then (new_redis_auth c (chain new "else") false url >>= λ r. pure (redis_auth r.0 r.1))
      else if str_eq scheme "redis-cluster"
      then (new_redis_auth c (chain new "else") true url >>= λ r. pure (redis_auth r.0 r.1))
      else if str_eq scheme "none"
      then pure no_auth
      else if str_eq scheme "reject-http"
      then (new_reject_http_auth c url >>= λ p. pure (reject_http_auth p))
      else if str_eq scheme "reject-https"
      then (new_reject_http_auth c url >>= λ p. pure (reject_http_auth p))
      else if str_eq scheme "reject-static"
      then (new_static_reject_auth c url >>= λ a. pure (static_reject_auth a))
      else fail "Unknown auth scheme"

  -- `NewAuth`, where `new` is what it calls for the URL inside of its own
  unfoldable pub new_auth_with : (new : String → Exec c.Env Auth) → String → Exec c.Env Auth
  unfolding by_scheme
  new_auth_with new paramstr = do
    url ← lift (c.parse_url paramstr)
    by_scheme new url (c.to_lower url.scheme)

  -- So many levels of providers, over what `NewAuth` is at the bottom of them.
  unfoldable pub new_auth_levels :
      ℕ → (bottom : String → Exec c.Env Auth) → String → Exec c.Env Auth
  new_auth_levels zero bottom = bottom
  new_auth_levels (suc n) bottom = new_auth_with (new_auth_levels n bottom)

  -- `NewAuth`, with so many levels of chained providers at most.
  unfoldable pub new_auth_within : ℕ → String → Exec c.Env Auth
  unfolding new_auth_levels
  new_auth_within n = new_auth_levels n (λ paramstr. fail "too many chained providers")

  unfoldable mutual
    pub validate : Auth → Validate c
    validate (basic_auth a n) = basic_validate c a (next_validate n)
    validate (hmac_auth a n) = hmac_validate c a (next_validate n)
    validate (cert_auth a n r) = cert_validate c a (next_validate n) (next_validate r)
    validate (redis_auth a n) = redis_validate c a (next_validate n)
    validate no_auth = no_auth_validate c
    validate (reject_http_auth p) = reject_http_validate c p
    validate (static_reject_auth a) = static_reject_validate c a

    next_validate : Next → Option (Validate c)
    next_validate nil = none
    next_validate (chained a) = some (validate a)

  unfoldable mutual
    -- The providers that have a method `Valid`, with it.
    pub valid : Auth → Option (Valid c)
    valid (basic_auth a n) = some (basic_valid c a (next_valid n))
    valid (hmac_auth a n) = some (hmac_valid c a (next_valid n))
    valid (redis_auth a n) = some (redis_valid c a (next_valid n))
    valid (cert_auth a n r) = none
    valid no_auth = none
    valid (reject_http_auth p) = some (λ user password env. (false, env))
    valid (static_reject_auth a) = some (λ user password env. (false, env))

    next_valid : Next → Option (Valid c)
    next_valid nil = none
    next_valid (chained a) = valid a

  -- `multierror.Append` of the error of a `Close`, where it has one
  abbrev also : Option String → Option String → Option String
  also e none = e
  also e (some x) = some (c.append_error e x)

  abbrev failure_of : Result (Unit {0}) → Option String
  failure_of (ok tt) = none
  failure_of (err e) = some e

  unfoldable mutual
    -- `Close`: its error, and the provider, whose `stopOnce` has run.
    pub close : Auth → c.Env → (Option String × Auth) × c.Env
    close (basic_auth a n) env =
        let ((e, n'), env') = close_next n env in
        if a.stopped
        then ((none, basic_auth a n), env)
        else ((e, basic_auth (record a { stopped = true }) n'), env')
    close (hmac_auth a n) env =
        let ((e, n'), env') = close_next n env in
        if a.stopped
        then ((none, hmac_auth a n), env)
        else ((e, hmac_auth (record a { stopped = true }) n'), env')
    close (cert_auth a n r) env =
        let ((e, n'), env₁) = close_next n env in
        let ((x, r'), env₂) = close_next r env₁ in
        if a.stopped
        then ((none, cert_auth a n r), env)
        else ((also (also none e) x, cert_auth (record a { stopped = true }) n' r'), env₂)
    close (redis_auth a n) env =
        let ((e, n'), env₁) = close_next n env in
        let (closed, env₂) = c.redis_close a.r env₁ in
        if a.stopped then ((none, redis_auth a n), env) else (
          (also (also none e) (failure_of closed), redis_auth (record a { stopped = true }) n'),
          env₂,
        )
    close no_auth env = ((none, no_auth), env)
    close (reject_http_auth p) env = ((none, reject_http_auth p), env)
    close (static_reject_auth a) env = ((none, static_reject_auth a), env)

    close_next : Next → c.Env → (Option String × Next) × c.Env
    close_next nil env = ((none, nil), env)
    close_next (chained a) env = let ((e, a'), env') = close a env in ((e, chained a'), env')
