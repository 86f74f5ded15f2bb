-- ===== src/Dumbproxy/Auth/Close.antt =====
-- The method `Close` of the providers of authentication, which works once.
use go_forward_proxy.Base.{◌≡◌, refl, none, arith}
use go_forward_proxy.Dumbproxy.Calls.{Calls}
use go_forward_proxy.Dumbproxy.Auth.{
  Auth, basic_auth, hmac_auth, cert_auth, redis_auth, no_auth, reject_http_auth, static_reject_auth,
  close,
}

module _ (c : Calls) where
  -- A second `Close` of a provider changes nothing, in it or anywhere else, and has no error,
  -- whatever the first one returned.
  pub close-close :
      (auth : Auth c) (env later : c.Env)
      → let closed = (close c auth env).0.1 in close c closed later ≡ ((none, closed), later)
  unfolding close
  close-close (basic_auth a n) env later = ground arith
  close-close (hmac_auth a n) env later = ground arith
  close-close (cert_auth a n r) env later = ground arith
  close-close (redis_auth a n) env later = ground arith
  close-close no_auth env later = refl
  close-close (reject_http_auth p) env later = refl
  close-close (static_reject_auth a) env later = refl
