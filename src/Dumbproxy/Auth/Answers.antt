-- ===== src/Dumbproxy/Auth/Answers.antt =====
-- A request that is not let in has its answer.
use go_forward_proxy.Base.{
  String, ◌≡◌, refl, Bool, true, false, Option, none, some, arith, inl, inr, Option-cases,
}
use go_forward_proxy.Dumbproxy.Http.{Request, Writer, write_header, write_body, http_error}
use go_forward_proxy.Dumbproxy.Calls.{Calls}
use go_forward_proxy.Dumbproxy.Auth.Credentials.{
  bad_req_msg, Verdict, denied, admitted, panicked, Validate, ask_for_credentials, auth_triggered,
  require_basic_auth, admit, basic_credentials,
}
use go_forward_proxy.Dumbproxy.Auth.Basic.{BasicAuth, basic_validate}
use go_forward_proxy.Dumbproxy.Auth.Hmac.{HmacAuth, hmac_validate, verify_hmac_login_and_password}
use go_forward_proxy.Dumbproxy.Auth.Redis.{RedisAuth, redis_validate, redis_matches}
use go_forward_proxy.Dumbproxy.Auth.Cert.{CertAuth, cert_validate, handle_reject, cert_user}
use go_forward_proxy.Dumbproxy.Auth.Reject.{
  StaticRejectAuth, static_reject_validate, no_auth_validate, reject_http_validate,
}
use go_forward_proxy.Dumbproxy.Auth.{
  Auth, Next, nil, chained, basic_auth, hmac_auth, cert_auth, redis_auth, no_auth, reject_http_auth,
  static_reject_auth, validate, next_validate,
}

-- A status was sent.
abbrev pub is_sent : Writer → Bool
is_sent wr = elim wr.status [ none ↦ false | some _ ↦ true ]

pub http_error-sent : (m : String) (code : _) (wr : Writer) → is_sent (http_error m code wr) ≡ true
unfolding http_error write_body write_header
http_error-sent m code wr = elim (Option-cases wr.status) [
  | inl e ↦ ground (arith, e)
  | inr (x, e) ↦ ground (arith, e)
]

ask-sent : (wr : Writer) → is_sent (ask_for_credentials wr) ≡ true
unfolding ask_for_credentials write_body write_header
ask-sent wr = ground arith

triggered-sent : (wr : Writer) → is_sent (auth_triggered wr) ≡ true
unfolding auth_triggered write_body write_header
triggered-sent wr = ground arith

-- Any verdict but `denied` leaves the answer to others.
abbrev pub is_answered : {E : Type 0} → Verdict × Writer × E → Bool
is_answered (denied, wr, env) = is_sent wr
is_answered (admitted user, wr, env) = true
is_answered (panicked, wr, env) = true

module _ (c : Calls) where
  abbrev pub Answers : Validate c → Type 0
  Answers v = (req : Request) (wr : Writer) (env : c.Env) → is_answered (v req wr env) ≡ true

  abbrev pub NextAnswers : Option (Validate c) → Type 0
  NextAnswers none = Unit
  NextAnswers (some v) = Answers v

  require_basic_auth-Answers :
      (hidden_domain : String) (next : Option (Validate c))
      → NextAnswers next
      → Answers (require_basic_auth c hidden_domain next)
  unfolding require_basic_auth
  require_basic_auth-Answers hidden_domain (some v) h req wr env = h req wr env
  require_basic_auth-Answers hidden_domain none h req wr env =
      ground (arith, http_error-sent bad_req_msg 400 wr, ask-sent wr)

  admit-Answers : (hidden_domain login : String) → Answers (admit c hidden_domain login)
  unfolding admit
  admit-Answers hidden_domain login req wr env = ground (arith, triggered-sent wr)

  basic_validate-Answers :
      (auth : BasicAuth c) (next : Option (Validate c))
      → NextAnswers next
      → Answers (basic_validate c auth next)
  unfolding basic_validate
  basic_validate-Answers auth next h req wr env =
      let refused = require_basic_auth-Answers auth.hidden_domain next h req wr env in
      elim (Option-cases (basic_credentials c req)) [
        | inl e ↦ ground (arith, e, refused)
        | inr ((login, password), e) ↦
            ground (arith, e, refused, admit-Answers auth.hidden_domain login req wr env)
      ]

  hmac_validate-Answers :
      (auth : HmacAuth) (next : Option (Validate c))
      → NextAnswers next
      → Answers (hmac_validate c auth next)
  unfolding hmac_validate
  hmac_validate-Answers auth next h req wr env =
      let refused = λ (e : c.Env). require_basic_auth-Answers auth.hidden_domain next h req wr e in
      elim (Option-cases (basic_credentials c req)) [
        | inl e ↦ ground (arith, e, refused env)
        | inr ((login, password), e) ↦
            let env' = (verify_hmac_login_and_password c auth.secret login password env).1 in
            ground (arith, e, refused env', admit-Answers auth.hidden_domain login req wr env')
      ]

  redis_validate-Answers :
      (auth : RedisAuth c) (next : Option (Validate c))
      → NextAnswers next
      → Answers (redis_validate c auth next)
  unfolding redis_validate
  redis_validate-Answers auth next h req wr env =
      let refused = λ (e : c.Env). require_basic_auth-Answers auth.hidden_domain next h req wr e in
      elim (Option-cases (basic_credentials c req)) [
        | inl e ↦ ground (arith, e, refused env)
        | inr ((login, password), e) ↦
            let env' = (redis_matches c auth login password env).1 in
            ground (arith, e, refused env', admit-Answers auth.hidden_domain login req wr env')
      ]

  handle_reject-Answers :
      (reject : Option (Validate c)) → NextAnswers reject → Answers (handle_reject c reject)
  unfolding handle_reject
  handle_reject-Answers none h req wr env = ground (arith, http_error-sent bad_req_msg 400 wr)
  handle_reject-Answers (some v) h req wr env = h req wr env

  cert_validate-Answers :
      (auth : CertAuth) (next reject : Option (Validate c))
      → NextAnswers next
      → NextAnswers reject
      → Answers (cert_validate c auth next reject)
  unfolding cert_validate cert_user
  cert_validate-Answers auth none reject h k req wr env =
      ground (arith, handle_reject-Answers reject k req wr env)
  cert_validate-Answers auth (some v) reject h k req wr env =
      ground (arith, handle_reject-Answers reject k req wr env, h req wr env)

  static_reject_validate-Answers : (a : StaticRejectAuth) → Answers (static_reject_validate c a)
  unfolding static_reject_validate write_body write_header
  static_reject_validate-Answers a req wr env = ground arith

  -- `ServeHTTP` of a reverse proxy sends a status.
  module _
      (serves : (p : c.ReverseProxy) (req : Request) (wr : Writer) (env : c.Env)
        → is_sent (c.serve_http p req wr env).0 ≡ true) where
    mutual
      unfolding validate next_validate no_auth_validate reject_http_validate

      validate-Answers : (a : Auth c) → Answers (validate c a)
      validate-Answers (basic_auth a n) =
          basic_validate-Answers a (next_validate c n) (next-Answers n)
      validate-Answers (hmac_auth a n) =
          hmac_validate-Answers a (next_validate c n) (next-Answers n)
      validate-Answers (cert_auth a n r) =
          cert_validate-Answers a (next_validate c n) (next_validate c r) (next-Answers n)
            (next-Answers r)
      validate-Answers (redis_auth a n) =
          redis_validate-Answers a (next_validate c n) (next-Answers n)
      validate-Answers no_auth = λ req wr env. refl
      validate-Answers (reject_http_auth p) = λ req wr env. serves p req wr env
      validate-Answers (static_reject_auth a) = static_reject_validate-Answers a

      next-Answers : (n : Next c) → NextAnswers (next_validate c n)
      next-Answers nil = tt
      next-Answers (chained a) = validate-Answers a

    -- A request that a provider, with the providers it passes requests on to, does not let in has had
    -- its answer: a status is sent. This is so for every provider and request, where the reverse
    -- proxies of providers of the kind reject-http send a status.
    pub validate_answers :
        (a : Auth c) (req : Request) (wr : Writer) (env : c.Env)
        → is_answered (validate c a req wr env) ≡ true
    validate_answers a = validate-Answers a
