-- ===== src/Dumbproxy/Auth/Fuel.antt =====
-- auth/auth.go: `NewAuth` calls itself for a URL inside of its own, which is a shorter text, so that
-- it comes to an end.
use go_forward_proxy.Base.{
  ℕ, zero, suc, ◌<◌, ◌≤◌, String, Bool, true, false, ◌≡◌, refl, sym, ap, ◌∙◌, str_eq, arith, inl,
  inr, Bool-cases, if◌then◌else◌,
}
use go_forward_proxy.Base.Result.{ok, err, Exec, pure, wrapping, ◌>>=◌, Result-cases}
use go_forward_proxy.Dumbproxy.Query.{Values, parse_query, get}
use go_forward_proxy.Dumbproxy.Calls.{Url, Calls}
use go_forward_proxy.Dumbproxy.Auth.{
  Auth, Next, nil, chained, chain, by_scheme, new_auth_with, new_auth_levels, new_auth_within,
}
use go_forward_proxy.Dumbproxy.Auth.Basic.{new_static_auth, new_basic_file_auth}
use go_forward_proxy.Dumbproxy.Auth.Hmac.{new_hmac_auth}
use go_forward_proxy.Dumbproxy.Auth.Redis.{new_redis_auth}
use go_forward_proxy.Dumbproxy.Auth.Cert.{new_cert_auth}
use go_forward_proxy.Dumbproxy.Auth.Sizes.{
  size, SizeLaws, AllBelow, get-size, size-not_empty, parse_query-AllBelow,
}

module _ {c : Calls} (laws : SizeLaws c) where
  -- A provider's constructor looks at no other values than those of its query.
  abbrev ReadsQuery : {T : Type 0} → ((Values → Exec c.Env (Next c)) → T) → Url → Type 0
  ReadsQuery F url =
      ((vs : Values)
        → parse_query c.unescape url.raw_query ≡ ok vs
        → (next : Values → Exec c.Env (Next c)) → F next ≡ F (λ _. next vs))
      × ((e : String)
          → parse_query c.unescape url.raw_query ≡ err e
          → (next next' : Values → Exec c.Env (Next c)) → F next ≡ F next')

  module _ (n : ℕ) (new new' : String → Exec c.Env (Auth c))
      (agree : (s : String) → size s < n → new s ≡ new' s) where
    chain-agree :
        (key : String) (m : ℕ) (vs : Values)
        → m ≤ n
        → AllBelow m vs
        → chain c new key vs ≡ chain c new' key vs
    unfolding chain
    chain-agree key m vs h b = elim (Bool-cases (str_eq (get key vs) "")) [
      | inl e ↦ rw e refl
      | inr e ↦
          ap
            (λ (x : Exec c.Env (Auth c)).
              if str_eq (get key vs) ""
              then pure nil
              else (wrapping "chained auth provider construction failed" x >>= λ a.
                  pure (chained a)))
            (agree (get key vs) (omega (arith, get-size key m vs b, size-not_empty (get key vs) e)))
    ]

    query-agree :
        {T : Type 0} (F : (Values → Exec c.Env (Next c)) → T) (url : Url) (key : String)
        → ReadsQuery F url
        → size url.raw_query ≤ n
        → F (chain c new key) ≡ F (chain c new' key)
    query-agree F url key r h = elim (Result-cases (parse_query c.unescape url.raw_query)) [
      | inr (x, e) ↦ r.1 x e (chain c new key) (chain c new' key)
      | inl (vs, e) ↦
          r.0 vs e (chain c new key)
          ∙ ap (λ nx. F (λ _. nx))
              (chain-agree key (size url.raw_query) vs h
                (parse_query-AllBelow laws url.raw_query vs e))
          ∙ sym (r.0 vs e (chain c new' key))
    ]

    static-agree :
        (url : Url)
        → size url.raw_query ≤ n
        → new_static_auth c (chain c new "else") url ≡ new_static_auth c (chain c new' "else") url
    unfolding new_static_auth
    static-agree url h =
        query-agree (λ next. new_static_auth c next url) url "else"
          ((λ vs e next. rw e refl), (λ x e next next'. rw e refl)) h

    basic_file-agree :
        (url : Url)
        → size url.raw_query ≤ n
        → new_basic_file_auth c (chain c new "else") url
          ≡ new_basic_file_auth c (chain c new' "else") url
    unfolding new_basic_file_auth
    basic_file-agree url h =
        query-agree (λ next. new_basic_file_auth c next url) url "else"
          ((λ vs e next. rw e refl), (λ x e next next'. rw e refl)) h

    hmac-agree :
        (url : Url)
        → size url.raw_query ≤ n
        → new_hmac_auth c (chain c new "else") url ≡ new_hmac_auth c (chain c new' "else") url
    unfolding new_hmac_auth
    hmac-agree url h =
        query-agree (λ next. new_hmac_auth c next url) url "else"
          ((λ vs e next. rw e refl), (λ x e next next'. rw e refl)) h

    redis-agree :
        (cluster : Bool) (url : Url)
        → size url.raw_query ≤ n
        → new_redis_auth c (chain c new "else") cluster url
          ≡ new_redis_auth c (chain c new' "else") cluster url
    unfolding new_redis_auth
    redis-agree cluster url h =
        query-agree (λ next. new_redis_auth c next cluster url) url "else"
          ((λ vs e next. rw e refl), (λ x e next next'. rw e refl)) h

    cert-agree :
        (url : Url)
        → size url.raw_query ≤ n
        → new_cert_auth c (chain c new "next") (chain c new "else") url
          ≡ new_cert_auth c (chain c new' "next") (chain c new' "else") url
    unfolding new_cert_auth
    cert-agree url h =
        query-agree (λ next. new_cert_auth c next (chain c new "else") url) url "next"
          ((λ vs e next. rw e refl), (λ x e next next'. rw e refl)) h
        ∙ query-agree (λ reject. new_cert_auth c (chain c new' "next") reject url) url "else"
            ((λ vs e next. rw e refl), (λ x e next next'. rw e refl)) h

    by_scheme-agree :
        (url : Url) (scheme : String)
        → size url.raw_query ≤ n
        → by_scheme c new url scheme ≡ by_scheme c new' url scheme
    unfolding by_scheme
    by_scheme-agree url scheme h =
        rw
          (
            static-agree url h,
            basic_file-agree url h,
            hmac-agree url h,
            cert-agree url h,
            redis-agree false url h,
            redis-agree true url h,
          )
          refl

    new_auth_with-agree : (s : String) → size s ≤ n → new_auth_with c new s ≡ new_auth_with c new' s
    unfolding new_auth_with
    new_auth_with-agree s h = elim (Result-cases (c.parse_url s)) [
      | inr (x, e) ↦ rw e refl
      | inl (url, e) ↦ rw e (
          by_scheme-agree url (c.to_lower url.scheme)
            (omega (arith, h, laws.parse_url_size s url e)))
    ]

  levels-agree :
      (m n : ℕ) (bottom bottom' : String → Exec c.Env (Auth c)) (s : String)
      → size s < m
      → size s < n
      → new_auth_levels c m bottom s ≡ new_auth_levels c n bottom' s
  unfolding new_auth_levels
  levels-agree zero n bottom bottom' s h k = absurd (omega (arith, h))
  levels-agree (suc m) zero bottom bottom' s h k = absurd (omega (arith, k))
  levels-agree (suc m) (suc n) bottom bottom' s h k =
      new_auth_with-agree (size s) (new_auth_levels c m bottom) (new_auth_levels c n bottom')
        (λ t l. levels-agree m n bottom bottom' t (omega (arith, h, l)) (omega (arith, k, l))) s
        (omega arith)

  -- `NewAuth` comes to an end: one level of providers more than the URL has characters is enough.
  -- From there on its result is the same with any number of levels, and whatever is put at the
  -- bottom of them, so that the bottom is never asked for a provider.
  pub new_auth_within-levels :
      (m n : ℕ) (bottom : String → Exec c.Env (Auth c)) (s : String)
      → size s < m
      → size s < n
      → new_auth_within c m s ≡ new_auth_levels c n bottom s
  unfolding new_auth_within
  new_auth_within-levels m n bottom s h k = levels-agree m n _ bottom s h k
