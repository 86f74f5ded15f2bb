-- ===== src/Dumbproxy/Auth/Unmade.antt =====
-- When the provider that an instance asks for is not made: a configured login or password that is
-- empty, and a password that bcrypt makes no hash of.
use Prim.Native.String.{◌++◌}
use go_forward_proxy.Base.{
  ℕ, suc, String, ◌≡◌, sym, ap, ◌∙◌, Bool, true, false, ◌||◌, str_eq, arith, inl, inr, Bool-cases,
  if◌then◌else◌,
}
use go_forward_proxy.Base.Result.{err, Exec, pure, bind-err}
use go_forward_proxy.Config.{Config}
use go_forward_proxy.Instance.{auth_url}
use go_forward_proxy.Dumbproxy.Query.{Values, get}
use go_forward_proxy.Dumbproxy.Calls.{Calls}
use go_forward_proxy.Dumbproxy.Auth.{basic_auth, chain, new_auth_within}
use go_forward_proxy.Dumbproxy.Auth.Basic.{new_static_auth}
use go_forward_proxy.Dumbproxy.Auth.Plain.{is_plain, StaticLaws, parse_query-form}
use go_forward_proxy.Dumbproxy.Auth.Static.{static_url, new_auth-named}

abbrev pub missing_parameter : String → String
missing_parameter name = "\"" ++ name ++ "\" parameter is missing from auth config URI"

module _ {c : Calls} (laws : StaticLaws c) where
  made-no_username :
      (user password : String) {Next : Type 0} (next_of : Values → Exec c.Env Next) (env : c.Env)
      → is_plain user ≡ true
      → is_plain password ≡ true
      → str_eq user "" ≡ true
      → new_static_auth c next_of (static_url laws user password) env
        ≡ (err (missing_parameter "username"), env)
  unfolding new_static_auth get
  made-no_username user password next_of env p q u =
      ground (arith, parse_query-form laws user password p q)

  made-no_password :
      (user password : String) {Next : Type 0} (next_of : Values → Exec c.Env Next) (env : c.Env)
      → is_plain user ≡ true
      → is_plain password ≡ true
      → str_eq user "" ≡ false
      → str_eq password "" ≡ true
      → new_static_auth c next_of (static_url laws user password) env
        ≡ (err (missing_parameter "password"), env)
  unfolding new_static_auth get
  made-no_password user password next_of env p q u e =
      ground (arith, parse_query-form laws user password p q)

  made-empty :
      (user password : String) {Next : Type 0} (next_of : Values → Exec c.Env Next) (env : c.Env)
      → is_plain user ≡ true
      → is_plain password ≡ true
      → (str_eq user "" || str_eq password "") ≡ true
      → new_static_auth c next_of (static_url laws user password) env
        ≡ (err (missing_parameter (if str_eq user "" then "username" else "password")), env)
  unfolding new_static_auth get
  made-empty user password next_of env p q e = elim (Bool-cases (str_eq user "")) [
    | inl u ↦
        made-no_username user password next_of env p q u
        ∙ ap (λ (b : Bool). (err (missing_parameter (if b then "username" else "password")), env))
            (sym u)
    | inr u ↦
        made-no_password user password next_of env p q u (ground (arith, e, u))
        ∙ ap (λ (b : Bool). (err (missing_parameter (if b then "username" else "password")), env))
            (sym u)
  ]

  -- Where the configured login or password is empty, and the other is plain, no provider is made, no
  -- hash is drawn, and the error names the parameter that is missing, the login first.
  pub new_auth-empty :
      (n : ℕ) (cfg : Config) (env : c.Env)
      → is_plain cfg.username ≡ true
      → is_plain cfg.password ≡ true
      → (str_eq cfg.username "" || str_eq cfg.password "") ≡ true
      → new_auth_within c (suc n) (auth_url cfg) env
        ≡ (err (missing_parameter (if str_eq cfg.username "" then "username" else "password")), env)
  new_auth-empty n cfg env p q e =
      let next = chain c (new_auth_within c n) "else" in
      new_auth-named laws n cfg env p q
      ∙ bind-err (new_static_auth c next (static_url laws cfg.username cfg.password))
          (λ r. pure (basic_auth r.0 r.1)) {s = env}
          (made-empty cfg.username cfg.password next env p q e)

  made-no_hash :
      (user password : String) {Next : Type 0} (next_of : Values → Exec c.Env Next) (e : String)
      (env env' : c.Env)
      → is_plain user ≡ true
      → is_plain password ≡ true
      → str_eq user "" ≡ false
      → str_eq password "" ≡ false
      → c.bcrypt password env ≡ (err e, env')
      → new_static_auth c next_of (static_url laws user password) env ≡ (err e, env')
  unfolding new_static_auth get
  made-no_hash user password next_of e env env' p q p₀ q₀ b =
      ground (arith, parse_query-form laws user password p q)

  -- Where bcrypt makes no hash, no provider is made, and the error is that of bcrypt.
  pub new_auth-no_hash :
      (n : ℕ) (cfg : Config) (e : String) (env env' : c.Env)
      → is_plain cfg.username ≡ true
      → is_plain cfg.password ≡ true
      → str_eq cfg.username "" ≡ false
      → str_eq cfg.password "" ≡ false
      → c.bcrypt cfg.password env ≡ (err e, env')
      → new_auth_within c (suc n) (auth_url cfg) env ≡ (err e, env')
  new_auth-no_hash n cfg e env env' p q p₀ q₀ b =
      let next = chain c (new_auth_within c n) "else" in
      new_auth-named laws n cfg env p q
      ∙ bind-err (new_static_auth c next (static_url laws cfg.username cfg.password))
          (λ r. pure (basic_auth r.0 r.1)) {s = env}
          (made-no_hash cfg.username cfg.password next e env env' p q p₀ q₀ b)
