-- ===== src/Dumbproxy/Auth/Static.antt =====
-- The provider that an instance is made with: `NewProxyInstance` names it by a URL that holds the
-- configured credentials.

use Prim.Native.String.{◌++◌}
use go_forward_proxy.Base.{
  ℕ, suc, String, ◌≡◌, refl, ap, ◌∙◌, Bool, true, false, ◌&&◌, none, some, [], ◌∷◌, str_eq, eq_iff,
  arith, inl, inr, Option-cases, if◌then◌else◌,
}
use go_forward_proxy.Base.Result.{ok, Exec, pure, lift, ◌>>=◌, bind-ok}
use go_forward_proxy.Config.{Config}
use go_forward_proxy.Instance.{auth_url}
use go_forward_proxy.Dumbproxy.Http.{Request, Writer}
use go_forward_proxy.Dumbproxy.Query.{Values, get}
use go_forward_proxy.Dumbproxy.Calls.{Url, Calls}
use go_forward_proxy.Dumbproxy.Auth.{
  Auth, basic_auth, nil, chain, by_scheme, new_auth_with, new_auth_levels, new_auth_within,
  validate,
}
use go_forward_proxy.Dumbproxy.Auth.Basic.{BasicAuth, new_static_auth, basic_validate}
use go_forward_proxy.Services.KiotProxy.{zero_time}
use go_forward_proxy.Dumbproxy.Auth.Credentials.{
  denied, admitted, Validate, basic_credentials, require_basic_auth, admit, ask_for_credentials,
}
use go_forward_proxy.Dumbproxy.Auth.Plain.{is_plain, StaticLaws, parse_query-form}

-- what the provider of one login answers, for the passwords that it takes
unfoldable pub static_answer : (c : Calls) → String → (String → Bool) → Validate c
static_answer c user takes req wr env = elim (basic_credentials c req) [
  | none ↦ (denied, ask_for_credentials wr, env)
  | some (u, p) ↦
      if str_eq user u && takes p
      then (admitted user, wr, env)
      else (denied, ask_for_credentials wr, env)
]

module _ {c : Calls} (laws : StaticLaws c) where
  abbrev static_provider : c.File → BasicAuth c
  static_provider f = record {
    pw = record { file = f; mod_time = zero_time };
    pw_filename = "";
    hidden_domain = "";
    stopped = false;
  }

  abbrev static_auth : c.File → Auth c
  static_auth f = basic_auth (static_provider f) nil

  abbrev pub static_url : String → String → Url
  static_url user password = record {
    scheme = "static";
    user = "";
    host = "";
    path = "";
    raw_path = "";
    raw_query = "username=" ++ user ++ "&password=" ++ password;
  }

  made :
      (user password : String) {Next : Type 0} (next_of : Values → Exec c.Env Next) (nothing : Next)
      (hash : String) (f : c.File) (env env' : c.Env)
      → is_plain user ≡ true
      → is_plain password ≡ true
      → str_eq user "" ≡ false
      → str_eq password "" ≡ false
      → c.bcrypt password env ≡ (ok hash, env')
      → c.new_from_reader (user ++ ":" ++ hash) ≡ ok f
      → next_of (("username", user) ∷ ("password", password) ∷ []) env' ≡ (ok nothing, env')
      → new_static_auth c next_of (static_url user password) env
        ≡ (ok (static_provider f, nothing), env')
  unfolding new_static_auth get
  made user password next_of nothing hash f env env' p q p₀ q₀ b r nx =
      ground (arith, parse_query-form laws user password p q, laws.lower_nothing)

  -- The URL of a configuration names the provider of one login and password.
  pub new_auth-named :
      (n : ℕ) (cfg : Config) (env : c.Env)
      → is_plain cfg.username ≡ true
      → is_plain cfg.password ≡ true
      → new_auth_within c (suc n) (auth_url cfg) env
        ≡ (new_static_auth c
                (chain c (new_auth_within c n) "else")
                (static_url cfg.username cfg.password)
              >>= λ r. pure (basic_auth r.0 r.1))
            env
  unfolding new_auth_within new_auth_levels new_auth_with by_scheme chain auth_url get
  new_auth-named n cfg env p q =
      let url = static_url cfg.username cfg.password in
      ap
        (λ r. (lift r >>= λ url. by_scheme c (new_auth_within c n) url (c.to_lower url.scheme)) env)
        (laws.parse_static cfg.username cfg.password p q)
      ∙ ap (λ scheme. by_scheme c (new_auth_within c n) url scheme env) laws.lower_static

  new_auth-static :
      (n : ℕ) (cfg : Config) (hash : String) (f : c.File) (env env' : c.Env)
      → is_plain cfg.username ≡ true
      → is_plain cfg.password ≡ true
      → str_eq cfg.username "" ≡ false
      → str_eq cfg.password "" ≡ false
      → c.bcrypt cfg.password env ≡ (ok hash, env')
      → c.new_from_reader (cfg.username ++ ":" ++ hash) ≡ ok f
      → new_auth_within c (suc n) (auth_url cfg) env ≡ (ok (static_auth f), env')
  unfolding chain get
  new_auth-static n cfg hash f env env' p q p₀ q₀ b r =
      let url = static_url cfg.username cfg.password in
      let next = chain c (new_auth_within c n) "else" in
      new_auth-named n cfg env p q
      ∙ bind-ok (new_static_auth c next url) (λ r. pure (basic_auth r.0 r.1)) {s = env}
          (made cfg.username cfg.password next nil hash f env env' p q p₀ q₀ b r refl)

  validate-static :
      (user : String) (takes : String → Bool) (f : c.File)
      → ((u p : String) → c.match f u p ≡ (str_eq user u && takes p))
      → (req : Request) (wr : Writer) (env : c.Env)
      → validate c (static_auth f) req wr env ≡ static_answer c user takes req wr env
  unfolding validate basic_validate static_answer require_basic_auth admit
  validate-static user takes f m req wr env = elim (Option-cases (basic_credentials c req)) [
    | inl e ↦ ground (arith, e)
    | inr ((u, p), e) ↦ ground (arith, e, m u p, eq_iff user u)
  ]

  -- For a configuration with a login and a password of letters, digits, "-", "_" and ".", neither
  -- empty, the provider that `NewProxyInstance` asks for is made wherever bcrypt makes a hash, and it
  -- lets a request in, as the configured login, just where the header `Proxy-Authorization` holds the
  -- configured login and a password that bcrypt takes for that hash; any other request is answered with status 407, and none is passed
  -- on to another provider.
  pub new_auth-static_answer :
      (n : ℕ) (cfg : Config) (hash : String) (env env' : c.Env)
      → is_plain cfg.username ≡ true
      → is_plain cfg.password ≡ true
      → str_eq cfg.username "" ≡ false
      → str_eq cfg.password "" ≡ false
      → c.bcrypt cfg.password env ≡ (ok hash, env')
      → (auth : Auth c) × (new_auth_within c (suc n) (auth_url cfg) env ≡ (ok auth, env'))
        × ((req : Request) (wr : Writer) (e : c.Env)
            → validate c auth req wr e ≡ static_answer c cfg.username (laws.compare hash) req wr e)
  new_auth-static_answer n cfg hash env env' p q p₀ q₀ b =
      let (f, r, m) =
        laws.htpasswd_line cfg.username cfg.password hash env env' p
          (λ x. absurd (ground (arith, eq_iff cfg.username ""))) b in
      (
        static_auth f,
        new_auth-static n cfg hash f env env' p q p₀ q₀ b r,
        validate-static cfg.username (laws.compare hash) f m,
      )
