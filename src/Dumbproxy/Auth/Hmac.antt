-- ===== src/Dumbproxy/Auth/Hmac.antt =====
-- auth/hmac.go: passwords that are tokens, signed by an authority that knows the secret; and util.go,
-- which signs them.
pub mod Token
use go_forward_proxy.Base.{
  String, Bool, true, false, not, Option, none, some, [], ◌/◌, str_eq, leb, if◌then◌else◌,
}
use go_forward_proxy.Base.Int.{ℤ, pos, negsuc, ◌+ℤ◌, ◌*ℤ◌, leb_ℤ}
use go_forward_proxy.Base.Bytes.{Bytes, length, take, eq_bytes, put_int64, get_int64}
use mathlib.Core.List.{◌++◌ as ◌+++◌}
use go_forward_proxy.Base.Result.{ok, Exec, pure, lift, gets, wrapping, check, ◌>>=◌, ◌>>◌}
use go_forward_proxy.Services.Interface.{Time}
use go_forward_proxy.Dumbproxy.Query.{Values, get, parse_query}
use go_forward_proxy.Dumbproxy.Calls.{Url, Calls}
use go_forward_proxy.Dumbproxy.Auth.Credentials.{
  Validate, Valid, require_basic_auth, try_valid, basic_credentials, admit,
}

abbrev hmac_signature_prefix : String
hmac_signature_prefix = "dumbproxy grant token v1"

abbrev env_var_hmac_secret : String
env_var_hmac_secret = "DUMBPROXY_HMAC_SECRET"

pub record HmacAuth : Type 0 where
  pub secret : Bytes
  pub hidden_domain : String
  pub stopped : Bool

pub record HmacToken : Type 0 where
  pub expire : ℤ
  pub signature : Bytes

-- `binary.Decode` of a token: 8 bytes and 32 bytes; bytes behind them are not looked at.
unfoldable pub decode_token : Bytes → Option HmacToken
decode_token bs = elim (get_int64 bs) [
  | none ↦ none
  | some (expire, rest) ↦
      if leb 32 (length rest)
      then some (record { expire = expire; signature = take 32 rest })
      else none
]

-- `binary.Write` of a token
unfoldable pub encode_token : HmacToken → Bytes
encode_token token = put_int64 token.expire token.signature

module _ (c : Calls) where
  -- `url.Values.Get` of the parameter, else the variable of the environment
  unfoldable pub new_hmac_auth :
      {Next : Type 0} (next_of : Values → Exec c.Env Next) → Url → Exec c.Env (HmacAuth × Next)
  new_hmac_auth next_of url = do
    values ← lift (parse_query c.unescape url.raw_query)
    from_env ← gets (c.getenv env_var_hmac_secret)
    let hs = get "secret" values
    let hex_secret = if str_eq hs "" then from_env else hs
    check (not (str_eq hex_secret ""))
        "no HMAC secret specified. Please specify \"secret\" parameter for auth provider or set DUMBPROXY_HMAC_SECRET environment variable."
    secret ← wrapping "can't hex-decode HMAC secret" (lift (c.decode_hex hex_secret))
    next ← next_of values
    pure (
      record {
        secret = secret;
        hidden_domain = c.to_lower (get "hidden_domain" values);
        stopped = false;
      },
      next,
    )

  read_clock : Exec c.Env Time
  read_clock env = let (now, env') = c.now env in (ok now, env')

  unfoldable pub calculate_hmac_signature : Bytes → String → ℤ → Bytes
  calculate_hmac_signature secret username expire =
      c.hmac_sha256 secret
        (c.bytes hmac_signature_prefix +++ (c.bytes username +++ put_int64 expire []))

  -- The token is not expired, and the signature is the one of the login.
  unfoldable pub verify_hmac_login_and_password : Bytes → String → String → c.Env → Bool × c.Env
  verify_hmac_login_and_password secret login password env = elim (c.decode_raw_url password) [
    | none ↦ (false, env)
    | some marshaled_token ↦ elim (decode_token marshaled_token) [
      | none ↦ (false, env)
      | some token ↦
          let (now, env') = c.now env in
          if not (leb_ℤ now (token.expire *ℤ pos 1000000000))
          then (false, env')
          else (eq_bytes token.signature (calculate_hmac_signature secret login token.expire), env')
    ]
  ]

  unfoldable pub hmac_validate : HmacAuth → Option (Validate c) → Validate c
  hmac_validate auth next req wr env = elim (basic_credentials c req) [
    | none ↦ require_basic_auth c auth.hidden_domain next req wr env
    | some (login, password) ↦
        let (good, env') = verify_hmac_login_and_password auth.secret login password env in
        if good
        then admit c auth.hidden_domain login req wr env'
        else require_basic_auth c auth.hidden_domain next req wr env'
  ]

  unfoldable pub hmac_valid : HmacAuth → Option (Valid c) → Valid c
  hmac_valid auth next user password env =
      let (good, env') = verify_hmac_login_and_password auth.secret user password env in
      if good then (true, env') else try_valid c next user password env'

  -- `Unix()` of a time: its seconds, rounded down
  unfoldable pub unix : Time → ℤ
  unix (pos n) = pos (n / 1000000000)
  unix (negsuc n) = negsuc (n / 1000000000)

  -- `hmacSign` of three arguments: the password that it prints beside the user name
  unfoldable pub hmac_sign : String → String → String → Exec c.Env String
  unfolding read_clock
  hmac_sign key username duration = do
    secret ← wrapping "unable to hex-decode HMAC secret" (lift (c.decode_hex key))
    validity ← wrapping "unable to parse validity duration" (lift (c.parse_duration duration))
    now ← read_clock
    let expire = unix (now +ℤ validity)
    let mac = calculate_hmac_signature secret username expire
    pure (c.encode_raw_url (encode_token (record { expire = expire; signature = take 32 mac })))
