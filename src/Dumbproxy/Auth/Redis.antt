-- ===== src/Dumbproxy/Auth/Redis.antt =====
-- auth/redis.go: encoded passwords under the keys of a Redis server.
use Prim.Native.String.{◌++◌}
use go_forward_proxy.Base.{String, Bool, true, false, Option, none, some, if◌then◌else◌}
use go_forward_proxy.Base.Result.{ok, err, Exec, pure, lift, ◌>>=◌}
use go_forward_proxy.Dumbproxy.Query.{Values, get, parse_query}
use go_forward_proxy.Dumbproxy.Calls.{Url, Calls}
use go_forward_proxy.Dumbproxy.Auth.Credentials.{
  Validate, Valid, require_basic_auth, try_valid, basic_credentials, admit, make_passwd_matcher,
}

module _ (c : Calls) where
  pub record RedisAuth : Type 0 where
    pub hidden_domain : String
    pub r : c.Client
    pub key_prefix : String
    pub stopped : Bool

  unfoldable pub new_redis_auth :
      {Next : Type 0} (next_of : Values → Exec c.Env Next)
      → Bool
      → Url
      → Exec c.Env (RedisAuth × Next)
  new_redis_auth next_of cluster url = do
    values ← lift (parse_query c.unescape url.raw_query)
    let link = get "url" values
    r ← lift (if cluster then c.new_cluster_client link else c.new_client link)
    next ← next_of values
    pure (
      record {
        hidden_domain = c.to_lower (get "hidden_domain" values);
        r = r;
        key_prefix = get "key_prefix" values;
        stopped = false;
      },
      next,
    )

  -- whether the password is the one that is stored for the login
  unfoldable pub redis_matches : RedisAuth → String → String → c.Env → Bool × c.Env
  redis_matches auth login password env =
      let (fetched, env') = c.redis_get auth.r (auth.key_prefix ++ login) env in
      elim fetched [
        | err e ↦ (false, env')
        | ok encoded_passwd ↦ elim (make_passwd_matcher c encoded_passwd) [
          | err e ↦ (false, env')
          | ok matcher ↦ (c.matches_password matcher password, env')
        ]
      ]

  unfoldable pub redis_validate : RedisAuth → Option (Validate c) → Validate c
  redis_validate auth next req wr env = elim (basic_credentials c req) [
    | none ↦ require_basic_auth c auth.hidden_domain next req wr env
    | some (login, password) ↦
        let (good, env') = redis_matches auth login password env in
        if good
        then admit c auth.hidden_domain login req wr env'
        else require_basic_auth c auth.hidden_domain next req wr env'
  ]

  unfoldable pub redis_valid : RedisAuth → Option (Valid c) → Valid c
  redis_valid auth next user password env =
      let (good, env') = redis_matches auth user password env in
      if good then (true, env') else try_valid c next user password env'
