-- ===== src/Config/Laws.antt =====
-- What a configuration that was loaded holds.
use go_forward_proxy.Base.{String, ◌-◌, ap, ◌∙◌, ◌≡◌, ◌≢◌, arith, eq_iff}
use go_forward_proxy.Base.Int.{ℤ, pos, negsuc, two_63, ◌<ℤ◌, ◌≤ℤ◌}
use go_forward_proxy.Base.Decimal.{atoi, format_int}
use go_forward_proxy.Base.Decimal.RoundTrip.{format_int_nonempty, atoi-format_int}
use go_forward_proxy.Base.Result.{ok, err}
use go_forward_proxy.Config.{Config, Environment, get_env, get_env_as_int, load_config}

get_env-ne_empty :
    (env : Environment) (key default_value : String)
    → default_value ≢ ""
    → get_env env key default_value ≢ ""
unfolding get_env
get_env-ne_empty env key default_value h e = ground (arith, eq_iff (env key) "", h)

-- A number of an `int` that is set in decimal is the setting, whatever the default.
pub get_env_as_int-format_int :
    (env : Environment) (key : String) (default_value z : ℤ)
    → env key ≡ format_int z
    → z <ℤ pos two_63
    → negsuc (two_63 - 1) ≤ℤ z
    → get_env_as_int env key default_value ≡ z
unfolding get_env_as_int
get_env_as_int-format_int env key default_value z e h k =
    ground (arith, eq_iff (env key) "", format_int_nonempty z, ap atoi e ∙ atoi-format_int z h k)

-- Loading fails exactly where no proxy password is set.
pub load_config_iff :
    (env : Environment)
    → (env "PROXY_PASSWORD" ≡ ""
        → load_config env ≡ err "PROXY_PASSWORD environment variable is required")
      × (env "PROXY_PASSWORD" ≢ ""
          → (cfg : Config) × (load_config env ≡ ok cfg)
            × (cfg.password ≡ env "PROXY_PASSWORD")
            × (cfg.username ≢ "")
            × (cfg.server_ip ≢ "")
            × (cfg.database_path ≢ ""))
unfolding load_config
load_config_iff env = (
  λ unset. ground (arith, eq_iff (env "PROXY_PASSWORD") ""),
  λ set. (
    record {
      server_ip = get_env env "SERVER_IP" "localhost";
      api_port = get_env_as_int env "API_PORT" (pos 8080);
      username = get_env env "PROXY_USERNAME" "admin";
      password = get_env env "PROXY_PASSWORD" "";
      database_path = get_env env "DATABASE_PATH" "./data/proxies.db";
      auto_reset_interval = get_env_as_int env "AUTO_RESET_INTERVAL" (pos 10);
    },
    ground (arith, eq_iff (env "PROXY_PASSWORD") ""),
    ground (arith, eq_iff (env "PROXY_PASSWORD") ""),
    get_env-ne_empty env "PROXY_USERNAME" "admin" (λ e. cc (e, (eq_iff "admin" "").1 e)),
    get_env-ne_empty env "SERVER_IP" "localhost" (λ e. cc (e, (eq_iff "localhost" "").1 e)),
    get_env-ne_empty env "DATABASE_PATH" "./data/proxies.db"
        (λ e. cc (e, (eq_iff "./data/proxies.db" "").1 e)),
  ),
)
