-- ===== src/Config.antt =====
-- internal/config/config.go: the configuration, read from the environment.
pub mod Laws
use go_forward_proxy.Base.{String, none, some, str_eq, if◌then◌else◌}
use go_forward_proxy.Base.Int.{ℤ, pos}
use go_forward_proxy.Base.Decimal.{atoi}
use go_forward_proxy.Base.Result.{Result, ok, err}

pub record Config : Type 0 where
  pub server_ip : String
  pub api_port : ℤ
  pub username : String
  pub password : String
  pub database_path : String
  pub auto_reset_interval : ℤ

-- `os.Getenv`, after `godotenv.Load` has added what the file `.env` sets: "" for a variable that
-- is not set.
abbrev pub Environment : Type 0
Environment = String → String

module _ (env : Environment) where
  unfoldable pub get_env : String → String → String
  get_env key default_value =
      let value = env key in if str_eq value "" then default_value else value

  unfoldable pub get_env_as_int : String → ℤ → ℤ
  get_env_as_int key default_value =
      let value_str = env key in
      if str_eq value_str ""
      then default_value
      else elim (atoi value_str) [ none ↦ default_value | some value ↦ value ]

  unfoldable pub load_config : Result Config
  unfolding get_env get_env_as_int
  load_config =
      let cfg : Config = record {
        server_ip = get_env "SERVER_IP" "localhost";
        api_port = get_env_as_int "API_PORT" (pos 8080);
        username = get_env "PROXY_USERNAME" "admin";
        password = get_env "PROXY_PASSWORD" "";
        database_path = get_env "DATABASE_PATH" "./data/proxies.db";
        auto_reset_interval = get_env_as_int "AUTO_RESET_INTERVAL" (pos 10);
      } in
      if str_eq cfg.password ""
      then err "PROXY_PASSWORD environment variable is required"
      else ok cfg
