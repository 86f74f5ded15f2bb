-- ===== src/Tests/Sample.antt =====
-- A configuration, a service and states to apply the theorems to.

use go_forward_proxy.Base.{[], ◌∷◌}
use go_forward_proxy.Base.Int.{pos}
use go_forward_proxy.Base.Result.{ok, err}
use go_forward_proxy.Services.Interface.{Time, ProxyInfo, ProxyService}
use go_forward_proxy.Config.{Config}
use go_forward_proxy.Manager.{Manager, Services, new_manager, upsert_proxy}
use go_forward_proxy.Tests.SampleDb.{empty}
use go_forward_proxy.Tests.SampleWorld.{world}

abbrev pub config : Config
config = record {
  server_ip = "localhost";
  api_port = pos 8080;
  username = "admin";
  password = "secret";
  database_path = "proxies.db";
  auto_reset_interval = pos 10;
}

abbrev pub info : ProxyInfo
info = record {
  proxy_str = "10.0.0.1:3128";
  service_type = "kiotproxy";
  next_reset_after = pos 30;
  expires_at = pos 0;
}

abbrev pub new_info : ProxyInfo
new_info = record {
  proxy_str = "10.0.0.2:3128";
  service_type = "kiotproxy";
  next_reset_after = pos 0;
  expires_at = pos 0;
}

-- a service whose calls succeed
abbrev pub kiot : ProxyService Time
kiot = record {
  get_current_proxy = λ key env. (ok info, env);
  get_new_proxy = λ key env. (ok new_info, env);
  get_service_type = "kiotproxy";
}

-- a service that returns a `proxy_str` of another format
abbrev pub other : ProxyService Time
other = record {
  get_current_proxy = λ key env. (err "no current proxy", env);
  get_new_proxy = λ key env. (ok (record new_info { proxy_str = "10.0.0.3:3128:user:pass" }), env);
  get_service_type = "tmproxy";
}

abbrev pub services : Services world
services = ("kiotproxy", kiot) ∷ ("tmproxy", other) ∷ []

abbrev pub first : Manager world
first = new_manager world empty config services (pos 1000000000000)

abbrev pub second : Manager world
second = (upsert_proxy world "key" "kiotproxy" (pos 60) first).1
