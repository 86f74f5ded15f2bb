-- ===== src/Tests/Api.antt =====
-- The theorems on the API and on the start of the program at concrete states.

use Prim.Native.String.{◌++◌}
use go_forward_proxy.Base.{String, ◌≡◌, refl, some, [], str_eq, if◌then◌else◌}
use go_forward_proxy.Base.Int.{pos}
use go_forward_proxy.Base.Text.{lacks}
use go_forward_proxy.Base.Result.{ok, err, pure}
use go_forward_proxy.Services.Interface.{Time}
use go_forward_proxy.Services.Http.{Http}
use go_forward_proxy.Config.{Environment, load_config}
use go_forward_proxy.Database.{Storage, init_db}
use go_forward_proxy.Instance.ParseProxyStr.{parse_proxy_str}
use go_forward_proxy.Instance.RoundTrip.{parse_proxy_str-tmproxy}
use go_forward_proxy.Services.TmProxy.{tm_proxy_str}
use go_forward_proxy.Manager.{Manager, start_all}
use go_forward_proxy.Manager.Invariant.{IsConsistent}
use go_forward_proxy.Manager.Current.{IsCurrent}
use go_forward_proxy.Api.{create_proxy}
use go_forward_proxy.Api.Stored.{IsStored, create_proxy-IsStored}
use go_forward_proxy.Program.{boot}
use go_forward_proxy.Program
use go_forward_proxy.Program.Boot.{boot_ready}
use go_forward_proxy.Tests.SampleDb.{Table}
use go_forward_proxy.Tests.SampleWorld.{world, sqlite}
use go_forward_proxy.Tests.Sample.{first, second}
use go_forward_proxy.Tests.Runs.{runs}
use go_forward_proxy.Tests.Manager.{stored, first-IsConsistent}

create_proxy-IsStored_example :
    IsStored sqlite "key" "kiotproxy"
      (pos 60)
      first
      stored
      (create_proxy world
        (some (record { api_key = "key"; service_type = "kiotproxy"; min_time_reset = pos 60 }))
        first).1
unfolding runs
create_proxy-IsStored_example =
    create_proxy-IsStored sqlite
      (record { api_key = "key"; service_type = "kiotproxy"; min_time_reset = pos 60 }) first stored
      first-IsConsistent refl

abbrev vars : Environment
vars key = if str_eq key "PROXY_PASSWORD" then "secret" else ""

parse_proxy_str-tmproxy_example :
    parse_proxy_str (tm_proxy_str ("10.0.0.1" ++ ":" ++ "3128") "user" "pass") "tmproxy"
    ≡ ok ("http://" ++ "user" ++ ":" ++ "pass" ++ "@" ++ "10.0.0.1" ++ ":" ++ "3128")
unfolding lacks
parse_proxy_str-tmproxy_example =
    parse_proxy_str-tmproxy "10.0.0.1" "3128" refl refl "user" "pass" refl refl

-- an HTTP client that reaches no server
abbrev http : Http Time
http = record {
  Request = String;
  Body = String;
  marshal = λ r. ok r.api_key;
  new_request = λ verb url body. ok url;
  set_header = λ k v r. r;
  send = λ r env. (err "unreachable", env);
  decode_tm_new = λ b. err "empty";
  decode_tm_current = λ b. err "empty";
  decode_kiot_new = λ b. err "empty";
  decode_kiot_current = λ b. err "empty";
  parse_time = λ layout text. err "empty";
}

abbrev storage : Storage Time Table
storage = record {
  dir = λ path. ".";
  mkdir_all = λ path. pure tt;
  open_sqlite = λ path. pure second.db;
  exec = λ db statement. pure tt;
}

abbrev booted : Manager world
booted =
    (start_all world (record {
      instances = [];
      db = second.db;
      config = record {
        server_ip = "localhost";
        api_port = pos 8080;
        username = "admin";
        password = "secret";
        database_path = "./data/proxies.db";
        auto_reset_interval = pos 10;
      };
      proxy_services = Program.services world http storage;
      env = pos 5;
    })).1

boot_ready_example : IsConsistent sqlite booted × IsCurrent sqlite booted
unfolding runs boot load_config init_db
boot_ready_example = boot_ready sqlite http storage vars (pos 5) booted refl
