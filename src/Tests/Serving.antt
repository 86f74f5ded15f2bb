-- ===== src/Tests/Serving.antt =====
-- What runs on the port of an instance, at concrete inputs.
use go_forward_proxy.Base.{[], ◌∷◌, true, false}
use go_forward_proxy.Base.Dict.{lookup}
use go_forward_proxy.Services.Interface.{ProxyService}
use go_forward_proxy.Services.KiotProxy.{zero_time}
use go_forward_proxy.Manager.{Manager, Services, new_manager}
use go_forward_proxy.Api.Router.{handle}
use go_forward_proxy.AutoReset.Steps.{here, next, request}
use go_forward_proxy.Dumbproxy.Query.{get, parse_query, parse_pieces}
use go_forward_proxy.Dumbproxy.Auth.{
  Auth, basic_auth, nil, new_auth_within, new_auth_levels, new_auth_with, by_scheme, chain,
}
use go_forward_proxy.Dumbproxy.Auth.Basic.{new_static_auth}
use go_forward_proxy.Dumbproxy.Auth.Sizes.{size}
use go_forward_proxy.Dumbproxy.Serving.Always.{IsHash, reachable-served_as_configured}
use go_forward_proxy.Base.Text.{cut, lacks}
use go_forward_proxy.Instance.{auth_url}
use go_forward_proxy.Tests.Sample.{info, new_info}
use go_forward_proxy.Tests.SampleDb.{empty}
use go_forward_proxy.Tests.SampleCalls.{url_of, parse_url, lower}
use go_forward_proxy.Tests.SampleWorld.{sqlite}
use go_forward_proxy.Tests.Runs.{runs}
use go_forward_proxy.Tests.AutoReset.{create_key}
use go_forward_proxy.Base.{ℕ, String, ◌≡◌, refl, some}
use go_forward_proxy.Base.Int.{pos}
use go_forward_proxy.Base.Result.{ok}
use go_forward_proxy.Dumbproxy.Http.{Request, Writer}
use go_forward_proxy.Dumbproxy.Auth.Plain.{is_plain}
use go_forward_proxy.Dumbproxy.Handler.{ProxyHandler, State, is_loopback, serve_http}
use go_forward_proxy.Dumbproxy.Handler.Ends.{Net}
use go_forward_proxy.Dumbproxy.Serving.{provided, server_handler, served_as_configured}
use go_forward_proxy.Instance.{ProxyInstance}
use go_forward_proxy.World.{World}
use go_forward_proxy.Tests.Dumbproxy.{cfg}
use go_forward_proxy.Tests.SampleCalls.{calls, static_laws}
use go_forward_proxy.Tests.SampleWorld.{world}

abbrev both : World
both = provided calls world

abbrev kiotproxy : ProxyService both.Env
kiotproxy = record {
  get_current_proxy = λ key env. (ok info, env);
  get_new_proxy = λ key env. (ok new_info, env);
  get_service_type = "kiotproxy";
}

abbrev services : Services both
services = ("kiotproxy", kiotproxy) ∷ []

abbrev at_start : Manager both
at_start = new_manager both empty cfg services (pos 1000000000000, 0)

abbrev after_request : Manager both
after_request = (handle both create_key at_start).1

abbrev provider : Auth calls
provider =
    basic_auth
      (record {
        pw = record { file = ("alice", "s3cret"); mod_time = zero_time };
        pw_filename = "";
        hidden_domain = "";
        stopped = false;
      })
      nil

abbrev running : ProxyInstance both
running = record {
  proxy_id = 1;
  port = pos 10001;
  service_type = "kiotproxy";
  listener = some ":10001";
  handler = record { dialer = "http://10.0.0.1:3128"; auth = provider };
  server = some (record { handler = record { dialer = "http://10.0.0.1:3128"; auth = provider } });
  cancel = true;
  auth = provider;
  dialer = "http://10.0.0.1:3128";
}

is_running : lookup 1 after_request.instances ≡ some running
unfolding runs new_auth_within new_auth_levels new_auth_with by_scheme chain new_static_auth
    parse_query parse_pieces get size cut lacks url_of parse_url lower auth_url
is_running = refl

reachable-served_as_configured_example :
    (hash : String) × IsHash calls cfg hash
    × (static_laws.compare hash cfg.password ≡ true)
    × (handler : ProxyHandler calls) × (server_handler calls world running ≡ some handler)
    × ((net : Net) (local_addr : String) (req : Request) (wr : Writer) (st : State ℕ net.E)
        → serve_http calls net handler local_addr req wr st
          ≡ served_as_configured calls net handler cfg
              (static_laws.compare hash)
              local_addr
              req
              wr
              st
              (is_loopback req st.outbound))
unfolding is_plain
reachable-served_as_configured_example =
    reachable-served_as_configured static_laws cfg refl refl refl refl sqlite empty services
      (pos 1000000000000, 0) after_request 1 running (next here (request at_start create_key))
      is_running
