-- ===== src/Tests/Program.antt =====
-- The theorems on runs of the program and on the stored upstreams at concrete states.
use go_forward_proxy.Base.{eq_iff, String, ◌≢◌, refl, some, arith}
use go_forward_proxy.Base.Int.{pos}
use go_forward_proxy.Base.Result.{Result, ok}
use go_forward_proxy.Instance.{ProxyInstance}
use go_forward_proxy.Manager.{Manager, upsert_proxy, update_instance, on_db}
use go_forward_proxy.Manager.Current.{IsCurrent, new_manager-IsCurrent}
use go_forward_proxy.Manager.Current.Upsert.{upsert_proxy-IsCurrent}
use go_forward_proxy.AutoReset.{reset_proxy, check_and_reset_proxies}
use go_forward_proxy.AutoReset.NotDue.{IsUntouched, check_and_reset_proxies_not_due}
use go_forward_proxy.AutoReset.Current.{reset_proxy-IsCurrent}
use go_forward_proxy.AutoReset.Steps.{
  Reach, here, next, request, store, switch, reachable_ports_distinct,
}
use go_forward_proxy.Api.Router.{Request, handle}
use go_forward_proxy.Tests.SampleDb.{empty}
use go_forward_proxy.Tests.SampleWorld.{world, sqlite}
use go_forward_proxy.Tests.Sample.{config, new_info, kiot, services, first, second}
use go_forward_proxy.Tests.Runs.{runs}
use go_forward_proxy.Tests.Manager.{stored, running, first-IsConsistent, second-IsConsistent}
use go_forward_proxy.Tests.AutoReset.{create_key, one_request}

first-IsCurrent : IsCurrent sqlite first
first-IsCurrent = new_manager-IsCurrent sqlite empty config services (pos 1000000000000)

second-IsCurrent : IsCurrent sqlite second
unfolding runs
second-IsCurrent =
    upsert_proxy-IsCurrent sqlite "key" "kiotproxy" (pos 60) first stored first-IsConsistent refl
      first-IsCurrent

upsert_proxy-IsCurrent_example :
    IsCurrent sqlite (upsert_proxy world "key" "kiotproxy" (pos 90) second).1
unfolding runs
upsert_proxy-IsCurrent_example =
    upsert_proxy-IsCurrent sqlite "key" "kiotproxy" (pos 90) second
      (record stored { min_time_reset = pos 90 }) second-IsConsistent refl second-IsCurrent

reset_proxy-IsCurrent_example :
    IsCurrent sqlite (reset_proxy world stored (pos 1100000000000) second).1
unfolding runs
reset_proxy-IsCurrent_example =
    reset_proxy-IsCurrent sqlite stored (pos 1100000000000) second kiot new_info refl refl
      second-IsConsistent refl second-IsCurrent

abbrev create_other : Request
create_other =
    Request.create
      (some (record { api_key = "other"; service_type = "kiotproxy"; min_time_reset = pos 60 }))

abbrev two_proxies : Manager world
two_proxies = (handle world create_other one_request).1

abbrev running_other : ProxyInstance world
running_other = record running { proxy_id = 2; port = pos 10002; listener = some ":10002" }

reachable_ports_distinct_example : running.port ≢ running_other.port
unfolding runs
reachable_ports_distinct_example =
    reachable_ports_distinct sqlite empty config services (pos 1000000000000) two_proxies 1 2
      running running_other
      (next (next here (request first create_key)) (request one_request create_other)) refl refl
      (omega arith)

-- Thirty of its sixty seconds have passed.
check_and_reset_proxies_not_due_example :
    IsUntouched sqlite 1 second (check_and_reset_proxies world second).1
unfolding runs
check_and_reset_proxies_not_due_example =
    check_and_reset_proxies_not_due sqlite 1 stored second refl refl

-- A reset that has stored its `proxy_str` when an upsert of the same key comes in between, and then
-- switches the instance.
abbrev reset_stored : Manager world
reset_stored = (on_db world (world.update_reset "10.0.0.2:3128" (pos 1100000000000) 1) second).1

abbrev upserted_between : Manager world
upserted_between = (handle world create_key reset_stored).1

abbrev raced : Manager world
raced = (update_instance world 1 "10.0.0.2:3128" upserted_between).1

raced-Reach : Reach world second raced
raced-Reach =
    next
      (next (next here (store second "10.0.0.2:3128" (pos 1100000000000) 1))
        (request reset_stored create_key))
      (switch upserted_between "10.0.0.2:3128" 1)

abbrev raced_instance : ProxyInstance world
raced_instance = record running {
  handler = record { dialer = "http://10.0.0.2:3128"; auth = running.auth };
  server =
      some (record { handler = record { dialer = "http://10.0.0.2:3128"; auth = running.auth } });
  dialer = "http://10.0.0.2:3128";
}

upstreams_differ : ◌≢◌ {A = Result String} (ok "http://10.0.0.1:3128") (ok "http://10.0.0.2:3128")
upstreams_differ e = ground (arith, eq_iff "http://10.0.0.1:3128" "http://10.0.0.2:3128")

-- The row names the upstream of the upsert, and the instance dials through the one of the reset.
raced_not-IsCurrent : ¬ (IsCurrent sqlite raced)
unfolding runs
raced_not-IsCurrent c = upstreams_differ (c.dials 1 raced_instance refl)
