-- ===== src/Tests/Manager.antt =====
-- The theorems on the manager at concrete states.
use go_forward_proxy.Base.{ℕ, true, ◌≡◌, ◌≢◌, refl, none, some}
use go_forward_proxy.Base.Int.{pos}
use go_forward_proxy.Base.Dict.{lookup}
use go_forward_proxy.Base.Result.{ok}
use go_forward_proxy.Database.{Proxy}
use go_forward_proxy.World.Sqlite.{set_proxy}
use go_forward_proxy.Instance.{ProxyInstance}
use go_forward_proxy.Instance.Lifecycle.{IsRunning}
use go_forward_proxy.Manager.{
  Manager, new_manager, insert_new_proxy, delete_proxy, update_existing_proxy,
}
use go_forward_proxy.Manager.Invariant.{IsConsistent}
use go_forward_proxy.Manager.Insert.Outcome.{
  IsInserted, insert_new_proxy-ok, insert_new_proxy_rollback,
}
use go_forward_proxy.Manager.Update.Outcome.{update_existing_proxy_torn}
use go_forward_proxy.Manager.Delete.{delete_proxy_removes}
use go_forward_proxy.Manager.Current.{IsCurrent, new_manager-IsCurrent}
use go_forward_proxy.Manager.Upsert.{upsert_proxy-IsConsistent}
use go_forward_proxy.AutoReset.Steps.{new_manager-IsConsistent}
use go_forward_proxy.Tests.SampleDb.{empty, row}
use go_forward_proxy.Tests.SampleWorld.{world, sqlite}
use go_forward_proxy.Tests.Sample.{config, info, kiot, other, services, first, second}
use go_forward_proxy.Tests.Runs.{runs}

abbrev pub stored : Proxy
stored = record {
  id = 1;
  proxy_str = "10.0.0.1:3128";
  api_key = "key";
  service_type = "kiotproxy";
  min_time_reset = pos 60;
  last_reset_at = pos 970000000000;
  created_at = pos 1000000000000;
}

first_insert : (insert_new_proxy world "key" "kiotproxy" (pos 60) kiot first).0 ≡ ok stored
unfolding runs
first_insert = refl

insert_new_proxy-ok_example :
    IsInserted sqlite "key" "kiotproxy"
      (pos 60)
      kiot
      first
      stored
      (insert_new_proxy world "key" "kiotproxy" (pos 60) kiot first).1
insert_new_proxy-ok_example =
    insert_new_proxy-ok sqlite "key" "kiotproxy" (pos 60) kiot first stored first_insert

-- A service of one type under the name of the other: the launch fails, and the row is deleted.
insert_new_proxy_rollback_example :
    let m' = (insert_new_proxy world "key" "tmproxy" (pos 60) kiot first).1 in
    (m'.instances ≡ first.instances) × ((j : ℕ) → row m'.db j ≡ row first.db j)
unfolding runs
insert_new_proxy_rollback_example =
    insert_new_proxy_rollback sqlite "key" "tmproxy" (pos 60) kiot first
      (info, pos 970000000000, pos 1000000000000) 1
      "failed to create proxy instance: failed to parse proxy string: invalid tmproxy format, expected ip:port:username:password"
      refl refl refl refl

pub first-IsConsistent : IsConsistent sqlite first
first-IsConsistent = new_manager-IsConsistent sqlite empty config services (pos 1000000000000)

pub second-IsConsistent : IsConsistent sqlite second
second-IsConsistent =
    upsert_proxy-IsConsistent sqlite "key" "kiotproxy" (pos 60) first first-IsConsistent

abbrev pub running : ProxyInstance world
running = record {
  proxy_id = 1;
  port = pos 10001;
  service_type = "kiotproxy";
  listener = some ":10001";
  handler = record {
    dialer = "http://10.0.0.1:3128";
    auth = "static://?username=admin&password=secret";
  };
  server = some (record {
    handler = record {
      dialer = "http://10.0.0.1:3128";
      auth = "static://?username=admin&password=secret";
    };
  });
  cancel = true;
  auth = "static://?username=admin&password=secret";
  dialer = "http://10.0.0.1:3128";
}

pub second_running : lookup 1 second.instances ≡ some running
unfolding runs
second_running = refl

update_existing_proxy_torn_example :
    let (r, m') = update_existing_proxy world 1 "key" (pos 60) other second in
    ((p : Proxy) → r ≢ ok p)
    × (row m'.db 1
        ≡ set_proxy "10.0.0.3:3128:user:pass" (pos 60) (pos 1000000000000) (row second.db 1))
    × (lookup 1 m'.instances ≡ some running)
unfolding runs
update_existing_proxy_torn_example =
    update_existing_proxy_torn sqlite 1 "key" (pos 60) other second
      (
        record {
          proxy_str = "10.0.0.3:3128:user:pass";
          service_type = "kiotproxy";
          next_reset_after = pos 0;
          expires_at = pos 0;
        },
        pos 1000000000000,
        pos 1000000000000,
      )
      running "invalid kiotproxy format, expected ip:port" refl refl second_running refl

delete_proxy_removes_example :
    let (r, m') = delete_proxy world 1 second in
    (r ≡ ok tt)
    × (lookup 1 m'.instances ≡ none)
    × (row m'.db 1 ≡ none)
    × ((j : ℕ)
        → ◌≢◌ {A = ℕ} 1 j
        → (lookup j m'.instances ≡ lookup j second.instances) × (row m'.db j ≡ row second.db j))
delete_proxy_removes_example = delete_proxy_removes sqlite 1 second refl

abbrev restarted : Manager world
restarted = new_manager world second.db config services (pos 1000000000000)

restarted-IsCurrent : IsCurrent sqlite restarted
restarted-IsCurrent = new_manager-IsCurrent sqlite second.db config services (pos 1000000000000)

running-IsRunning : IsRunning world 1 running
unfolding runs
running-IsRunning = record {
  id_eq = refl;
  port_eq = refl;
  listening = λ e. cc;
  serving = refl;
  dials = refl;
  guards = refl;
}
