-- ===== src/Tests/AutoReset.antt =====
-- The theorems on resets and on the whole program at concrete states.
use go_forward_proxy.Base.{ℕ, ◌≡◌, ◌≢◌, refl, some, arith, ◌==◌, if◌then◌else◌}
use go_forward_proxy.Base.Int.{pos, leb_ℤ}
use go_forward_proxy.Base.Dict.{lookup}
use go_forward_proxy.Base.Result.{ok}
use go_forward_proxy.World.Sqlite.{set_reset}
use go_forward_proxy.World.Rows.{HasUniqueKeys}
use go_forward_proxy.Instance.{ProxyInstance}
use go_forward_proxy.Instance.Lifecycle.{dialer_for}
use go_forward_proxy.Manager.{Manager}
use go_forward_proxy.Manager.Invariant.{IsConsistent}
use go_forward_proxy.AutoReset.{needs_reset, reset_proxy}
use go_forward_proxy.AutoReset.Due.{after, needs_reset-fetched}
use go_forward_proxy.AutoReset.Reset.{reset_proxy-ok}
use go_forward_proxy.AutoReset.Steps.{
  Reach, here, next, request, reachable-IsConsistent, reachable-HasUniqueKeys,
}
use go_forward_proxy.Api.Router.{Request, handle}
use go_forward_proxy.Tests.SampleDb.{empty, row}
use go_forward_proxy.Tests.SampleWorld.{world, sqlite, float_laws}
use go_forward_proxy.Tests.Sample.{config, new_info, kiot, services, first, second}
use go_forward_proxy.Tests.Runs.{runs}
use go_forward_proxy.Tests.Manager.{stored}

reset_proxy-ok_example :
    let m' = (reset_proxy world stored (pos 1100000000000) second).1 in
    ((j : ℕ)
      → row m'.db j ≡ (
          if 1 == j
          then set_reset "10.0.0.2:3128" (pos 1100000000000) (row second.db j)
          else row second.db j))
    × ((j : ℕ) → ◌≢◌ {A = ℕ} 1 j → lookup j m'.instances ≡ lookup j second.instances)
    × (pi : ProxyInstance world) × (pi' : ProxyInstance world) × (lookup 1 second.instances
        ≡ some pi)
    × (lookup 1 m'.instances ≡ some pi')
    × (pi'.service_type ≡ pi.service_type)
    × (dialer_for world "10.0.0.2:3128" pi.service_type ≡ ok pi'.dialer)
unfolding runs
reset_proxy-ok_example =
    reset_proxy-ok sqlite stored (pos 1100000000000) second kiot new_info refl refl refl

-- 30 seconds to the next reset when it was fetched and an interval of 60: due after 30 seconds.
needs_reset-fetched_example :
    needs_reset world (after 30 (pos 1000000000000)) stored ≡ leb_ℤ stored.min_time_reset (pos 60)
unfolding runs
needs_reset-fetched_example =
    needs_reset-fetched float_laws stored 30 30 (pos 1000000000000) refl (omega arith)

abbrev pub create_key : Request
create_key =
    Request.create
      (some (record { api_key = "key"; service_type = "kiotproxy"; min_time_reset = pos 60 }))

abbrev pub one_request : Manager world
one_request = (handle world create_key first).1

abbrev two_requests : Manager world
two_requests = (handle world create_key one_request).1

abbrev two_steps : Reach world first two_requests
two_steps = next (next here (request first create_key)) (request one_request create_key)

reachable-IsConsistent_example : IsConsistent sqlite two_requests
unfolding runs
reachable-IsConsistent_example =
    reachable-IsConsistent sqlite empty config services (pos 1000000000000) two_requests two_steps

no_keys : HasUniqueKeys sqlite first.db
unfolding runs
no_keys = record { unique = λ i j k h l. ground arith }

reachable-HasUniqueKeys_example : HasUniqueKeys sqlite two_requests.db
reachable-HasUniqueKeys_example = reachable-HasUniqueKeys sqlite two_steps no_keys
