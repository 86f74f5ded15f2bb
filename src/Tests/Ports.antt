-- ===== src/Tests/Ports.antt =====
-- A table whose ids have grown beyond the ports, at concrete inputs: `listen` reads the port and
-- refuses one of more than 16 bits.
use Prim.Native.Char.{Char, char}
use go_forward_proxy.Base.{
  ℕ, ◌<◌, String, ◌≡◌, ◌≢◌, sym, ap, ◌∙◌, none, some, ltb, arith, if◌then◌else◌,
}
use go_forward_proxy.Base.Int.{pos}
use go_forward_proxy.Base.Decimal.{atoi, format_int}
use go_forward_proxy.Base.Text.Split.{one-append}
use go_forward_proxy.Base.Decimal.RoundTrip.{atoi-format_int}
use go_forward_proxy.Base.Result.{Result, ok, err}
use go_forward_proxy.World.{World}
use go_forward_proxy.World.Sqlite.{Sqlite}
use go_forward_proxy.Manager.{Manager, new_manager, insert_new_proxy}
use go_forward_proxy.Manager.Insert.Exhausted.{PortLaws, insert_new_proxy_exhausted}
use go_forward_proxy.Tests.SampleWorld.{world, sqlite}
use go_forward_proxy.Tests.Sample.{config, kiot, services}

listen_on : String → Result String
listen_on String.[] = err "missing port in address"
listen_on (String.◌∷◌ c port) = elim (atoi port) [
  | some (pos n) ↦ if ltb n 65536 then ok port else err "invalid port"
  | _ ↦ err "invalid port"
]

abbrev ported : World
ported = record world { listen = λ addr env. (listen_on addr, env) }

listen_on-high :
    (c : Char) (port : String) (n : ℕ) (l : String)
    → atoi port ≡ some (pos n)
    → 65535 < n
    → listen_on (String.◌∷◌ c port) ≢ ok l
unfolding listen_on
listen_on-high c port n l a h good = ground (arith, a, h, good)

port_laws : PortLaws ported
port_laws = record {
  refuses = λ n l e h k good.
      listen_on-high (char b':' tt) (format_int (pos n)) n l
        (atoi-format_int (pos n) (omega (arith, k)) (omega arith)) h
        (ap listen_on (sym (one-append (char b':' tt) (format_int (pos n)))) ∙ good);
}

abbrev table : Sqlite ported
table = record {
  row = sqlite.row;
  next_id = sqlite.next_id;
  row-id = sqlite.row-id;
  row-lt = sqlite.row-lt;
  row-next_id = sqlite.row-next_id;
  next_id-lt = sqlite.next_id-lt;
  select_id-some = sqlite.select_id-some;
  select_id-none = sqlite.select_id-none;
  insert-ok = sqlite.insert-ok;
  insert-id = sqlite.insert-id;
  insert-err = sqlite.insert-err;
  update-ok = sqlite.update-ok;
  update-err = sqlite.update-err;
  reset-ok = sqlite.reset-ok;
  reset-err = sqlite.reset-err;
  delete-ok = sqlite.delete-ok;
  delete-err = sqlite.delete-err;
  select_by_id-ok = sqlite.select_by_id-ok;
  select_ordered-ok = sqlite.select_ordered-ok;
  select_all-ok = sqlite.select_all-ok;
}

-- no row is left, and the next one gets the id 55536
abbrev used_up : Manager ported
used_up =
    new_manager ported (record { next = 55536; cell = λ j. none }) config services
      (pos 1000000000000)

insert_new_proxy_exhausted_example :
    (insert_new_proxy ported "key" "kiotproxy" (pos 60) kiot used_up).0
    ≢ ok (record {
      id = 55536;
      proxy_str = "10.0.0.1:3128";
      api_key = "key";
      service_type = "kiotproxy";
      min_time_reset = pos 60;
      last_reset_at = pos 970000000000;
      created_at = pos 1000000000000;
    })
unfolding new_manager
insert_new_proxy_exhausted_example =
    insert_new_proxy_exhausted port_laws table "key" "kiotproxy" (pos 60) kiot used_up
      (record {
        id = 55536;
        proxy_str = "10.0.0.1:3128";
        api_key = "key";
        service_type = "kiotproxy";
        min_time_reset = pos 60;
        last_reset_at = pos 970000000000;
        created_at = pos 1000000000000;
      })
      (omega arith) (omega arith)
