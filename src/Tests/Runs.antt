-- ===== src/Tests/Runs.antt =====
-- What a test unfolds to run the program: `unfolding runs` opens all that is named here.
use go_forward_proxy.Base.Int.{◌+ℤ◌, ◌-ℤ◌, ◌*ℤ◌, wrap64, uint}
use go_forward_proxy.Base.Dict.{lookup, insert, erase, find}
use go_forward_proxy.Base.Text.{split}
use go_forward_proxy.Base.Decimal.{parse_uint32, format_nat, format_int}
use go_forward_proxy.Instance.{port_of, new_proxy_instance, start, update_upstream, stop}
use go_forward_proxy.Instance.ParseProxyStr.{parse_proxy_str}
use go_forward_proxy.Manager.{
  seconds_before, new_manager, fetch, launch_new, insert_new_proxy, update_existing_proxy,
  get_proxy_by_id, upsert_proxy, delete_proxy, get_all_proxies, start_all, stop_all,
  update_instance,
}
use go_forward_proxy.AutoReset.{time_sub, needs_reset, reset_proxy, check_and_reset_proxies}
use go_forward_proxy.Api.{create_proxy, delete_proxy_handler, list_proxies, export_text}
use go_forward_proxy.Api.Router.{handle}
use go_forward_proxy.Tests.SampleDb.{find_key, rows_from}

unfoldable pub runs : Unit {0}
unfolding ◌+ℤ◌ ◌-ℤ◌ ◌*ℤ◌ wrap64 uint lookup insert erase find split parse_uint32 format_nat
    format_int port_of new_proxy_instance start update_upstream stop parse_proxy_str seconds_before
    new_manager fetch launch_new insert_new_proxy update_existing_proxy get_proxy_by_id upsert_proxy
    delete_proxy get_all_proxies start_all stop_all update_instance time_sub needs_reset reset_proxy
    check_and_reset_proxies create_proxy delete_proxy_handler list_proxies export_text handle
    find_key rows_from
runs = tt
