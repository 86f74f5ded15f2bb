-- ===== src/Tests/Dials.antt =====
-- Dialers at concrete inputs.

use go_forward_proxy.Base.{ℕ, ◌⊎◌, String, ◌≡◌, refl, true, false, Option, none, some}
use go_forward_proxy.Base.Result.{Result, ok, err}
use go_forward_proxy.Base.Text.{split, cut, one_of}
use go_forward_proxy.Dumbproxy.Dialers.Hints.{
  HintNet, v4, v6, bound_dial, hinted, dial_hints, parse_hints, parse_ip_list, parse_each, net_base,
  ip_to_laddr,
}
use go_forward_proxy.Dumbproxy.Dialers.Hints.Families.{only_allowed, bound_dial-only_allowed}
use go_forward_proxy.Dumbproxy.Dialers.Wrapped.{
  Race, Reach, start, ctx_ends, dial_returns, signals, checks, selects_done, selects_ctx, returns,
  dial_ends, check_context, reach-settled,
}

-- a dial that is over before the context ends
abbrev connected : Race (Unit {0})
connected = record {
  conn = some tt;
  failure = none;
  ctx_err = none;
  dialled = true;
  late = false;
  done = true;
  checked = true;
  closed = false;
  selected = true;
  result = some (some tt, none);
}

connected-Reach : Reach connected
unfolding dial_ends check_context
connected-Reach =
    checks
      (returns (selects_done (signals (dial_returns (some tt) none start refl) refl) refl refl) refl
        refl)
      refl refl

reach-settled_example :
    ((◌≡◌ {A = Option String} none none)
      × (true ≡ true)
      × (false ≡ false)
      × (◌≡◌ {A = Option (Unit {0}) × Option String} (some tt, none) (some tt, none)))
    ⊎ ((false ≡ true) × ((false ≡ false) ⊎ (false ≡ true)))
reach-settled_example = reach-settled connected (some tt, none) connected-Reach refl refl

-- A run in which the connection is lost: the dial is over and checked, the context ends, and the
-- `select` takes its end. The connection is returned beside an error, and it is open.
abbrev lost : Race (Unit {0})
lost = record {
  conn = some tt;
  failure = some "context canceled";
  ctx_err = some "context canceled";
  dialled = true;
  late = false;
  done = true;
  checked = true;
  closed = false;
  selected = true;
  result = some (some tt, some "context canceled");
}

lost-Reach : Reach lost
unfolding dial_ends check_context
lost-Reach =
    returns
      (selects_ctx "context canceled"
        (ctx_ends "context canceled"
          (checks (signals (dial_returns (some tt) none start refl) refl) refl refl) refl)
        refl refl)
      refl refl

-- addresses are texts: one with ":" is of the sixth version
abbrev hint_net : HintNet
hint_net = record {
  E = ℕ;
  Conn = String;
  Ip = String;
  parse_ip = λ s. some s;
  family = λ ip. elim (cut b':' ip) [ none ↦ v4 | some parts ↦ v6 ];
  ip_text = λ ip. ip;
  expand = λ s l_addr. s;
  trim_space = λ s. s;
  quoted = λ s. s;
  default_dial = λ network address n. (ok address, n);
  dial_from = λ ip used address n. (ok used, n);
  append_error = λ e x. x;
}

abbrev refusing : String → String → String → ℕ → Result String × ℕ
refusing ip used address n = (err "another network was dialled", n)

bound_dial-only_allowed_example :
    bound_dial
      (only_allowed hint_net "tcp6" refusing)
      "192.0.2.7,2001:db8::7"
      none
      "tcp6"
      "host:80"
      0
    ≡ bound_dial hint_net "192.0.2.7,2001:db8::7" none "tcp6" "host:80" 0
bound_dial-only_allowed_example =
    bound_dial-only_allowed hint_net "tcp6" refusing "192.0.2.7,2001:db8::7" none "host:80" 0

hinted_six : bound_dial hint_net "192.0.2.7,2001:db8::7" none "tcp6" "host:80" 0 ≡ (ok "tcp6", 0)
unfolding bound_dial hinted dial_hints parse_hints parse_ip_list parse_each net_base ip_to_laddr
    one_of split cut
hinted_six = refl
