-- ===== src/Tests/Limits.antt =====
-- Tunnels with limits at concrete inputs: the state is the tokens taken and the bytes to come.
use go_forward_proxy.Base.{
  ℕ, ◌+◌, ◌-◌, ◌≤◌, String, ◌≡◌, ◌≢◌, ◌⊎◌, refl, true, none, Option, some, [], ◌∷◌, List, eq_iff,
  leb, arith, if◌then◌else◌,
}
use go_forward_proxy.Base.Int.{pos}
use go_forward_proxy.Base.Dict.{find, lookup, insert}
use go_forward_proxy.Base.Result.{ok}
use go_forward_proxy.Dumbproxy.Forward.Limit.{
  LimitNet, LimitParameters, Limits, copy_chunk_size, copy_within, with_readers, get_ratelimiters,
  get_item, found_item, new_item,
}
use go_forward_proxy.Dumbproxy.Forward.Limit.Paid.{CopyLaws, copy_within-Ends}
use go_forward_proxy.Dumbproxy.Forward.Limit.Counts.{CacheLaws, count, total, readers_of}
use go_forward_proxy.Dumbproxy.Forward.Limit.Shared.{Reach, begun, opened, reach-shared}

abbrev parameters : LimitParameters (Unit {0})
parameters = record {
  upload_bps = tt;
  upload_burst = pos 0;
  download_bps = tt;
  download_burst = pos 0;
  group_key = some "group";
  separate = true;
}

abbrev least : ℕ → ℕ → ℕ
least a b = if leb a b then a else b

abbrev limit_net : LimitNet
limit_net = record {
  E = ℕ × ℕ;
  Time = Unit {0};
  now = λ e. (tt, e);
  Float = Unit {0};
  float64 = λ n. tt;
  ge = λ a b. true;
  int_to_float = λ n. tt;
  Limiter = Unit {0};
  new_limiter = λ bps burst e. (tt, e);
  tokens = λ rl e. tt;
  burst = λ rl e. pos 0;
  Reservation = ℕ;
  reserve_n = λ rl t n e. (n, (e.0 + n, e.1));
  is_ok = λ r. leb r copy_chunk_size;
  delay_from = λ r t. pos 5;
  cancel_at = λ r t e. (e.0 - r, e.1);
  wait = λ d e. (none, e);
  Dst = Unit {0};
  Src = Unit {0};
  io_copy = λ dst src k e. ((least k (e.1), none, k - least k (e.1)), (e.0, e.1 - least k (e.1)));
  Cache = List (String × ℕ);
  get = find;
  set_locked = λ valid k p c. (k, p) ∷ c;
  param_fn = λ username network address e. (ok parameters, e);
  new_js_limit_provider = λ filename n e. (ok (λ u n a e. (ok parameters, e)), e);
  type_name = "";
  format_kind = λ k. "";
  quoted = λ s. s;
}

copy_laws : CopyLaws limit_net tt tt tt
copy_laws = record {
  paid = λ e. e.0;
  source = λ e. e.1;
  now_paid = λ e. refl;
  now_source = λ e. refl;
  reserve_paid = λ t n e. ground arith;
  reserve_source = λ t n e. refl;
  reserve_less = λ t t' n e e' g h. ground (arith, h);
  cancel_paid = λ t n e₀ e. omega arith;
  cancel_source = λ r t e. refl;
  wait_paid = λ d e. refl;
  wait_source = λ d e. refl;
  copy_paid = λ k e. refl;
  copy_limit = λ k e. ground arith;
  copy_source = λ k e h. ground arith;
}

copy_within-Ends_example :
    (m : ℕ) × (failed : Option String) × (e' : ℕ × ℕ) × (copy_within limit_net 3 tt tt tt 0
        (0, 300000)
      ≡ (some (0 + m, failed), e'))
    × (copy_laws.paid (0, 300000) + m ≤ copy_laws.paid e')
    × ((failed ≢ none) ⊎ (m ≡ copy_laws.source (0, 300000)))
unfolding copy_laws
copy_within-Ends_example = copy_within-Ends copy_laws 3 0 (0, 300000) (omega arith)

cache_laws : CacheLaws limit_net
unfolding find
cache_laws = record {
  get_set = λ v k p c. ground (arith, eq_iff k k);
  get_kept = λ v j k p q c h g m. ground (arith, h, g, eq_iff k j, eq_iff j k);
  get_old = λ v j k p q c h g. ground (arith, h, g, eq_iff k j, eq_iff j k);
}

-- two users whose tunnels are limited together
abbrev two_tunnels : Limits limit_net
two_tunnels = record {
  items = (0, record { ul = tt; dl = tt; readers = 2 }) ∷ [];
  next = 1;
  cache = ("group", 0) ∷ [];
}

two_tunnels-Reach : Reach limit_net two_tunnels (("group", 0) ∷ ("group", 0) ∷ []) (0, 0)
unfolding get_ratelimiters get_item found_item new_item with_readers find lookup insert
two_tunnels-Reach =
    opened {env = (0, 0)} "bob" "tcp" "example.org:443"
      (opened {env = (0, 0)} "alice" "tcp" "example.org:443"
        (begun {c = []} {env = (0, 0)} (λ k. refl)) refl refl)
      refl refl

reach-shared_example :
    (◌≡◌ {A = ℕ} 0 0)
    × (limit_net.get "group" two_tunnels.cache ≡ some 0)
    × (total 0 (("group", 0) ∷ ("group", 0) ∷ [])
        ≤ readers_of limit_net (lookup 0 two_tunnels.items))
unfolding count
reach-shared_example =
    reach-shared limit_net cache_laws two_tunnels (("group", 0) ∷ ("group", 0) ∷ []) (0, 0)
      two_tunnels-Reach "group" 0 0 (omega arith) (omega arith)
