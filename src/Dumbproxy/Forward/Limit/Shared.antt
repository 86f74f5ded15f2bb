-- ===== src/Dumbproxy/Forward/Limit/Shared.antt =====
-- The limiters of forward/bwlimit.go are shared by the tunnels of a group.
use go_forward_proxy.Base.{
  ℕ, suc, ◌≤◌, ◌<◌, String, ◌≡◌, refl, true, Option, none, some, [], ◌∷◌, str_eq, eq_iff, arith,
  inl, inr, Bool-cases,
}
use go_forward_proxy.Base.Dict.{lookup, insert, lookup-insert}
use go_forward_proxy.Base.Result.{ok, err}
use go_forward_proxy.Dumbproxy.Forward.Limit.{
  LimitNet, LimitParameters, CacheItem, Limits, is_valid, r_unlock, group_of, new_item, found_item,
  get_item, get_ratelimiters,
}
use go_forward_proxy.Dumbproxy.Forward.Limit.Counts.{
  Open, count, total, without, count-total, CacheLaws, readers_of, is_item, Counts, is_valid-read,
  r_lock-Counts, r_unlock-Counts,
}

module _ (net : LimitNet) where
  -- Tunnels that open and end in any order, as far as their limiters go: `getRatelimiters` when one
  -- opens, `rUnlock` when one ends, and whatever changes the rest.
  pub data Reach : Limits net → Open → net.E → Type 0 where
    begun :
        {c : net.Cache} {env : net.E}
        → ((k : String) → net.get k c ≡ none)
        → Reach (record { items = []; next = 0; cache = c }) [] env
    opened :
        {s s' : Limits net} {ts : Open} {env env₁ env' : net.E} {params : LimitParameters net.Float}
        {p : ℕ} (user network address : String)
        → Reach s ts env
        → net.param_fn user network address env ≡ (ok params, env₁)
        → get_ratelimiters net user network address s env ≡ (ok p, s', env')
        → Reach s' ((group_of net params user, p) ∷ ts) env'
    refused :
        {s s' : Limits net} {ts : Open} {env env' : net.E} {e : String}
        (user network address : String)
        → Reach s ts env
        → get_ratelimiters net user network address s env ≡ (err e, s', env')
        → Reach s' ts env'
    ended :
        {s : Limits net} {ts : Open} {env : net.E} (k : String) (p : ℕ)
        → Reach s ts env
        → 0 < count k p ts
        → Reach (r_unlock net p s) (without k p ts) env
    passed : {s : Limits net} {ts : Open} {env env' : net.E} → Reach s ts env → Reach s ts env'

  -- an item that is not in the cache
  module _ (laws : CacheLaws net) where
    abbrev added : CacheItem net → String → net.E → Limits net → Limits net
    added item k env s = record {
      items = insert s.next item s.items;
      next = suc s.next;
      cache = net.set_locked (is_valid net s.items env) k s.next s.cache;
    }

    added-cached :
        (item : CacheItem net) (k : String) (env : net.E) (s : Limits net) (ts : Open)
        → net.get k s.cache ≡ none
        → Counts net s ts
        → (j : String) (q : ℕ) → 0 < count j q ts
        → net.get j (added item k env s).cache ≡ some q
    added-cached item k env s ts g h j q n =
        laws.get_kept (is_valid net s.items env) j k s.next q s.cache
          (ground (arith, n, g, eq_iff j k, h.cached j q n)) (h.cached j q n)
          (is_valid-read net s.items env q (ground (arith, n, h.read q, count-total j q ts)))

    added-known :
        (item : CacheItem net) (k : String) (env : net.E) (s : Limits net) (ts : Open)
        → Counts net s ts
        → (j : String) (q : ℕ) → net.get j (added item k env s).cache ≡ some q
        → is_item net (lookup q (added item k env s).items) ≡ true
    added-known item k env s ts h j q n = elim (Bool-cases (str_eq j k)) [
      | inl e ↦ ground (
        arith,
        n,
        eq_iff j k,
        laws.get_set (is_valid net s.items env) j s.next s.cache,
        lookup-insert s.next q item s.items,
      )
      | inr e ↦ ground (
        arith,
        h.known j q (laws.get_old (is_valid net s.items env) j k s.next q s.cache e n),
        lookup-insert s.next q item s.items,
      )
    ]

    added-Counts :
        (item : CacheItem net) (k : String) (env : net.E) (s : Limits net) (ts : Open)
        → item.readers ≡ 1
        → net.get k s.cache ≡ none
        → Counts net s ts
        → Counts net (added item k env s) ((k, s.next) ∷ ts)
    unfolding count total
    added-Counts item k env s ts r g h = record {
      cached = λ j q n. ground (
        arith,
        n,
        eq_iff k j,
        laws.get_set (is_valid net s.items env) k s.next s.cache,
        added-cached item k env s ts g h j q,
      );
      read = λ q. ground (arith, r, h.read q, h.fresh s.next, lookup-insert s.next q item s.items);
      fresh = λ q l. ground (arith, l, h.fresh q, lookup-insert s.next q item s.items);
      known = added-known item k env s ts h;
    }

    found_item-Counts :
        (params : LimitParameters net.Float) (k : String) (s : Limits net) (ts : Open) (env : net.E)
        (o : Option ℕ)
        → net.get k s.cache ≡ o
        → Counts net s ts
        → let (p, s', env') = found_item net params k s env o in Counts net s' ((k, p) ∷ ts)
    unfolding found_item new_item
    found_item-Counts params k s ts env (some p) e h = r_lock-Counts net k p s ts e h
    found_item-Counts params k s ts env none e h =
        let (item, env') = new_item net params env in
        added-Counts item k env' s ts (ground arith) e h

    opened-Counts :
        (s s' : Limits net) (ts : Open) (env env₁ env' : net.E) (user network address : String)
        (params : LimitParameters net.Float) (p : ℕ)
        → Counts net s ts
        → net.param_fn user network address env ≡ (ok params, env₁)
        → get_ratelimiters net user network address s env ≡ (ok p, s', env')
        → Counts net s' ((group_of net params user, p) ∷ ts)
    unfolding get_ratelimiters get_item
    opened-Counts s s' ts env env₁ env' user network address params p h f g =
        let k = group_of net params user in
        let c = found_item-Counts params k s ts env₁ (net.get k s.cache) refl h in
        ground (arith, f, g, c)

    refused-Counts :
        (s s' : Limits net) (ts : Open) (env env' : net.E) (user network address e : String)
        → Counts net s ts
        → get_ratelimiters net user network address s env ≡ (err e, s', env')
        → Counts net s' ts
    unfolding get_ratelimiters
    refused-Counts s s' ts env env' user network address e h g = ground (arith, g, h)

    reach-Counts : (s : Limits net) (ts : Open) (env : net.E) → Reach s ts env → Counts net s ts
    unfolding count total lookup
    reach-Counts s ts env (begun {c = c} n) = record {
      cached = λ k p h. absurd (ground (arith, h));
      read = λ p. omega arith;
      fresh = λ p h. refl;
      known = λ k p h. absurd (ground (arith, h, n k));
    }
    reach-Counts _ _ _ (opened {s} {s'} {ts} {env} {env₁} {env'} {params} {p} u n a r f g) =
        opened-Counts s s' ts env env₁ env' u n a params p (reach-Counts s ts env r) f g
    reach-Counts _ _ _ (refused {s} {s'} {ts} {env} {env'} {e} u n a r g) =
        refused-Counts s s' ts env env' u n a e (reach-Counts s ts env r) g
    reach-Counts _ _ _ (ended {s} {ts} {env} k p r o) =
        r_unlock-Counts net k p s ts o (reach-Counts s ts env r)
    reach-Counts _ _ _ (passed {s} {ts} {env} {env'} r) = reach-Counts s ts env r

    -- However tunnels open and end, two that are open in one group have the same limiters, which the
    -- cache holds for the group and counts at least as many readers of as tunnels are open with them.
    pub reach-shared :
        (s : Limits net) (ts : Open) (env : net.E)
        → Reach s ts env
        → (k : String) (p q : ℕ) → 0 < count k p ts
        → 0 < count k q ts
        → (p ≡ q) × (net.get k s.cache ≡ some p) × (total p ts ≤ readers_of net (lookup p s.items))
    reach-shared s ts env r k p q m n =
        let h = reach-Counts s ts env r in
        (ground (arith, h.cached k p m, h.cached k q n), h.cached k p m, h.read p)
