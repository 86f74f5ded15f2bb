-- ===== src/Dumbproxy/Forward/Limit/Counts.antt =====
-- The limiters in the cache of forward/bwlimit.go count the tunnels that use them as their readers.
use go_forward_proxy.Base.{
  ℕ, suc, ◌-◌, ◌≤◌, ◌<◌, String, ◌≡◌, Bool, true, false, ◌&&◌, Option, none, some, List, [], ◌∷◌,
  ◌==◌, str_eq, eq_iff, arith, inl, inr, Bool-cases, Option-cases, if◌then◌else◌,
}
use go_forward_proxy.Base.Dict.{Dict, lookup, lookup-insert}
use go_forward_proxy.Dumbproxy.Forward.Limit.{
  LimitNet, CacheItem, Limits, is_valid, with_readers, r_lock, r_unlock,
}

-- the tunnels that are open: the group and the pointer of each
abbrev pub Open : Type 0
Open = List (String × ℕ)

abbrev pub is_at : String → ℕ → String × ℕ → Bool
is_at k p t = str_eq (t.0) k && t.1 == p

-- how many are open in a group with a pointer, and with a pointer in any group
unfoldable pub count : String → ℕ → Open → ℕ
count k p [] = 0
count k p (t ∷ ts) = let n = count k p ts in if is_at k p t then suc n else n

unfoldable pub total : ℕ → Open → ℕ
total p [] = 0
total p (t ∷ ts) = let n = total p ts in if t.1 == p then suc n else n

-- without one of them
unfoldable pub without : String → ℕ → Open → Open
without k p [] = []
without k p (t ∷ ts) = let rest = without k p ts in if is_at k p t then ts else t ∷ rest

pub count-total : (k : String) (p : ℕ) (ts : Open) → count k p ts ≤ total p ts
unfolding count total
count-total k p [] = omega arith
count-total k p (t ∷ ts) = ground (arith, count-total k p ts)

pub count-without : (j k : String) (p q : ℕ) (ts : Open) → count j q (without k p ts) ≤ count j q ts
unfolding count without
count-without j k p q [] = omega arith
count-without j k p q (t ∷ ts) = ground (arith, count-without j k p q ts)

pub total-without :
    (k : String) (p q : ℕ) (ts : Open)
    → 0 < count k p ts
    → total q (without k p ts) ≡ (if p == q then total q ts - 1 else total q ts)
unfolding count total without
total-without k p q [] h = absurd (ground (arith, h))
total-without k p q (t ∷ ts) h = elim (Bool-cases (is_at k p t)) [
  | inl e ↦ rw e (ground (arith, e))
  | inr e ↦ rw e (ground (arith, e, h, count-total k p ts, total-without k p q ts))
]

-- What the cache promises: an entry that is set is there, and the others, if they are, are those
-- that were, of which none that is valid goes.
pub record CacheLaws (net : LimitNet) : Type 0 where
  pub get_set :
      (v : ℕ → Bool) (k : String) (p : ℕ) (c : net.Cache)
      → net.get k (net.set_locked v k p c) ≡ some p
  pub get_kept :
      (v : ℕ → Bool) (j k : String) (p q : ℕ) (c : net.Cache)
      → str_eq j k ≡ false
      → net.get j c ≡ some q
      → v q ≡ true
      → net.get j (net.set_locked v k p c) ≡ some q
  pub get_old :
      (v : ℕ → Bool) (j k : String) (p q : ℕ) (c : net.Cache)
      → str_eq j k ≡ false
      → net.get j (net.set_locked v k p c) ≡ some q
      → net.get j c ≡ some q

module _ (net : LimitNet) where
  abbrev pub readers_of : Option (CacheItem net) → ℕ
  readers_of none = 0
  readers_of (some item) = item.readers

  abbrev pub is_item : Option (CacheItem net) → Bool
  is_item none = false
  is_item (some item) = true

  -- Open tunnels have the item of their group in the cache, which counts them as its readers.
  pub record Counts (s : Limits net) (ts : Open) : Type 0 where
    pub cached : (k : String) (p : ℕ) → 0 < count k p ts → net.get k s.cache ≡ some p
    pub read : (p : ℕ) → total p ts ≤ readers_of (lookup p s.items)
    pub fresh : (p : ℕ) → s.next ≤ p → lookup p s.items ≡ none
    pub known :
        (k : String) (p : ℕ) → net.get k s.cache ≡ some p → is_item (lookup p s.items) ≡ true

  pub is_valid-read :
      (items : Dict (CacheItem net)) (env : net.E) (p : ℕ)
      → 0 < readers_of (lookup p items)
      → is_valid net items env p ≡ true
  unfolding is_valid
  is_valid-read items env p h = ground (arith, h)

  pub readers-with_readers :
      (f : ℕ → ℕ) (p q : ℕ) (items : Dict (CacheItem net))
      → readers_of (lookup q (with_readers net f p items)) ≡ (
          if p == q && is_item (lookup p items)
          then f (readers_of (lookup p items))
          else readers_of (lookup q items))
  unfolding with_readers
  readers-with_readers f p q items = elim (Option-cases (lookup p items)) [
    | inl e ↦ ground (arith, e)
    | inr (item, e) ↦
        ground (arith, e, lookup-insert p q (record item { readers = f item.readers }) items)
  ]

  pub item-with_readers :
      (f : ℕ → ℕ) (p q : ℕ) (items : Dict (CacheItem net))
      → is_item (lookup q (with_readers net f p items)) ≡ is_item (lookup q items)
  unfolding with_readers
  item-with_readers f p q items = elim (Option-cases (lookup p items)) [
    | inl e ↦ ground (arith, e)
    | inr (item, e) ↦
        ground (arith, e, lookup-insert p q (record item { readers = f item.readers }) items)
  ]

  pub r_lock-Counts :
      (k : String) (p : ℕ) (s : Limits net) (ts : Open)
      → net.get k s.cache ≡ some p
      → Counts s ts
      → Counts (r_lock net p s) ((k, p) ∷ ts)
  unfolding r_lock count total
  r_lock-Counts k p s ts g h = record {
    cached = λ j q n. ground (arith, n, g, eq_iff k j, h.cached j q);
    read = λ q. ground (arith, h.read q, h.known k p g, readers-with_readers suc p q s.items);
    fresh = λ q l. ground (arith, h.fresh q l, item-with_readers suc p q s.items);
    known = λ j q n. ground (arith, h.known j q n, item-with_readers suc p q s.items);
  }

  pub r_unlock-Counts :
      (k : String) (p : ℕ) (s : Limits net) (ts : Open)
      → 0 < count k p ts
      → Counts s ts
      → Counts (r_unlock net p s) (without k p ts)
  unfolding r_unlock
  r_unlock-Counts k p s ts o h = record {
    cached = λ j q n. h.cached j q (ground (arith, n, count-without j k p q ts));
    read = λ q. ground (
      arith,
      o,
      h.read q,
      h.known k p (h.cached k p o),
      total-without k p q ts o,
      readers-with_readers (λ n. n - 1) p q s.items,
    );
    fresh = λ q l. ground (arith, h.fresh q l, item-with_readers (λ n. n - 1) p q s.items);
    known = λ j q n. ground (arith, h.known j q n, item-with_readers (λ n. n - 1) p q s.items);
  }
