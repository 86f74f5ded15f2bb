-- ===== src/AutoReset/Due.antt =====
-- When a proxy is due: the arithmetic of `last_reset_at`, `now` and `min_time_reset`.
use go_forward_proxy.Base.{ℕ, zero, suc, ◌+◌, ◌*◌, ◌<◌, ◌≡◌, true, refl, ap, ◌∙◌, arith}
use go_forward_proxy.Base.Int.{
  ℤ, pos, ◌+ℤ◌, ◌-ℤ◌, ◌*ℤ◌, ◌≤ℤ◌, leb_ℤ, wrap64, int_laws, two_63, -ℤ_parts,
}
use go_forward_proxy.Services.Interface.{Time}
use go_forward_proxy.Database.{Proxy}
use go_forward_proxy.World.{World}
use go_forward_proxy.Manager.{seconds_before}
use go_forward_proxy.AutoReset.{time_sub, needs_reset}

-- What the program relies on of `float64`: a duration of whole seconds is compared exactly, and a
-- longer duration is at least as many seconds.
pub record FloatLaws (w : World) : Type 0 where
  pub whole :
      (n : ℕ) (m : ℤ)
      → n * 1000000000 < two_63
      → w.ge (w.seconds (pos (n * 1000000000))) (w.float64 m) ≡ leb_ℤ m (pos n)
  pub mono :
      (d e m : ℤ)
      → d ≤ℤ e
      → w.ge (w.seconds d) (w.float64 m) ≡ true
      → w.ge (w.seconds e) (w.float64 m) ≡ true

-- `n` seconds after a time
abbrev pub after : ℕ → Time → Time
after n t = t +ℤ pos (n * 1000000000)

-- In range nothing wraps, and the duration is the negative number of nanoseconds.
neg_seconds :
    (n : ℕ)
    → n * 1000000000 < two_63
    → wrap64 (wrap64 (pos 0 -ℤ pos n) *ℤ pos 1000000000) ≡ pos 0 -ℤ pos (n * 1000000000)
unfolding wrap64 ◌-ℤ◌ ◌*ℤ◌
neg_seconds zero h = refl
neg_seconds (suc n) h = ground arith

time_sub-in_range : (t u : Time) (n : ℕ) → t -ℤ u ≡ pos n → n < two_63 → time_sub t u ≡ pos n
unfolding time_sub
time_sub-in_range t u n e h = rw e (ground arith)

time_sub-mono : (t u v : Time) → t ≤ℤ u → time_sub t v ≤ℤ time_sub u v
unfolding time_sub
time_sub-mono t u v h = ground (arith, -ℤ_parts t v, -ℤ_parts u v)

elapsed :
    (k n : ℕ) (t : Time)
    → n * 1000000000 < two_63
    → (k + n) * 1000000000 < two_63
    → time_sub (after k t) (seconds_before (pos n) t) ≡ pos ((k + n) * 1000000000)
unfolding seconds_before
elapsed k n t h l =
    time_sub-in_range (after k t) (t +ℤ wrap64 (wrap64 (pos 0 -ℤ pos n) *ℤ pos 1000000000))
      ((k + n) * 1000000000) (rw (neg_seconds n h) (omega int_laws)) l

module _ {w : World} (f : FloatLaws w) (p : Proxy) (k n : ℕ) (t : Time) where
  -- A proxy whose `last_reset_at` was set at `t` from `n` seconds to its next reset is due `k` seconds
  -- later exactly when `k + n` is `min_time_reset` at least, as long as `k + n` seconds are a
  -- duration and `float64` compares whole seconds exactly.
  pub needs_reset-fetched :
      p.last_reset_at ≡ seconds_before (pos n) t
      → (k + n) * 1000000000 < two_63
      → needs_reset w (after k t) p ≡ leb_ℤ p.min_time_reset (pos (k + n))
  unfolding needs_reset
  needs_reset-fetched e h =
      ap (λ d. w.ge (w.seconds d) (w.float64 p.min_time_reset))
        (ap (time_sub (after k t)) e ∙ elapsed k n t (omega arith) h)
      ∙ f.whole (k + n) p.min_time_reset h

module _ {w : World} (f : FloatLaws w) (p : Proxy) (k : ℕ) (t u : Time) where
  -- A proxy whose `last_reset_at` is `t` is due `k` seconds later exactly when `k` is `min_time_reset`
  -- at least, as long as `k` seconds are a duration and `float64` compares whole seconds exactly.
  pub needs_reset-reset :
      p.last_reset_at ≡ t
      → k * 1000000000 < two_63
      → needs_reset w (after k t) p ≡ leb_ℤ p.min_time_reset (pos k)
  unfolding needs_reset
  needs_reset-reset e h =
      ap (λ d. w.ge (w.seconds d) (w.float64 p.min_time_reset))
        (ap (time_sub (after k t)) e
          ∙ time_sub-in_range (after k t) t (k * 1000000000) (omega int_laws) h)
      ∙ f.whole k p.min_time_reset h

  -- A proxy that is due at a time is due at every later time, where the comparison in `float64` is
  -- monotone.
  pub needs_reset_mono : t ≤ℤ u → needs_reset w t p ≡ true → needs_reset w u p ≡ true
  unfolding needs_reset
  needs_reset_mono h due =
      f.mono (time_sub t p.last_reset_at) (time_sub u p.last_reset_at) p.min_time_reset
        (time_sub-mono t u p.last_reset_at h) due
