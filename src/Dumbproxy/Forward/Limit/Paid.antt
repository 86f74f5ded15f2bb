-- ===== src/Dumbproxy/Forward/Limit/Paid.antt =====
-- `copy` of forward/bwlimit.go: every byte is paid for with a token, and the copy comes to an end.
use go_forward_proxy.Base.{
  ℕ, zero, suc, ◌+◌, ◌*◌, ◌≤◌, ◌<◌, String, ◌≡◌, ◌≢◌, ◌⊎◌, Option-cases, refl, true, Option, none,
  some, arith, inl, inr, Bool-cases, if◌then◌else◌,
}
use go_forward_proxy.Base.Int.{ℤ}
use go_forward_proxy.Dumbproxy.Forward.Limit.{
  LimitNet, Copied, is_positive, copy_chunk_size, settle, after_copy, after_wait, copy_round,
  copy_within,
}

-- What the packages promise, for one limiter and one source. `paid` counts the tokens that the copy
-- has taken and not been given back, `source` the bytes that the source still has.
-- A reservation takes its tokens if it is granted; a limiter that grants a chunk grants less; to
-- cancel a reservation gives back its tokens at most; and `io.Copy` without an error has written
-- what it took, and has taken all that it may or come to the end of the source.
pub record CopyLaws (net : LimitNet) (rl : net.Limiter) (dst : net.Dst) (src : net.Src)
    : Type 0 where
  pub paid : net.E → ℕ
  pub source : net.E → ℕ
  pub now_paid : (e : net.E) → paid (net.now e).1 ≡ paid e
  pub now_source : (e : net.E) → source (net.now e).1 ≡ source e
  pub reserve_paid :
      (t : net.Time) (n : ℕ) (e : net.E)
      → let (r, e') = net.reserve_n rl t n e in paid e + (if net.is_ok r then n else 0) ≤ paid e'
  pub reserve_source :
      (t : net.Time) (n : ℕ) (e : net.E) → source (net.reserve_n rl t n e).1 ≡ source e
  pub reserve_less :
      (t t' : net.Time) (n : ℕ) (e e' : net.E)
      → net.is_ok (net.reserve_n rl t copy_chunk_size e).0 ≡ true
      → n ≤ copy_chunk_size
      → net.is_ok (net.reserve_n rl t' n e').0 ≡ true
  pub cancel_paid :
      (t : net.Time) (n : ℕ) (e₀ e : net.E)
      → paid e ≤ paid (net.cancel_at (net.reserve_n rl t n e₀).0 t e) + n
  pub cancel_source :
      (r : net.Reservation) (t : net.Time) (e : net.E) → source (net.cancel_at r t e) ≡ source e
  pub wait_paid : (d : ℤ) (e : net.E) → paid (net.wait d e).1 ≡ paid e
  pub wait_source : (d : ℤ) (e : net.E) → source (net.wait d e).1 ≡ source e
  pub copy_paid : (k : ℕ) (e : net.E) → paid (net.io_copy dst src k e).1 ≡ paid e
  pub copy_limit : (k : ℕ) (e : net.E) → (net.io_copy dst src k e).0.0 ≤ k
  pub copy_source :
      (k : ℕ) (e : net.E)
      → let ((n, failed, left), e') = net.io_copy dst src k e in
        failed ≡ none → (n + left ≡ k) × (source e' + n ≡ source e) × (0 < left → source e' ≡ 0)

module _ {net : LimitNet} {rl : net.Limiter} {dst : net.Dst} {src : net.Src}
    (laws : CopyLaws net rl dst src) where
  -- the reservation of a chunk that was granted at some point
  abbrev reserved : net.Time → net.E → net.Reservation
  reserved t e = (net.reserve_n rl t copy_chunk_size e).0

  settle-paid :
      (t : net.Time) (n b : ℕ) (e₀ e : net.E)
      → net.is_ok (reserved t e₀) ≡ true
      → n ≤ copy_chunk_size
      → b + copy_chunk_size ≤ laws.paid e
      → b + n ≤ laws.paid (settle net rl t (reserved t e₀) n e)
  unfolding settle
  settle-paid t n b e₀ e g l h =
      let e₁ = net.cancel_at (reserved t e₀) t e in
      ground (
        arith,
        laws.cancel_paid t copy_chunk_size e₀ e,
        laws.reserve_paid t n e₁,
        laws.reserve_less t t n e₀ e₁ g l,
      )

  settle-source :
      (t : net.Time) (n : ℕ) (r : net.Reservation) (e : net.E)
      → laws.source (settle net rl t r n e) ≡ laws.source e
  unfolding settle
  settle-source t n r e =
      let e₁ = net.cancel_at r t e in
      ground (arith, laws.cancel_source r t e, laws.reserve_source t n e₁)

  -- The copy has an end; of the bytes that it wrote each is paid for; and without an error it has
  -- written all that the source had.
  abbrev Ends : net.E → ℕ → Copied net → Type 0
  Ends e w copied =
      (m : ℕ) × (failed : Option String) × (e' : net.E) × (copied ≡ (some (w + m, failed), e'))
      × (laws.paid e + m ≤ laws.paid e')
      × (failed ≡ none → m ≡ laws.source e)

  -- the rest of a loop, over sources with fewer than so many bytes
  abbrev RestEnds : ℕ → (ℕ → net.E → Copied net) → Type 0
  RestEnds b next = (w : ℕ) (e : net.E) → laws.source e < b → Ends e w (next w e)

  paid_for :
      (b : ℕ) (t : net.Time) (e₀ e₁ e₂ : net.E) (n : ℕ) (failed : Option String) (left : ℕ)
      → net.is_ok (reserved t e₀) ≡ true
      → b + copy_chunk_size ≤ laws.paid e₁
      → net.io_copy dst src copy_chunk_size e₁ ≡ ((n, failed, left), e₂)
      → b + n ≤ laws.paid (settle net rl t (reserved t e₀) n e₂)
  paid_for b t e₀ e₁ e₂ n failed left g p c =
      settle-paid t n b e₀ e₂ g (ground (arith, c, laws.copy_limit copy_chunk_size e₁))
        (ground (arith, c, p, laws.copy_paid copy_chunk_size e₁))

  after_copy-Ends :
      (b : ℕ) (next : ℕ → net.E → Copied net) (t : net.Time) (w : ℕ) (e e₀ e₁ e₂ : net.E) (n : ℕ)
      (failed : Option String) (left : ℕ)
      → RestEnds b next
      → laws.source e < b + copy_chunk_size
      → net.is_ok (reserved t e₀) ≡ true
      → laws.paid e + copy_chunk_size ≤ laws.paid e₁
      → laws.source e₁ ≡ laws.source e
      → net.io_copy dst src copy_chunk_size e₁ ≡ ((n, failed, left), e₂)
      → Ends e w (after_copy net next rl t (reserved t e₀) w ((n, failed, left), e₂))
  unfolding after_copy
  after_copy-Ends b next t w e e₀ e₁ e₂ n (some x) left rest s g p q c = (
    n,
    some x,
    settle net rl t (reserved t e₀) n e₂,
    refl,
    paid_for (laws.paid e) t e₀ e₁ e₂ n (some x) left g p c,
    λ h. absurd (ground (arith, h)),
  )
  after_copy-Ends b next t w e e₀ e₁ e₂ n none (suc left) rest s g p q c = (
    n,
    none,
    settle net rl t (reserved t e₀) n e₂,
    refl,
    paid_for (laws.paid e) t e₀ e₁ e₂ n none (suc left) g p c,
    λ h. ground (arith, c, q, laws.copy_source copy_chunk_size e₁),
  )
  after_copy-Ends b next t w e e₀ e₁ e₂ n none zero rest s g p q c =
      let e₃ = settle net rl t (reserved t e₀) n e₂ in
      let taken = laws.copy_source copy_chunk_size e₁ in
      let (m, failed, e', r, y, z) =
        rest (w + n) e₃ (ground (arith, c, q, s, taken, settle-source t n (reserved t e₀) e₂)) in
      (
        n + m,
        failed,
        e',
        ground (arith, r),
        ground (arith, y, paid_for (laws.paid e) t e₀ e₁ e₂ n none zero g p c),
        λ h. ground (arith, c, q, taken, z h, settle-source t n (reserved t e₀) e₂),
      )

  after_wait-Ends :
      (b : ℕ) (next : ℕ → net.E → Copied net) (t : net.Time) (w : ℕ) (e e₀ e₁ : net.E)
      (stopped : Option String)
      → RestEnds b next
      → laws.source e < b + copy_chunk_size
      → net.is_ok (reserved t e₀) ≡ true
      → laws.paid e + copy_chunk_size ≤ laws.paid e₁
      → laws.source e₁ ≡ laws.source e
      → Ends e w (after_wait net next rl dst src t (reserved t e₀) w (stopped, e₁))
  unfolding after_wait
  after_wait-Ends b next t w e e₀ e₁ (some x) rest s g p q =
      (0, some x, e₁, ground arith, ground (arith, p), λ h. absurd (ground (arith, h)))
  after_wait-Ends b next t w e e₀ e₁ none rest s g p q =
      let ((n, failed, left), e₂) = net.io_copy dst src copy_chunk_size e₁ in
      after_copy-Ends b next t w e e₀ e₁ e₂ n failed left rest s g p q refl

  copy_round-Ends :
      (b : ℕ) (next : ℕ → net.E → Copied net) (w : ℕ) (e : net.E)
      → RestEnds b next
      → laws.source e < b + copy_chunk_size
      → Ends e w (copy_round net next rl dst src w e)
  unfolding copy_round
  copy_round-Ends b next w e rest s =
      let (t, e₁) = net.now e in
      let (r, e₂) = net.reserve_n rl t copy_chunk_size e₁ in
      let d = net.delay_from r t in
      let taken = laws.reserve_paid t copy_chunk_size e₁ in
      let kept = laws.reserve_source t copy_chunk_size e₁ in
      elim (Bool-cases (net.is_ok r)) [
        | inr x ↦ rw x (
          0,
          some "can't get rate limit reservation",
          e₂,
          ground arith,
          ground (arith, taken, laws.now_paid e),
          λ h. absurd (ground (arith, h)),
        )
        | inl x ↦ elim (Bool-cases (is_positive d)) [
          | inl y ↦
              rw (x, y)
                (after_wait-Ends b next t w e e₁ (net.wait d e₂).1 (net.wait d e₂).0 rest s x
                  (ground (arith, taken, x, laws.now_paid e, laws.wait_paid d e₂))
                  (ground (arith, kept, laws.now_source e, laws.wait_source d e₂)))
          | inr y ↦
              rw (x, y)
                (after_wait-Ends b next t w e e₁ e₂ none rest s x
                  (ground (arith, taken, x, laws.now_paid e))
                  (ground (arith, kept, laws.now_source e)))
        ]
      ]

  copy_within-done :
      (n w : ℕ) (e : net.E)
      → laws.source e < n * copy_chunk_size
      → Ends e w (copy_within net n rl dst src w e)
  unfolding copy_within
  copy_within-done zero w e h = absurd (ground (arith, h))
  copy_within-done (suc n) w e h =
      copy_round-Ends (n * copy_chunk_size) (copy_within net n rl dst src) w e (copy_within-done n)
        (omega (arith, h))

  -- From a source that has an end, `copy` comes to its end, in one round more than the source has
  -- chunks at most. Each byte that it wrote, on errors too, was paid for with a token of the
  -- limiter, and without an error it wrote all that the source had.
  pub copy_within-Ends :
      (n w : ℕ) (e : net.E)
      → laws.source e < n * copy_chunk_size
      → (m : ℕ) × (failed : Option String) × (e' : net.E) × (copy_within net n rl dst src w e
          ≡ (some (w + m, failed), e'))
        × (laws.paid e + m ≤ laws.paid e')
        × ((failed ≢ none) ⊎ (m ≡ laws.source e))
  copy_within-Ends n w e h =
      let (m, failed, e', r, p, q) = copy_within-done n w e h in
      (
        m,
        failed,
        e',
        r,
        p,
        elim (Option-cases failed) [
          | inl f ↦ inr (q f)
          | inr (x, f) ↦ inl (λ g. ground (arith, f, g))
        ],
      )
