-- ===== src/Dumbproxy/Dialers/Wrapped.antt =====
-- dialer/dialer.go: `wrappedDialer`, which dials in a goroutine as the dialer inside takes no
-- context, in the steps of the goroutine and of the caller, which come in any order.
use go_forward_proxy.Base.{
  String, ◌≡◌, ◌⊎◌, inl, inr, Bool, true, false, ◌&&◌, Option, none, some, arith, Bool-cases,
  Option-cases,
}

-- The variables `conn` and `err`, the channel, and what has happened.
pub record Race (Conn : Type 0) : Type 0 where
  pub conn : Option Conn
  pub failure : Option String
  -- the error of the context, once it has ended
  pub ctx_err : Option String
  -- `Dial` has returned; it did so when the context had ended; `done` is closed; the goroutine ended
  pub dialled : Bool
  pub late : Bool
  pub done : Bool
  pub checked : Bool
  -- the goroutine has closed the connection
  pub closed : Bool
  -- the `select` is over; what `DialContext` returned
  pub selected : Bool
  pub result : Option (Option Conn × Option String)

abbrev pub is_some {ℓ} : {A : Type ℓ} → Option A → Bool
is_some none = false
is_some (some a) = true

module _ {Conn : Type 0} where
  abbrev pub begun : Race Conn
  begun = record {
    conn = none;
    failure = none;
    ctx_err = none;
    dialled = false;
    late = false;
    done = false;
    checked = false;
    closed = false;
    selected = false;
    result = none;
  }

  -- `conn, err = wd.d.Dial(network, address)`
  unfoldable pub dial_ends : Option Conn → Option String → Race Conn → Race Conn
  dial_ends c e s = record s { conn = c; failure = e; dialled = true; late = is_some s.ctx_err }

  -- the end of the goroutine
  unfoldable pub check_context : Race Conn → Race Conn
  check_context s = record s { checked = true; closed = is_some s.conn && is_some s.ctx_err }

  -- The states that steps lead to, each where it can be taken.
  pub data Reach : Race Conn → Type 0 where
    start : Reach begun
    ctx_ends :
        {s : Race Conn} (e : String)
        → Reach s
        → s.ctx_err ≡ none
        → Reach (record s { ctx_err = some e })
    dial_returns :
        {s : Race Conn} (c : Option Conn) (e : Option String)
        → Reach s
        → s.dialled ≡ false
        → Reach (dial_ends c e s)
    signals : {s : Race Conn} → Reach s → s.dialled ≡ true → Reach (record s { done = true })
    checks : {s : Race Conn} → Reach s → s.done ≡ true → s.checked ≡ false → Reach (check_context s)
    selects_done :
        {s : Race Conn}
        → Reach s
        → s.selected ≡ false
        → s.done ≡ true
        → Reach (record s { selected = true })
    selects_ctx :
        {s : Race Conn} (e : String)
        → Reach s
        → s.selected ≡ false
        → s.ctx_err ≡ some e
        → Reach (record s { selected = true; failure = some e })
    returns :
        {s : Race Conn}
        → Reach s
        → s.selected ≡ true
        → s.result ≡ none
        → Reach (record s { result = some (s.conn, s.failure) })

  -- What holds in every state.
  abbrev Holds : Race Conn → Type 0
  Holds s =
      (s.done ≡ true → s.dialled ≡ true)
      × (s.checked ≡ true → s.done ≡ true)
      × (is_some s.result ≡ true → s.selected ≡ true)
      × (s.ctx_err ≡ none → s.selected ≡ true → s.done ≡ true)
      × (s.ctx_err ≡ none → s.closed ≡ false)
      × (s.ctx_err ≡ none → is_some s.result ≡ true → s.result ≡ some (s.conn, s.failure))
      × (s.late ≡ true → is_some s.ctx_err ≡ true)
      × (s.late ≡ true → s.checked ≡ true → s.closed ≡ is_some s.conn)

  reach-Holds : (s : Race Conn) → Reach s → Holds s
  unfolding dial_ends check_context
  reach-Holds _ start = ground arith
  reach-Holds _ (ctx_ends {s = s} e r n) = ground (arith, n, reach-Holds s r)
  reach-Holds _ (dial_returns {s = s} c e r n) = ground (arith, n, reach-Holds s r)
  reach-Holds _ (signals {s = s} r n) = ground (arith, n, reach-Holds s r)
  reach-Holds _ (checks {s = s} r n m) = ground (arith, n, m, reach-Holds s r)
  reach-Holds _ (selects_done {s = s} r n m) = ground (arith, n, m, reach-Holds s r)
  reach-Holds _ (selects_ctx {s = s} e r n m) = ground (arith, n, m, reach-Holds s r)
  reach-Holds _ (returns {s = s} r n m) = ground (arith, n, m, reach-Holds s r)

  -- When the caller and the goroutine have both come to their ends, in whatever order their steps
  -- came, either the context has not ended, and what was returned is what the dial gave, open; or it
  -- has, and where the dial gave a connection after that, the connection is closed.
  pub reach-settled :
      (s : Race Conn) (r : Option Conn × Option String)
      → Reach s
      → s.checked ≡ true
      → s.result ≡ some r
      → ((s.ctx_err ≡ none) × (s.dialled ≡ true) × (s.closed ≡ false) × (r ≡ (s.conn, s.failure)))
        ⊎ ((is_some s.ctx_err ≡ true) × ((s.late ≡ false) ⊎ (s.closed ≡ is_some s.conn)))
  reach-settled s r h k e =
      let holds = reach-Holds s h in
      elim (Option-cases s.ctx_err) [
        | inl n ↦ inl (ground (arith, holds, n, k, e))
        | inr (x, n) ↦ inr (
          ground (arith, n),
          elim (Bool-cases s.late) [ inr l ↦ inl l | inl l ↦ inr (ground (arith, holds, l, k)) ],
        )
      ]
