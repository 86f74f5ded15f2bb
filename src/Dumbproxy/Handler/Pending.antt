-- ===== src/Dumbproxy/Handler/Pending.antt =====
-- handler/proxy.go: `pendingWriteConn`, which writes some data in front of its first bytes.
use go_forward_proxy.Base.{
  ℕ, ◌-◌, ◌≤◌, String, ◌≡◌, sym, ap, ◌∙◌, Bool, true, false, Option, none, some, List, [], ◌∷◌,
  arith, if◌then◌else◌,
}
use mathlib.Core.List.{◌++◌ as ◌+++◌, append_assoc, append-nil}
use go_forward_proxy.Base.Bytes.{Bytes, length}
use go_forward_proxy.Dumbproxy.Auth.Serial.Laws.{length-append}

-- the fields but for the connection
pub record PendingWrite : Type 0 where
  pub data_left : Bytes
  pub done : Bool
  pub w_err : Option String

-- `wrapPendingWrite`
abbrev pub wrap_pending_write : Bytes → PendingWrite
wrap_pending_write data_left = record { data_left = data_left; done = false; w_err = none }

-- `Write` of a connection: the number of bytes, and the error if there is one
abbrev pub Write : Type 0 → Type 0
Write E = Bytes → E → (ℕ × Option String) × E

module _ {E : Type 0} where
  unfoldable pub pending_write :
      Write E → Bytes → PendingWrite → E → (ℕ × Option String) × PendingWrite × E
  pending_write write b p env =
      let ((n₀, e₀), env₀) = write (p.data_left +++ b) env in
      let (r₁, env₁) = write b env in
      elim p.w_err [
        | some e ↦ ((0, some e), p, env)
        | none ↦ if p.done then (r₁, p, env₁) else (
          (n₀ - length p.data_left, e₀),
          record { data_left = []; done = true; w_err = e₀ },
          env₀,
        )
      ]

  -- Where the connection never counts more bytes than it was given, a write never does either.
  pub pending_write-bound :
      (write : Write E)
      → ((b : Bytes) (env : E) → (write b env).0.0 ≤ length b)
      → (b : Bytes) (p : PendingWrite) (env : E) → (pending_write write b p env).0.0 ≤ length b
  unfolding pending_write
  pending_write-bound write bound b p env =
      ground (arith, bound b env, bound (p.data_left +++ b) env, length-append p.data_left b)

-- A connection that takes all bytes, by what it was given.
abbrev pub stream_write : Write Bytes
stream_write b stream = ((length b, none), stream +++ b)

-- the writes one after another, with what each returns
unfoldable pub write_each : List Bytes → PendingWrite → Bytes → List (ℕ × Option String) × Bytes
write_each [] p stream = ([], stream)
write_each (b ∷ bs) p stream =
    let (r, p', stream') = pending_write stream_write b p stream in
    let (rs, stream'') = write_each bs p' stream' in (r ∷ rs, stream'')

unfoldable pub concat : List Bytes → Bytes
concat [] = []
concat (b ∷ bs) = b +++ concat bs

unfoldable pub counts : List Bytes → List (ℕ × Option String)
counts [] = []
counts (b ∷ bs) = (length b, none) ∷ counts bs

abbrev written : PendingWrite
written = record { data_left = []; done = true; w_err = none }

write_each-written :
    (bs : List Bytes) (stream : Bytes)
    → write_each bs written stream ≡ (counts bs, stream +++ concat bs)
unfolding write_each counts concat pending_write
write_each-written [] stream = ap (λ t. ([], t)) (sym (append-nil stream))
write_each-written (b ∷ bs) stream =
    ap (λ (r : List (ℕ × Option String) × Bytes). ((length b, none) ∷ r.0, r.1))
      (write_each-written bs (stream +++ b))
    ∙ ap (λ t. (counts (b ∷ bs), t)) (append_assoc stream b (concat bs))

-- On a connection that takes all bytes, the first write puts the data in front of its own bytes, and
-- all writes together put there the data once and then their bytes in order; each returns the
-- number of its own bytes, without an error.
pub write_each-stream :
    (front b : Bytes) (bs : List Bytes) (stream : Bytes)
    → write_each (b ∷ bs) (wrap_pending_write front) stream
      ≡ (counts (b ∷ bs), stream +++ (front +++ concat (b ∷ bs)))
unfolding write_each pending_write counts concat
write_each-stream front b bs stream =
    let rest = write_each bs written (stream +++ (front +++ b)) in
    let own : length (front +++ b) - length front ≡ length b =
      omega (arith, length-append front b) in
    ap (λ k. ((k, none) ∷ rest.0, rest.1)) own
    ∙ ap (λ (r : List (ℕ × Option String) × Bytes). ((length b, none) ∷ r.0, r.1))
        (write_each-written bs (stream +++ (front +++ b)))
    ∙ ap (λ t. (counts (b ∷ bs), t))
        (append_assoc stream (front +++ b) (concat bs)
          ∙ ap (λ t. stream +++ t) (append_assoc front b (concat bs)))
