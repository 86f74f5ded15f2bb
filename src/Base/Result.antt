-- ===== src/Base/Result.antt =====
-- Go's `(value, error)` results, and methods that change state and may return an error. An error is
-- its message, what `err.Error()` returns.
use go_forward_proxy.Base.{String, Bool, true, false, ◌≡◌, refl, ap, ◌⊎◌, inl, inr}
use Prim.Native.String.{◌++◌}

pub data Result {ℓ} (A : Type ℓ) : Type ℓ where
  ok : A → Result A
  err : String → Result A

-- `fmt.Errorf("<context>: %w", err)` on the error branch, the value on the other.
abbrev pub wrap {ℓ} : {A : Type ℓ} → String → Result A → Result A
wrap context (ok a) = ok a
wrap context (err e) = err (context ++ ": " ++ e)

-- State is kept on both branches: what was written before an error stays written.
abbrev pub Exec : Type 0 → Type 0 → Type 0
Exec S A = S → Result A × S

module _ {S A : Type 0} where
  abbrev pub pure : A → Exec S A
  pure a s = (ok a, s)

  abbrev pub fail : String → Exec S A
  fail e s = (err e, s)

  abbrev pub lift : Result A → Exec S A
  lift r s = (r, s)

  abbrev pub gets : (S → A) → Exec S A
  gets f s = (ok (f s), s)

  -- `if err != nil { return fmt.Errorf("<context>: %w", err) }`
  abbrev pub wrapping : String → Exec S A → Exec S A
  wrapping context m s = let (r, s') = m s in (wrap context r, s')

  -- the result is looked at by the caller, who goes on in either case
  abbrev pub attempt : Exec S A → Exec S (Result A)
  attempt m s = let (r, s') = m s in (ok r, s')

module _ {S : Type 0} where
  -- `if !test { return errors.New(e) }`
  abbrev pub check : Bool → String → Exec S Unit
  check true e s = (ok tt, s)
  check false e s = (err e, s)

  abbrev pub modify : (S → S) → Exec S Unit
  modify f s = (ok tt, f s)

infixl 5 ◌>>=◌ ◌>>◌
abbrev pub ◌>>=◌ : {S A B : Type 0} → Exec S A → (A → Exec S B) → Exec S B
◌>>=◌ m f s = let (r, s') = m s in elim r [ ok a ↦ f a s' | err e ↦ (err e, s') ]

abbrev pub ◌>>◌ : {S A B : Type 0} → Exec S A → Exec S B → Exec S B
m >> k = m >>= λ _. k

pub Result-cases {ℓ} :
    {A : Type ℓ} (r : Result A) → ((a : A) × (r ≡ ok a)) ⊎ ((e : String) × (r ≡ err e))
Result-cases (ok a) = inl (a, refl)
Result-cases (err e) = inr (e, refl)

-- a step that succeeds hands its value and its state on
pub bind-ok :
    {S A B : Type 0} (m : Exec S A) (f : A → Exec S B) {s s' : S} {a : A}
    → m s ≡ (ok a, s')
    → (m >>= f) s ≡ f a s'
bind-ok {S} {A} m f h =
    ap (λ (r : Result A × S). elim r.0 [ ok a ↦ f a r.1 | err e ↦ (err e, r.1) ]) h

-- and an error is the result
pub bind-err :
    {S A B : Type 0} (m : Exec S A) (f : A → Exec S B) {s s' : S} {e : String}
    → m s ≡ (err e, s')
    → (m >>= f) s ≡ (err e, s')
bind-err {S} {A} m f h =
    ap (λ (r : Result A × S). elim r.0 [ ok a ↦ f a r.1 | err e ↦ (err e, r.1) ]) h
