-- ===== src/Dumbproxy/Resolver/Fast.antt =====
-- resolver/fast.go: `FastResolver`, which asks several resolvers at once.
use mathlib.Core.List.{Permᴰ}
use mathlib.Core.List.Permᴰ.{nil, cons, swap, trans}
use go_forward_proxy.Base.{
  ℕ, zero, suc, String, ◌≡◌, refl, ap, ◌<◌, ◌∙◌, Bool, true, false, ◌||◌, Option, none, some, List,
  [], ◌∷◌, arith,
}
use go_forward_proxy.Base.Result.{Result, ok, err}

-- What the loop may receive: the result of a resolver, or the end of the context.
pub data Event (A : Type 0) : Type 0 where
  found : List A → Event A
  failed : String → Event A
  cancelled : String → Event A

module _ {A : Type 0} where
  -- the answer of a resolver
  abbrev pub answer : Result (List A) → Event A
  answer (ok addrs) = found addrs
  answer (err e) = failed e

  unfoldable pub answers : List (Result (List A)) → List (Event A)
  answers [] = []
  answers (r ∷ rs) = answer r ∷ answers rs

  unfoldable pub count_of : List (Result (List A)) → ℕ
  count_of [] = 0
  count_of (r ∷ rs) = suc (count_of rs)

  abbrev pub is_ok : Result (List A) → Bool
  is_ok (ok addrs) = true
  is_ok (err e) = false

  unfoldable pub some_ok : List (Result (List A)) → Bool
  some_ok [] = false
  some_ok (r ∷ rs) = is_ok r || some_ok rs

  abbrev pub succeeds : Option (Result (List A)) → Bool
  succeeds none = false
  succeeds (some r) = is_ok r

  abbrev pub is_over : Option (Result (List A)) → Bool
  is_over none = false
  is_over (some r) = true

  some_ok-perm : {rs ts : List (Result (List A))} → Permᴰ rs ts → some_ok rs ≡ some_ok ts
  unfolding some_ok
  some_ok-perm nil = refl
  some_ok-perm (cons e d) = ground (arith, e, some_ok-perm d)
  some_ok-perm (swap e f) = ground (arith, e, f)
  some_ok-perm (trans c d) = some_ok-perm c ∙ some_ok-perm d

  count_of-perm : {rs ts : List (Result (List A))} → Permᴰ rs ts → count_of rs ≡ count_of ts
  unfolding count_of
  count_of-perm nil = refl
  count_of-perm (cons e d) = ap suc (count_of-perm d)
  count_of-perm (swap e f) = refl
  count_of-perm (trans c d) = count_of-perm c ∙ count_of-perm d

module _ {A : Type 0} (append_error : Option String → String → String) where
  -- what is returned behind the loop: the errors, of which there are none without resolvers
  abbrev all_failed : Option String → Result (List A)
  all_failed none = ok []
  all_failed (some e) = err e

  -- `LookupNetIP`, by the number of resolvers that are to answer, the errors so far and what is
  -- received; no result is the wait for what does not come
  unfoldable pub fast_lookup : ℕ → Option String → List (Event A) → Option (Result (List A))
  fast_lookup zero failure es = some (all_failed failure)
  fast_lookup (suc n) failure [] = none
  fast_lookup (suc n) failure (cancelled e ∷ es) = some (err e)
  fast_lookup (suc n) failure (found addrs ∷ es) = some (ok addrs)
  fast_lookup (suc n) failure (failed e ∷ es) = fast_lookup n (some (append_error failure e)) es

  lookup-failing :
      (rs : List (Result (List A))) (e : String)
      → let r = fast_lookup (count_of rs) (some e) (answers rs) in
        (is_over r ≡ true) × (succeeds r ≡ some_ok rs)
  unfolding fast_lookup count_of answers some_ok
  lookup-failing [] e = (refl, refl)
  lookup-failing (ok addrs ∷ rs) e = (refl, refl)
  lookup-failing (err x ∷ rs) e = lookup-failing rs (append_error (some e) x)

  lookup-general :
      (rs : List (Result (List A)))
      → 0 < count_of rs
      → let x = fast_lookup (count_of rs) none (answers rs) in
        (is_over x ≡ true) × (succeeds x ≡ some_ok rs)
  unfolding fast_lookup count_of answers some_ok
  lookup-general [] h = absurd (ground (arith, h))
  lookup-general (ok addrs ∷ rs) h = (refl, refl)
  lookup-general (err x ∷ rs) h = lookup-failing rs (append_error none x)

  -- In whatever order the answers of one or more resolvers come in, a look-up whose context does not
  -- end comes to its end, and it succeeds just where one of the resolvers does.
  pub fast_lookup-perm :
      (r : Result (List A)) (rs arrived : List (Result (List A)))
      → Permᴰ (r ∷ rs) arrived
      → let x = fast_lookup (count_of (r ∷ rs)) none (answers arrived) in
        (is_over x ≡ true) × (succeeds x ≡ some_ok (r ∷ rs))
  unfolding count_of
  fast_lookup-perm r rs arrived d =
      let n = count_of-perm d in
      ground (arith, n, some_ok-perm d, lookup-general arrived (ground (arith, n)))
