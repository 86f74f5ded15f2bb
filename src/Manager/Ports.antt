-- ===== src/Manager/Ports.antt =====
-- The ports of the running instances.
use go_forward_proxy.Base.{ℕ, String, ◌≢◌, ◌<◌, ◌≡◌, sym, ◌∙◌, inl, inr, some, arith, Option-cases}
use go_forward_proxy.Base.Int.{two_63, ◌+ℤ◌, wrap64}
use go_forward_proxy.Base.Dict.{lookup}
use go_forward_proxy.World.{World}
use go_forward_proxy.World.Sqlite.{Sqlite}
use go_forward_proxy.World.Rows.{types}
use go_forward_proxy.Instance.{ProxyInstance, port_of}
use go_forward_proxy.Manager.{Manager}
use go_forward_proxy.Manager.Invariant.{IsConsistent}

-- Ids of an `int64` have different ports, also where the sum wraps.
port_of_inj : (i j : ℕ) → i < two_63 → j < two_63 → port_of i ≡ port_of j → i ≡ j
unfolding port_of wrap64 ◌+ℤ◌
port_of_inj i j h k e = ground arith

module _ {w : World} (s : Sqlite w) (m : Manager w) where
  types-lt : (id : ℕ) (ty : String) → types s m.db id ≡ some ty → id < two_63
  types-lt id ty h = elim (Option-cases (s.row m.db id)) [
    | inl e ↦ ground arith
    | inr (p, e) ↦ s.row-lt m.db id p e
  ]

  -- Two instances in the map have different ports.
  pub ports_distinct :
      (i j : ℕ) (a b : ProxyInstance w)
      → IsConsistent s m
      → lookup i m.instances ≡ some a
      → lookup j m.instances ≡ some b
      → i ≢ j
      → a.port ≢ b.port
  ports_distinct i j a b c h k ne e =
      let (run_a, ty_a) = c.at i a h in
      let (run_b, ty_b) = c.at j b k in
      ne (
        port_of_inj i j (types-lt i a.service_type ty_a) (types-lt j b.service_type ty_b)
          (sym run_a.port_eq ∙ e ∙ run_b.port_eq))
