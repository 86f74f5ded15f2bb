-- ===== src/Manager/Invariant.antt =====
-- The invariant between the manager's map and the table: each instance in the map runs on the port
-- of its key, and its row is in the table with the service type that the instance was made for.
use go_forward_proxy.Base.{ℕ, String, ◌≡◌, sym, ap, ◌∙◌, inl, inr, none, some, arith, Option-cases}
use go_forward_proxy.Base.Dict.{lookup, lookup-insert}
use go_forward_proxy.Base.Result.{ok, Result-cases}
use go_forward_proxy.World.{World}
use go_forward_proxy.World.Sqlite.{Sqlite}
use go_forward_proxy.World.Rows.{types}
use go_forward_proxy.Instance.{ProxyInstance, update_upstream}
use go_forward_proxy.Instance.Lifecycle.{IsRunning, update_upstream-IsRunning}
use go_forward_proxy.Manager.{Manager, set_instance, update_found, update_instance}
use go_forward_proxy.Manager.Launch.{SameTables}

module _ {w : World} (s : Sqlite w) where
  pub record IsConsistent (m : Manager w) : Type 0 where
    pub at :
        (id : ℕ) (pi : ProxyInstance w)
        → lookup id m.instances ≡ some pi
        → IsRunning w id pi × (types s m.db id ≡ some pi.service_type)

  -- Rows may come, and may change in all but their type.
  pub IsConsistent-mono :
      (m m' : Manager w)
      → m'.instances ≡ m.instances
      → ((id : ℕ) (ty : String) → types s m.db id ≡ some ty → types s m'.db id ≡ some ty)
      → IsConsistent m
      → IsConsistent m'
  IsConsistent-mono m m' e keep c = record {
    at = λ id pi h.
        let old = c.at id pi (ap (λ d. lookup id d) (sym e) ∙ h) in
        (old.0, keep id pi.service_type old.1);
  }

  pub SameTables-IsConsistent :
      (m m' : Manager w) → SameTables w m m' → IsConsistent m → IsConsistent m'
  SameTables-IsConsistent m m' same c = IsConsistent-mono m m' same.0 (λ id ty h. rw (same.1) h) c

  -- There is no instance for a key that has no row.
  pub lookup-none :
      (m : Manager w) (id : ℕ)
      → IsConsistent m
      → s.row m.db id ≡ none
      → lookup id m.instances ≡ none
  lookup-none m id c h = elim (Option-cases (lookup id m.instances)) [
    | inl e ↦ e
    | inr (pi, e) ↦ ground (arith, c.at id pi e)
  ]

  pub update_upstream-IsConsistent :
      (m : Manager w) (id : ℕ) (str : String) (pi pi' : ProxyInstance w)
      → lookup id m.instances ≡ some pi
      → update_upstream w str pi ≡ ok pi'
      → IsConsistent m
      → IsConsistent (set_instance w id pi' m)
  update_upstream-IsConsistent m id str pi pi' l u c = record {
    at = λ j q h. grind (
      arith,
      lookup-insert id j pi' m.instances,
      c.at id pi l,
      c.at j q,
      update_upstream-IsRunning w id str pi pi' u,
    );
  }

  -- `UpdateInstance`
  pub update_instance-IsConsistent :
      (id : ℕ) (str : String) (m : Manager w)
      → IsConsistent m
      → IsConsistent (update_instance w id str m).1
  unfolding update_instance
  update_instance-IsConsistent id str m c = elim (Option-cases (lookup id m.instances)) [
    | inl e ↦ rw e c
    | inr (pi, e) ↦ elim (Result-cases (update_upstream w str pi)) [
      | inl (pi', u) ↦
          rw (e, update_found) (rw u (update_upstream-IsConsistent m id str pi pi' e u c))
      | inr (x, u) ↦ rw (e, update_found) (rw u c)
    ]
  ]

  pub update_instance-db :
      (id : ℕ) (str : String) (m : Manager w) → (update_instance w id str m).1.db ≡ m.db
  unfolding update_instance
  update_instance-db id str m = ground arith
