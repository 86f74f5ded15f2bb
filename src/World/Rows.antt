-- ===== src/World/Rows.antt =====
-- What the statements keep of the table: the type of the service of each row that stays, and the
-- uniqueness of API keys.
use go_forward_proxy.Base.{
  ℕ, String, ◌≡◌, ◌≢◌, ◌⊎◌, inl, inr, Option, none, some, arith, Option-cases,
}
use go_forward_proxy.Base.Int.{ℤ}
use go_forward_proxy.Base.Result.{Result-cases}
use go_forward_proxy.Services.Interface.{Time}
use go_forward_proxy.Database.{Proxy}
use go_forward_proxy.World.{World}
use go_forward_proxy.World.Sqlite.{Sqlite}

abbrev pub type_of : Option Proxy → Option String
type_of none = none
type_of (some p) = some p.service_type

abbrev pub key_of : Option Proxy → Option String
key_of none = none
key_of (some p) = some p.api_key

module _ {w : World} (s : Sqlite w) where
  -- the types of the services of the rows
  abbrev pub types : w.Db → ℕ → Option String
  types db j = type_of (s.row db j)

  abbrev pub keys : w.Db → ℕ → Option String
  keys db j = key_of (s.row db j)

  -- No two rows have one API key.
  pub record HasUniqueKeys (db : w.Db) : Type 0 where
    pub unique : (i j : ℕ) (k : String) → keys db i ≡ some k → keys db j ≡ some k → i ≡ j

  module _ (proxy_str : String) (m : ℤ) (last : Time) (id : ℕ) (db : w.Db) (j : ℕ) where
    pub types-update : types (w.update_proxy proxy_str m last id db).1 j ≡ types db j
    types-update = elim (Result-cases (w.update_proxy proxy_str m last id db).0) [
      | inl (tt, e) ↦ ground (arith, s.update-ok proxy_str m last id db e j)
      | inr (x, e) ↦ ground (arith, s.update-err proxy_str m last id db x e j)
    ]

    pub keys-update : keys (w.update_proxy proxy_str m last id db).1 j ≡ keys db j
    keys-update = elim (Result-cases (w.update_proxy proxy_str m last id db).0) [
      | inl (tt, e) ↦ ground (arith, s.update-ok proxy_str m last id db e j)
      | inr (x, e) ↦ ground (arith, s.update-err proxy_str m last id db x e j)
    ]

  module _ (proxy_str : String) (last : Time) (id : ℕ) (db : w.Db) (j : ℕ) where
    pub types-reset : types (w.update_reset proxy_str last id db).1 j ≡ types db j
    types-reset = elim (Result-cases (w.update_reset proxy_str last id db).0) [
      | inl (tt, e) ↦ ground (arith, s.reset-ok proxy_str last id db e j)
      | inr (x, e) ↦ ground (arith, s.reset-err proxy_str last id db x e j)
    ]

    pub keys-reset : keys (w.update_reset proxy_str last id db).1 j ≡ keys db j
    keys-reset = elim (Result-cases (w.update_reset proxy_str last id db).0) [
      | inl (tt, e) ↦ ground (arith, s.reset-ok proxy_str last id db e j)
      | inr (x, e) ↦ ground (arith, s.reset-err proxy_str last id db x e j)
    ]

  -- A statement that deletes leaves every other row as it is, and the row itself or no row.
  pub row-delete_ne :
      (id : ℕ) (db : w.Db) (j : ℕ) → id ≢ j → s.row (w.delete_proxy id db).1 j ≡ s.row db j
  row-delete_ne id db j ne = elim (Result-cases (w.delete_proxy id db).0) [
    | inl (tt, e) ↦ ground (arith, s.delete-ok id db e j)
    | inr (x, e) ↦ ground (arith, s.delete-err id db x e j)
  ]

  pub keys-delete :
      (id : ℕ) (db : w.Db) (j : ℕ) (k : String)
      → keys (w.delete_proxy id db).1 j ≡ some k
      → keys db j ≡ some k
  keys-delete id db j k h = elim (Result-cases (w.delete_proxy id db).0) [
    | inl (tt, e) ↦ ground (arith, s.delete-ok id db e j)
    | inr (x, e) ↦ ground (arith, s.delete-err id db x e j)
  ]

  module _ (proxy_str key ty : String) (m : ℤ) (last created : Time) (db : w.Db) where
    -- Rows that were there before an INSERT stay.
    pub row-insert :
        (j : ℕ) (p : Proxy)
        → s.row db j ≡ some p
        → s.row (w.insert_proxy proxy_str key ty m last created db).1 j ≡ some p
    row-insert j p h = elim (Result-cases (w.insert_proxy proxy_str key ty m last created db).0) [
      | inl (r, e) ↦
          grind (arith, s.insert-ok proxy_str key ty m last created db r e j, s.row-next_id db)
      | inr (x, e) ↦ ground (arith, s.insert-err proxy_str key ty m last created db x e j)
    ]

    pub types-insert :
        (j : ℕ) (x : String)
        → types db j ≡ some x
        → types (w.insert_proxy proxy_str key ty m last created db).1 j ≡ some x
    types-insert j x h = elim (Option-cases (s.row db j)) [
      | inl e ↦ ground arith
      | inr (p, e) ↦ ground (arith, row-insert j p e)
    ]

    pub keys-insert :
        (j : ℕ) (k : String)
        → keys (w.insert_proxy proxy_str key ty m last created db).1 j ≡ some k
        → (keys db j ≡ some k) ⊎ ((s.next_id db ≡ j) × (key ≡ k))
    keys-insert j k h = elim (Result-cases (w.insert_proxy proxy_str key ty m last created db).0) [
      | inl (r, e) ↦ grind (arith, s.insert-ok proxy_str key ty m last created db r e j)
      | inr (x, e) ↦ inl (ground (arith, s.insert-err proxy_str key ty m last created db x e j))
    ]
