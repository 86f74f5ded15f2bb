-- ===== src/World/Sqlite.antt =====
-- What the program relies on of SQLite: `row db id` is the row of the table `proxies` with the
-- primary key `id`. A statement that fails leaves the table as it was.
use go_forward_proxy.Base.{
  ℕ, ◌<◌, String, ◌≡◌, ◌≢◌, Option, none, some, List, [], ◌∷◌, ◌==◌, if◌then◌else◌,
}
use go_forward_proxy.Base.Int.{ℤ, two_63}
use go_forward_proxy.Base.Result.{Result, ok, err}
use go_forward_proxy.Services.Interface.{Time}
use go_forward_proxy.Database.{Proxy}
use go_forward_proxy.World.{World}

-- what the two UPDATE statements do to the row that they match
abbrev pub set_proxy : String → ℤ → Time → Option Proxy → Option Proxy
set_proxy s m t none = none
set_proxy s m t (some p) = some (record p { proxy_str = s; min_time_reset = m; last_reset_at = t })

abbrev pub set_reset : String → Time → Option Proxy → Option Proxy
set_reset s t none = none
set_reset s t (some p) = some (record p { proxy_str = s; last_reset_at = t })

-- Every row that was scanned is in the table.
abbrev pub Scanned : (ℕ → Option Proxy) → List (Result Proxy) → Type 0
Scanned row [] = Unit
Scanned row (ok p ∷ rs) = (row p.id ≡ some p) × Scanned row rs
Scanned row (err e ∷ rs) = Scanned row rs

pub record Sqlite (w : World) : Type 0 where
  pub row : w.Db → ℕ → Option Proxy
  -- the key that AUTOINCREMENT gives to the next row
  pub next_id : w.Db → ℕ
  pub row-id : (db : w.Db) (j : ℕ) (p : Proxy) → row db j ≡ some p → p.id ≡ j
  pub row-lt : (db : w.Db) (j : ℕ) (p : Proxy) → row db j ≡ some p → j < two_63
  pub row-next_id : (db : w.Db) → row db (next_id db) ≡ none
  pub next_id-lt : (db : w.Db) → next_id db < two_63
  pub select_id-some :
      (key : String) (db : w.Db) (id : ℕ)
      → w.select_id_by_key key db ≡ ok (some id)
      → (p : Proxy) × (row db id ≡ some p) × (p.api_key ≡ key)
  pub select_id-none :
      (key : String) (db : w.Db)
      → w.select_id_by_key key db ≡ ok none
      → (j : ℕ) (p : Proxy) → row db j ≡ some p
      → p.api_key ≢ key
  pub insert-ok :
      (s key ty : String) (m : ℤ) (last created : Time) (db : w.Db) (r : Result ℕ)
      → (w.insert_proxy s key ty m last created db).0 ≡ ok r
      → (j : ℕ)
      → row (w.insert_proxy s key ty m last created db).1 j ≡ (
          if next_id db == j
          then some (record {
            id = j;
            proxy_str = s;
            api_key = key;
            service_type = ty;
            min_time_reset = m;
            last_reset_at = last;
            created_at = created;
          })
          else row db j)
  pub insert-id :
      (s key ty : String) (m : ℤ) (last created : Time) (db : w.Db) (id : ℕ)
      → (w.insert_proxy s key ty m last created db).0 ≡ ok (ok id)
      → id ≡ next_id db
  pub insert-err :
      (s key ty : String) (m : ℤ) (last created : Time) (db : w.Db) (e : String)
      → (w.insert_proxy s key ty m last created db).0 ≡ err e
      → (j : ℕ) → row (w.insert_proxy s key ty m last created db).1 j ≡ row db j
  pub update-ok :
      (s : String) (m : ℤ) (t : Time) (id : ℕ) (db : w.Db)
      → (w.update_proxy s m t id db).0 ≡ ok tt
      → (j : ℕ)
      → row (w.update_proxy s m t id db).1 j
        ≡ (if id == j then set_proxy s m t (row db j) else row db j)
  pub update-err :
      (s : String) (m : ℤ) (t : Time) (id : ℕ) (db : w.Db) (e : String)
      → (w.update_proxy s m t id db).0 ≡ err e
      → (j : ℕ) → row (w.update_proxy s m t id db).1 j ≡ row db j
  pub reset-ok :
      (s : String) (t : Time) (id : ℕ) (db : w.Db)
      → (w.update_reset s t id db).0 ≡ ok tt
      → (j : ℕ)
      → row (w.update_reset s t id db).1 j
        ≡ (if id == j then set_reset s t (row db j) else row db j)
  pub reset-err :
      (s : String) (t : Time) (id : ℕ) (db : w.Db) (e : String)
      → (w.update_reset s t id db).0 ≡ err e
      → (j : ℕ) → row (w.update_reset s t id db).1 j ≡ row db j
  pub delete-ok :
      (id : ℕ) (db : w.Db)
      → (w.delete_proxy id db).0 ≡ ok tt
      → (j : ℕ) → row (w.delete_proxy id db).1 j ≡ (if id == j then none else row db j)
  pub delete-err :
      (id : ℕ) (db : w.Db) (e : String)
      → (w.delete_proxy id db).0 ≡ err e
      → (j : ℕ) → row (w.delete_proxy id db).1 j ≡ row db j
  pub select_by_id-ok :
      (id : ℕ) (db : w.Db) (p : Proxy) → w.select_by_id id db ≡ ok p → row db id ≡ some p
  pub select_ordered-ok :
      (db : w.Db) (rs : List (Result Proxy)) → w.select_ordered db ≡ ok rs → Scanned (row db) rs
  pub select_all-ok :
      (db : w.Db) (rs : List (Result Proxy)) → w.select_all db ≡ ok rs → Scanned (row db) rs
