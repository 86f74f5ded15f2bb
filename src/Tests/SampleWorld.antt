-- ===== src/Tests/SampleWorld.antt =====
-- A world to apply the theorems in: the table in memory, a clock that stands at a time, providers,
-- dialers and listeners that are named by the texts they were made from.
use go_forward_proxy.Base.{
  ℕ, String, ◌≡◌, refl, ◌≢◌, none, some, List, arith, ◌==◌, if◌then◌else◌, inl, inr, Option-cases,
}
use mathlib.Core.Path.{subst}
use go_forward_proxy.Base.Int.{ℤ, pos, ◌*ℤ◌, leb_ℤ}
use go_forward_proxy.Base.Result.{Result, ok, err}
use go_forward_proxy.Services.Interface.{Time}
use go_forward_proxy.Database.{Proxy}
use go_forward_proxy.World.{World}
use go_forward_proxy.World.Sqlite.{Sqlite, Scanned, set_proxy, set_reset}
use go_forward_proxy.AutoReset.Due.{FloatLaws}
use go_forward_proxy.Tests.SampleDb
use go_forward_proxy.Tests.SampleDb.{
  Table, row-id, row-change, insert-ok, find_key-some, find_key-none, rows_from-Scanned,
}

abbrev pub world : World
world = record {
  Env = Time;
  Auth = String;
  new_auth = λ url env. (ok url, env);
  close_auth = λ a env. env;
  Dialer = String;
  proxy_dialer_from_url = λ url. ok url;
  Listener = String;
  listen = λ addr env. (ok addr, env);
  serve = λ l env. env;
  shutdown = λ l env. (ok tt, env);
  close_listener = λ l env. env;
  now = λ env. (env, env);
  Float = ℤ;
  seconds = λ d. d;
  float64 = λ n. n *ℤ pos 1000000000;
  ge = λ a b. leb_ℤ b a;
  Db = Table;
  select_id_by_key = SampleDb.select_id_by_key;
  insert_proxy = SampleDb.insert_proxy;
  update_proxy = SampleDb.update_proxy;
  update_reset = SampleDb.update_reset;
  delete_proxy = SampleDb.delete_proxy;
  select_by_id = SampleDb.select_by_id;
  select_ordered = SampleDb.select_ordered;
  select_all = SampleDb.select_ordered;
}

pub insert-id :
    (s key ty : String) (m : ℤ) (last created : Time) (db : Table) (id : ℕ)
    → (SampleDb.insert_proxy s key ty m last created db).0 ≡ ok (ok id)
    → id ≡ SampleDb.bound db
insert-id s key ty m last created db id h = ground arith

pub insert-err :
    (s key ty : String) (m : ℤ) (last created : Time) (db : Table) (e : String)
    → (SampleDb.insert_proxy s key ty m last created db).0 ≡ err e
    → (j : ℕ)
    → SampleDb.row (SampleDb.insert_proxy s key ty m last created db).1 j ≡ SampleDb.row db j
insert-err s key ty m last created db e h j = ground arith

pub row-update :
    (str : String) (m : ℤ) (t : Time) (id : ℕ) (db : Table) (j : ℕ)
    → SampleDb.row (SampleDb.update_proxy str m t id db).1 j
      ≡ (if id == j then set_proxy str m t (SampleDb.row db j) else SampleDb.row db j)
row-update str m t id db j = elim (Option-cases (db.cell j)) [
  | inl e ↦ row-change (set_proxy str m t) id db j none refl e refl
  | inr (p, e) ↦ row-change (set_proxy str m t) id db j (some p) refl e refl
]

pub row-reset :
    (str : String) (t : Time) (id : ℕ) (db : Table) (j : ℕ)
    → SampleDb.row (SampleDb.update_reset str t id db).1 j
      ≡ (if id == j then set_reset str t (SampleDb.row db j) else SampleDb.row db j)
row-reset str t id db j = elim (Option-cases (db.cell j)) [
  | inl e ↦ row-change (set_reset str t) id db j none refl e refl
  | inr (p, e) ↦ row-change (set_reset str t) id db j (some p) refl e refl
]

pub row-delete :
    (id : ℕ) (db : Table) (j : ℕ)
    → SampleDb.row (SampleDb.delete_proxy id db).1 j ≡ (if id == j then none else SampleDb.row db j)
row-delete id db j = row-change (λ c. none) id db j (db.cell j) refl refl refl

pub select_by_id-ok :
    (id : ℕ) (db : Table) (p : Proxy)
    → SampleDb.select_by_id id db ≡ ok p
    → SampleDb.row db id ≡ some p
select_by_id-ok id db p h = ground arith

pub ordered-ok :
    (db : Table) (rs : List (Result Proxy))
    → SampleDb.select_ordered db ≡ ok rs
    → Scanned (SampleDb.row db) rs
ordered-ok db rs h =
    let scanned : SampleDb.rows_from (SampleDb.row db) 0 (SampleDb.bound db) ≡ rs = ground arith in
    subst (Scanned (SampleDb.row db)) scanned
      (rows_from-Scanned (SampleDb.row db) 0 (SampleDb.bound db) (row-id db))

pub key-some :
    (key : String) (db : Table) (id : ℕ)
    → SampleDb.select_id_by_key key db ≡ ok (some id)
    → (p : Proxy) × (SampleDb.row db id ≡ some p) × (p.api_key ≡ key)
key-some key db id h = find_key-some key (SampleDb.row db) (SampleDb.bound db) id (ground arith)

pub key-none :
    (key : String) (db : Table)
    → SampleDb.select_id_by_key key db ≡ ok none
    → (j : ℕ) (p : Proxy) → SampleDb.row db j ≡ some p
    → p.api_key ≢ key
key-none key db h j p e =
    find_key-none key (SampleDb.row db) (SampleDb.bound db) (ground arith) j p (ground arith) e

abbrev pub sqlite : Sqlite world
sqlite = record {
  row = SampleDb.row;
  next_id = SampleDb.bound;
  row-id = row-id;
  row-lt = λ db j p h. ground arith;
  row-next_id = λ db. ground arith;
  next_id-lt = λ db. ground arith;
  select_id-some = key-some;
  select_id-none = key-none;
  insert-ok = insert-ok;
  insert-id = insert-id;
  insert-err = insert-err;
  update-ok = λ str m t id db h j. row-update str m t id db j;
  update-err = λ str m t id db e h. cc;
  reset-ok = λ str t id db h j. row-reset str t id db j;
  reset-err = λ str t id db e h. cc;
  delete-ok = λ id db h j. row-delete id db j;
  delete-err = λ id db e h. cc;
  select_by_id-ok = select_by_id-ok;
  select_ordered-ok = ordered-ok;
  select_all-ok = ordered-ok;
}

pub float_laws : FloatLaws world
unfolding ◌*ℤ◌
float_laws = record { whole = λ n m h. ground arith; mono = λ d e m h k. ground arith }
