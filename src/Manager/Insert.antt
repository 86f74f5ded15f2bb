-- ===== src/Manager/Insert.antt =====
-- `insertNewProxy`: what it leaves behind on each of its ways out.
pub mod Outcome
pub mod Exhausted
use go_forward_proxy.Base.{
  ℕ, ◌<◌, String, ◌≡◌, refl, sym, ap, ◌∙◌, ◌≢◌, inl, inr, none, some, Option, arith, Option-cases,
  ◌==◌, if◌then◌else◌,
}
use go_forward_proxy.Base.Int.{ℤ, two_63, uint, uint_lem}
use go_forward_proxy.Base.Dict.{lookup, insert, lookup-insert, lookup-erase}
use go_forward_proxy.Base.Result.{Result, ok, err, Exec, Result-cases}
use go_forward_proxy.Services.Interface.{ProxyInfo, ProxyService, Time}
use go_forward_proxy.Database.{Proxy}
use go_forward_proxy.World.{World}
use go_forward_proxy.World.Sqlite.{Sqlite}
use go_forward_proxy.World.Rows.{types, type_of, types-insert, row-delete_ne}
use go_forward_proxy.Instance.{ProxyInstance}
use go_forward_proxy.Instance.Lifecycle.{IsRunning, dialer_for}
use go_forward_proxy.Manager.{Manager, fetch, launch_new, insert_new_proxy}
use go_forward_proxy.Manager.Launch.{
  SameTables, fetch-SameTables, launch_new-err, launch_new-ok, launch_new-IsRunning,
}
use go_forward_proxy.Manager.Invariant.{
  IsConsistent, IsConsistent-mono, SameTables-IsConsistent, lookup-none,
}

module _ {w : World} (s : Sqlite w) where
  launch_new-IsConsistent :
      (id : ℕ) (p : Proxy) (m : Manager w)
      → id ≡ p.id
      → lookup p.id m.instances ≡ none
      → types s m.db p.id ≡ some p.service_type
      → IsConsistent s m
      → IsConsistent s (launch_new w id p m).1
  launch_new-IsConsistent id p m same free ty c = elim (Result-cases (launch_new w id p m).0) [
    | inl (q, h) ↦ record {
      at = λ j pi l.
          grind (
            arith,
            launch_new-ok w id p m q h,
            launch_new-IsRunning w id p m q j pi h l,
            c.at j pi,
          );
    }
    | inr (e, h) ↦
        let left = launch_new-err w id p m e h in
        record {
          at = λ j pi l.
              ground
                (arith, left, ap (λ d. lookup j d) (left.0), c.at j pi, row-delete_ne s id m.db j);
        }
  ]

module _ (w : World) (key ty : String) (min_time : ℤ) (service : ProxyService w.Env)
    (m : Manager w) where
  -- the row that is inserted, and the manager after the statement
  abbrev pub new_row : ℕ → ProxyInfo × Time × Time → Proxy
  new_row id (info, last, t) = record {
    id = uint id;
    proxy_str = info.proxy_str;
    api_key = key;
    service_type = ty;
    min_time_reset = min_time;
    last_reset_at = last;
    created_at = t;
  }

  abbrev pub inserting : ProxyInfo × Time × Time → Result (Result ℕ) × w.Db
  inserting (info, last, t) =
      w.insert_proxy info.proxy_str key ty min_time last t (fetch w service key m).1.db

  abbrev pub inserted : ProxyInfo × Time × Time → Manager w
  inserted x = record ((fetch w service key m).1) { db = (inserting x).1 }

  pub insert-fetch-err :
      (e : String)
      → (fetch w service key m).0 ≡ err e
      → insert_new_proxy w key ty min_time service m ≡ (err e, (fetch w service key m).1)
  unfolding insert_new_proxy
  insert-fetch-err e h = ground arith

  pub insert-launch :
      (x : ProxyInfo × Time × Time) (id : ℕ)
      → (fetch w service key m).0 ≡ ok x
      → (inserting x).0 ≡ ok (ok id)
      → insert_new_proxy w key ty min_time service m ≡ launch_new w id (new_row id x) (inserted x)
  unfolding insert_new_proxy
  insert-launch (info, last, t) id h k = ground arith

  pub insert-failed :
      (x : ProxyInfo × Time × Time) (e : String)
      → (fetch w service key m).0 ≡ ok x
      → (inserting x).0 ≡ ok (err e)
      → (insert_new_proxy w key ty min_time service m).1 ≡ inserted x
  unfolding insert_new_proxy
  insert-failed (info, last, t) e h k = ground arith

  pub insert-refused :
      (x : ProxyInfo × Time × Time) (e : String)
      → (fetch w service key m).0 ≡ ok x
      → (inserting x).0 ≡ err e
      → (insert_new_proxy w key ty min_time service m).1 ≡ inserted x
  unfolding insert_new_proxy
  insert-refused (info, last, t) e h k = ground arith

module _ {w : World} (s : Sqlite w) (key ty : String) (min_time : ℤ) (service : ProxyService w.Env)
    (m : Manager w) where
  inserted-IsConsistent :
      (x : ProxyInfo × Time × Time)
      → IsConsistent s m
      → IsConsistent s (inserted w key ty min_time service m x)
  inserted-IsConsistent (info, last, t) c =
      let fetched = fetch-SameTables w service key m in
      let m₁ = (fetch w service key m).1 in
      IsConsistent-mono s m₁ (inserted w key ty min_time service m (info, last, t)) refl
        (types-insert s info.proxy_str key ty min_time last t m₁.db)
        (SameTables-IsConsistent s m m₁ fetched c)

  -- The id of a row that was inserted is that of the counter, and fits in every integer type.
  inserted-id :
      (x : ProxyInfo × Time × Time) (id : ℕ)
      → (inserting w key ty min_time service m x).0 ≡ ok (ok id)
      → (id ≡ s.next_id m.db) × (uint id ≡ id)
  inserted-id (info, last, t) id h =
      let db₁ = (fetch w service key m).1.db in
      let e = s.insert-id info.proxy_str key ty min_time last t db₁ id h in
      let same = ap s.next_id ((fetch-SameTables w service key m).1) in
      (e ∙ same, uint_lem id (omega (arith, e, s.next_id-lt db₁)))

  inserted-row :
      (x : ProxyInfo × Time × Time) (id : ℕ)
      → (inserting w key ty min_time service m x).0 ≡ ok (ok id)
      → (j : ℕ)
      → s.row (inserting w key ty min_time service m x).1 j
        ≡ (if id == j then some (new_row w key ty min_time service m id x) else s.row m.db j)
  inserted-row (info, last, t) id h j =
      let db₁ = (fetch w service key m).1.db in
      let e = s.insert-id info.proxy_str key ty min_time last t db₁ id h in
      ground (
        arith,
        e,
        uint_lem id (omega (arith, e, s.next_id-lt db₁)),
        ap (λ d. s.row d j) ((fetch-SameTables w service key m).1),
        s.insert-ok info.proxy_str key ty min_time last t db₁ (ok id) h j,
      )

  -- What holds when the new instance is about to be created: there is no instance with the new id,
  -- and its row is in the table.
  launch_ready :
      (x : ProxyInfo × Time × Time) (id : ℕ)
      → (inserting w key ty min_time service m x).0 ≡ ok (ok id)
      → IsConsistent s m
      → (id ≡ uint id)
        × (lookup (uint id) (inserted w key ty min_time service m x).instances ≡ none)
        × (types s (inserting w key ty min_time service m x).1 (uint id) ≡ some ty)
  launch_ready x id h c =
      let (is_next, fits) = inserted-id x id h in
      let same = fetch-SameTables w service key m in
      (
        sym fits,
        rw (fits, same.0)
            (lookup-none s m id c (ap (λ i. s.row m.db i) is_next ∙ s.row-next_id m.db)),
        ground (arith, fits, inserted-row x id h id),
      )

  pub insert_new_proxy-IsConsistent :
      IsConsistent s m → IsConsistent s (insert_new_proxy w key ty min_time service m).1
  insert_new_proxy-IsConsistent c = elim (Result-cases (fetch w service key m).0) [
    | inr (e, h) ↦
        rw (insert-fetch-err w key ty min_time service m e h) (
          SameTables-IsConsistent s m (fetch w service key m).1 (fetch-SameTables w service key m)
            c)
    | inl (x, h) ↦ elim (Result-cases (inserting w key ty min_time service m x).0) [
      | inr (e, k) ↦
          rw (insert-refused w key ty min_time service m x e h k) (inserted-IsConsistent x c)
      | inl (r, k) ↦ elim (Result-cases r) [
        | inr (e, l) ↦
            rw (insert-failed w key ty min_time service m x e h (k ∙ ap ok l))
              (inserted-IsConsistent x c)
        | inl (id, l) ↦
            let (same, free, there) = launch_ready x id (k ∙ ap ok l) c in
            rw (insert-launch w key ty min_time service m x id h (k ∙ ap ok l)) (
              launch_new-IsConsistent s id (new_row w key ty min_time service m id x)
                (inserted w key ty min_time service m x) same free there
                (inserted-IsConsistent x c))
      ]
    ]
  ]
