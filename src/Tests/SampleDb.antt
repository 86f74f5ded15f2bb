-- ===== src/Tests/SampleDb.antt =====
-- A table in memory, to instantiate the database of `World` with.
use go_forward_proxy.Base.{
  ℕ, zero, suc, ◌+◌, ◌<◌, String, ◌≡◌, ap, ◌∙◌, ◌≢◌, Option, none, some, List, [], ◌∷◌, arith, ltb,
  ◌==◌, str_eq, eq_iff, if◌then◌else◌, inl, inr, Bool-cases, Option-cases,
}
use go_forward_proxy.Base.Int.{ℤ, two_63}
use go_forward_proxy.Base.Result.{Result, ok, err, Exec}
use go_forward_proxy.Services.Interface.{Time}
use go_forward_proxy.Database.{Proxy}
use go_forward_proxy.World.Sqlite.{set_proxy, set_reset, Scanned}

pub record Table : Type 0 where
  pub next : ℕ
  pub cell : ℕ → Option Proxy

-- the key of the next row; the keys run out before they leave the range of `int64`
abbrev pub bound : Table → ℕ
bound db = if ltb db.next two_63 then db.next else 0

abbrev with_id : ℕ → Option Proxy → Option Proxy
with_id j none = none
with_id j (some p) = some (record p { id = j })

abbrev pub row : Table → ℕ → Option Proxy
row db j = if ltb j (bound db) then with_id j (db.cell j) else none

abbrev pub empty : Table
empty = record { next = 1; cell = λ j. none }

abbrev pub change : (ℕ → Option Proxy → Option Proxy) → Table → Table
change f db = record db { cell = λ j. f j (db.cell j) }

abbrev pub at : ℕ → (Option Proxy → Option Proxy) → ℕ → Option Proxy → Option Proxy
at id f j c = if id == j then f c else c

abbrev pub update_proxy : String → ℤ → Time → ℕ → Exec Table Unit
update_proxy s m t id db = (ok tt, change (at id (set_proxy s m t)) db)

abbrev pub update_reset : String → Time → ℕ → Exec Table Unit
update_reset s t id db = (ok tt, change (at id (set_reset s t)) db)

abbrev pub delete_proxy : ℕ → Exec Table Unit
delete_proxy id db = (ok tt, change (at id (λ c. none)) db)

abbrev pub insert_proxy : String → String → String → ℤ → Time → Time → Exec Table (Result ℕ)
insert_proxy s key ty m last created db =
    let id = bound db in
    if ltb (id + 1) two_63
    then (
      ok (ok id),
      record {
        next = id + 1;
        cell = λ j.
            if id == j
            then some (record {
              id = id;
              proxy_str = s;
              api_key = key;
              service_type = ty;
              min_time_reset = m;
              last_reset_at = last;
              created_at = created;
            })
            else row db j;
      },
    )
    else (err "full", db)

-- the first row below a bound with the key
unfoldable pub find_key : String → (ℕ → Option Proxy) → ℕ → Option ℕ
find_key key r zero = none
find_key key r (suc n) =
    let rest = find_key key r n in
    elim (r n) [ none ↦ rest | some p ↦ if str_eq p.api_key key then some n else rest ]

abbrev pub select_id_by_key : String → Table → Result (Option ℕ)
select_id_by_key key db = ok (find_key key (row db) (bound db))

abbrev onto : Option Proxy → List (Result Proxy) → List (Result Proxy)
onto none rs = rs
onto (some p) rs = ok p ∷ rs

unfoldable pub rows_from : (ℕ → Option Proxy) → ℕ → ℕ → List (Result Proxy)
rows_from r first zero = []
rows_from r first (suc n) = onto (r first) (rows_from r (suc first) n)

abbrev pub select_ordered : Table → Result (List (Result Proxy))
select_ordered db = ok (rows_from (row db) 0 (bound db))

abbrev pub select_by_id : ℕ → Table → Result Proxy
select_by_id id db = elim (row db id) [ none ↦ err "no rows" | some p ↦ ok p ]

-- The laws of `Sqlite`, for this table.
pub row-id : (db : Table) (j : ℕ) (p : Proxy) → row db j ≡ some p → p.id ≡ j
row-id db j p h = ground arith

pub row-change :
    (f : Option Proxy → Option Proxy) (id : ℕ) (db : Table) (j : ℕ)
    → (c : Option Proxy) → with_id j (f c) ≡ f (with_id j c)
    → db.cell j ≡ c
    → f none ≡ none
    → row (change (at id f) db) j ≡ (if id == j then f (row db j) else row db j)
row-change f id db j c h e z = ground arith

pub insert-ok :
    (s key ty : String) (m : ℤ) (last created : Time) (db : Table) (r : Result ℕ)
    → (insert_proxy s key ty m last created db).0 ≡ ok r
    → (j : ℕ)
    → row (insert_proxy s key ty m last created db).1 j ≡ (
        if bound db == j
        then some (record {
          id = j;
          proxy_str = s;
          api_key = key;
          service_type = ty;
          min_time_reset = m;
          last_reset_at = last;
          created_at = created;
        })
        else row db j)
insert-ok s key ty m last created db r h j = ground arith

pub find_key-some :
    (key : String) (r : ℕ → Option Proxy) (n id : ℕ)
    → find_key key r n ≡ some id
    → (p : Proxy) × (r id ≡ some p) × (p.api_key ≡ key)
unfolding find_key
find_key-some key r zero id h = absurd (ground arith)
find_key-some key r (suc n) id h = elim (Option-cases (r n)) [
  | inl e ↦ find_key-some key r n id (ground arith)
  | inr (p, e) ↦ elim (Bool-cases (str_eq p.api_key key)) [
    | inl same ↦ (p, ground arith, (eq_iff p.api_key key).0 same)
    | inr other ↦ find_key-some key r n id (ground arith)
  ]
]

pub find_key-none :
    (key : String) (r : ℕ → Option Proxy) (n : ℕ)
    → find_key key r n ≡ none
    → (j : ℕ) (p : Proxy) → j < n
    → r j ≡ some p
    → p.api_key ≢ key
unfolding find_key
find_key-none key r zero h j p l e = absurd (omega arith)
find_key-none key r (suc n) h j p l e = elim (Option-cases (r n)) [
  | inl x ↦ ground (arith, find_key-none key r n (ground arith) j p)
  | inr (q, x) ↦
      let rest : find_key key r n ≡ none = ground arith in
      ground (arith, eq_iff q.api_key key, eq_iff p.api_key key, find_key-none key r n rest j p)
]

pub rows_from-Scanned :
    (r : ℕ → Option Proxy) (first n : ℕ)
    → ((j : ℕ) (p : Proxy) → r j ≡ some p → p.id ≡ j)
    → Scanned r (rows_from r first n)
unfolding rows_from
rows_from-Scanned r first zero h = tt
rows_from-Scanned r first (suc n) h = elim (Option-cases (r first)) [
  | inl e ↦ rw e (rows_from-Scanned r (suc first) n h)
  | inr (p, e) ↦ rw e (ap r (h first p e) ∙ e, rows_from-Scanned r (suc first) n h)
]
