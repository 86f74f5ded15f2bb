-- ===== src/Manager/Keys.antt =====
-- API keys stay unique: `UpsertProxy` inserts only where its SELECT found no row with the key.
use go_forward_proxy.Base.{
  ℕ, String, ◌≡◌, sym, ap, ◌∙◌, ◌≢◌, inl, inr, none, some, arith, Option-cases,
}
use go_forward_proxy.Base.Int.{ℤ, uint}
use go_forward_proxy.Base.Dict.{find}
use go_forward_proxy.Base.Result.{ok, Result-cases}
use go_forward_proxy.World.{World}
use go_forward_proxy.World.Sqlite.{Sqlite}
use go_forward_proxy.World.Rows.{keys, keys-delete, HasUniqueKeys}
use go_forward_proxy.Manager.{Manager, upsert_proxy, delete_proxy, update_existing_proxy}
use go_forward_proxy.Manager.Insert.Outcome.{insert_new_proxy-keys}
use go_forward_proxy.Manager.Update.Outcome.{update_existing_proxy-keys}
use go_forward_proxy.Manager.Delete.{delete_proxy-fields}
use go_forward_proxy.Manager.Upsert.{upsert-unknown, upsert-unread, upsert-inserts, upsert-updates}

module _ {w : World} (s : Sqlite w) where
  -- A table with no other keys than before has unique keys.
  pub HasUniqueKeys-sub :
      (db db' : w.Db)
      → ((j : ℕ) (k : String) → keys s db' j ≡ some k → keys s db j ≡ some k)
      → HasUniqueKeys s db
      → HasUniqueKeys s db'
  HasUniqueKeys-sub db db' sub u = record {
    unique = λ i j k h l. u.unique i j k (sub i k h) (sub j k l);
  }

  unread-key :
      (key : String) (db : w.Db) (j : ℕ)
      → w.select_id_by_key key db ≡ ok none
      → keys s db j ≢ some key
  unread-key key db j h e = elim (Option-cases (s.row db j)) [
    | inl x ↦ ground arith
    | inr (p, x) ↦ s.select_id-none key db h j p x (ground arith)
  ]

  pub upsert_proxy-HasUniqueKeys :
      (key ty : String) (min_time : ℤ) (m : Manager w)
      → HasUniqueKeys s m.db
      → HasUniqueKeys s (upsert_proxy w key ty min_time m).1.db
  upsert_proxy-HasUniqueKeys key ty min_time m u = elim (Option-cases (find ty m.proxy_services)) [
    | inl e ↦ rw (upsert-unknown s key ty min_time m e) u
    | inr (service, e) ↦ elim (Result-cases (w.select_id_by_key key m.db)) [
      | inr (x, h) ↦ rw (upsert-unread s key ty min_time m service x e h) u
      | inl (found, h) ↦ elim (Option-cases found) [
        | inl absent ↦
            rw (upsert-inserts s key ty min_time m service e (h ∙ ap ok absent)) (record {
              unique = λ i j k a b. ground (
                arith,
                insert_new_proxy-keys s key ty min_time service m i k a,
                insert_new_proxy-keys s key ty min_time service m j k b,
                u.unique i j k,
                unread-key key m.db i (h ∙ ap ok absent),
                unread-key key m.db j (h ∙ ap ok absent),
              );
            })
        | inr (id, present) ↦
            rw (upsert-updates s key ty min_time m service id e (h ∙ ap ok present)) (
              HasUniqueKeys-sub m.db (update_existing_proxy w (uint id) key min_time service m).1.db
                (λ j k l. sym (update_existing_proxy-keys s (uint id) key min_time service m j) ∙ l)
                u)
      ]
    ]
  ]

  pub delete_proxy-HasUniqueKeys :
      (id : ℕ) (m : Manager w) → HasUniqueKeys s m.db → HasUniqueKeys s (delete_proxy w id m).1.db
  delete_proxy-HasUniqueKeys id m u =
      let (_, db_eq, _) = delete_proxy-fields w id m in
      rw db_eq (HasUniqueKeys-sub m.db (w.delete_proxy id m.db).1 (keys-delete s id m.db) u)
