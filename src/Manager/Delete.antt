-- ===== src/Manager/Delete.antt =====
-- `DeleteProxy`: the instance is stopped and forgotten, and the row is deleted.
use go_forward_proxy.Base.{
  ℕ, ◌≡◌, ap, ◌∙◌, ◌≢◌, inl, inr, none, arith, Option-cases, ◌==◌, if◌then◌else◌,
}
use go_forward_proxy.Base.Dict.{lookup, lookup-erase}
use go_forward_proxy.Base.Result.{ok}
use go_forward_proxy.World.{World}
use go_forward_proxy.World.Sqlite.{Sqlite}
use go_forward_proxy.World.Rows.{row-delete_ne}
use go_forward_proxy.Instance.{stop}
use go_forward_proxy.Manager.{Manager, delete_proxy}
use go_forward_proxy.Manager.Invariant.{IsConsistent}

module _ (w : World) (id : ℕ) (m : Manager w) where
  -- The statement is sent after the instance is gone from the map, whether it was there or not.
  pub delete_proxy-fields :
      let (r, m') = delete_proxy w id m in
      ((j : ℕ) → lookup j m'.instances ≡ (if id == j then none else lookup j m.instances))
      × (m'.db ≡ (w.delete_proxy id m.db).1)
      × ((w.delete_proxy id m.db).0 ≡ ok tt → r ≡ ok tt)
  unfolding delete_proxy stop
  delete_proxy-fields = elim (Option-cases (lookup id m.instances)) [
    | inl e ↦ (λ j. ground arith, ground arith, ground arith)
    | inr (pi, e) ↦ (λ j. ground (arith, lookup-erase id j m.instances), ground arith, ground arith)
  ]

module _ {w : World} (s : Sqlite w) (id : ℕ) (m : Manager w) where
  pub delete_proxy-IsConsistent : IsConsistent s m → IsConsistent s (delete_proxy w id m).1
  delete_proxy-IsConsistent c = record {
    at = λ j pi h.
        let (gone, db_eq, _) = delete_proxy-fields w id m in
        ground (arith, gone j, ap (λ d. s.row d j) db_eq, row-delete_ne s id m.db j, c.at j pi);
  }

  -- Where the statement succeeds, so does the method. Then the proxy has no instance and no row,
  -- and every other proxy has the instance and the row that it had.
  pub delete_proxy_removes :
      (w.delete_proxy id m.db).0 ≡ ok tt
      → let (r, m') = delete_proxy w id m in
        (r ≡ ok tt)
        × (lookup id m'.instances ≡ none)
        × (s.row m'.db id ≡ none)
        × ((j : ℕ)
            → id ≢ j
            → (lookup j m'.instances ≡ lookup j m.instances) × (s.row m'.db j ≡ s.row m.db j))
  delete_proxy_removes h =
      let (gone, db_eq, done) = delete_proxy-fields w id m in
      (
        done h,
        ground (arith, gone id),
        ground (arith, ap (λ d. s.row d id) db_eq, s.delete-ok id m.db h id),
        λ j ne. (ground (arith, gone j), ap (λ d. s.row d j) db_eq ∙ row-delete_ne s id m.db j ne),
      )
