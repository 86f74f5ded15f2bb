-- ===== src/Api/Delete.antt =====
-- `DELETE /api/proxies/:id` with an id as the answers of the API print it.
use go_forward_proxy.Base.{ℕ, ◌<◌, ◌^◌, ◌≡◌, ◌≢◌, ap, none, arith}
use go_forward_proxy.Base.Int.{uint_lem}
use go_forward_proxy.Base.Decimal.{format_nat}
use go_forward_proxy.Base.Decimal.RoundTrip.{parse_uint32-format_nat}
use go_forward_proxy.Base.Dict.{lookup}
use go_forward_proxy.Base.Result.{ok}
use go_forward_proxy.World.{World}
use go_forward_proxy.World.Sqlite.{Sqlite}
use go_forward_proxy.Manager.{Manager, delete_proxy}
use go_forward_proxy.Manager.Delete.{delete_proxy_removes}
use go_forward_proxy.Api.{no_content, delete_proxy_handler}

module _ {w : World} (s : Sqlite w) (id : ℕ) (m : Manager w) where
  -- The text of an id of 32 bits leads to `DeleteProxy` of that id.
  delete_by-id :
      id < 2 ^ 32
      → (delete_proxy w id m).0 ≡ ok tt
      → delete_proxy_handler w (format_nat id) m
        ≡ (record { status = 204; body = no_content }, (delete_proxy w id m).1)
  unfolding delete_proxy_handler
  delete_by-id h e = rw (parse_uint32-format_nat id h, uint_lem id (omega arith)) (ground arith)

  -- A DELETE request with the decimal text of an id of 32 bits is answered with 204 where the
  -- statement succeeds, and leaves neither an instance nor a row of that proxy; all other proxies
  -- have the instance and the row that they had.
  pub delete_proxy_handler-format_nat :
      id < 2 ^ 32
      → (w.delete_proxy id m.db).0 ≡ ok tt
      → let (answer, m') = delete_proxy_handler w (format_nat id) m in
        (answer ≡ record { status = 204; body = no_content })
        × (lookup id m'.instances ≡ none)
        × (s.row m'.db id ≡ none)
        × ((j : ℕ)
            → id ≢ j
            → (lookup j m'.instances ≡ lookup j m.instances) × (s.row m'.db j ≡ s.row m.db j))
  delete_proxy_handler-format_nat h d =
      let (done, gone, no_row, others) = delete_proxy_removes s id m d in
      let eq = delete_by-id h done in (ap (λ r. r.0) eq, rw eq gone, rw eq no_row, rw eq others)
