-- ===== src/Manager/Insert/Exhausted.antt =====
-- `insertNewProxy` when the ids have grown beyond the ports: an instance listens on 10000 and its id.
use Prim.Native.String.{◌++◌}
use go_forward_proxy.Base.{ℕ, ◌+◌, ◌<◌, ◌^◌, String, ◌≡◌, ◌≢◌, sym, ap, ◌∙◌, inl, inr, arith}
use go_forward_proxy.Base.Int.{ℤ, two_63, pos, ◌+ℤ◌, wrap64}
use go_forward_proxy.Base.Decimal.{format_int}
use go_forward_proxy.Base.Result.{ok, Result-cases}
use go_forward_proxy.Services.Interface.{ProxyService}
use go_forward_proxy.Database.{Proxy}
use go_forward_proxy.World.{World}
use go_forward_proxy.World.Sqlite.{Sqlite}
use go_forward_proxy.Instance.{ProxyInstance, port_of, new_proxy_instance, start}
use go_forward_proxy.Instance.Lifecycle.{new_proxy_instance_lem}
use go_forward_proxy.Manager.{Manager, launch_new, insert_new_proxy}
use go_forward_proxy.Manager.Insert.{new_row, inserted, inserted-id, insert-launch}
use go_forward_proxy.Manager.Insert.Outcome.{insert-inverse}

-- A port has 16 bits: `net.Listen` refuses a higher one.
pub record PortLaws (w : World) : Type 0 where
  pub refuses :
      (n : ℕ) (l : w.Listener) (e : w.Env)
      → 65535 < n
      → n < two_63
      → (w.listen (":" ++ format_int (pos n)) e).0 ≢ ok l

port_of-high : (id : ℕ) → id < 2 ^ 62 → port_of id ≡ pos (id + 10000)
unfolding port_of wrap64 ◌+ℤ◌
port_of-high id h = ground (arith, h)

module _ {w : World} (laws : PortLaws w) where
  start-high :
      (pi pi' : ProxyInstance w) (n : ℕ) (env : w.Env)
      → pi.port ≡ pos n
      → 65535 < n
      → n < two_63
      → (start w pi env).0 ≢ ok pi'
  unfolding start
  start-high pi pi' n env p h k ok_start =
      elim (Result-cases (w.listen (":" ++ format_int pi.port) env).0) [
        | inr (e, bad) ↦ ground (arith, ok_start, bad)
        | inl (l, good) ↦
            laws.refuses n l env h k
              (ap (λ x. (w.listen (":" ++ format_int x) env).0) (sym p) ∙ good)
      ]

  launch_new-high :
      (id : ℕ) (p q : Proxy) (m : Manager w)
      → 55535 < p.id
      → p.id < 2 ^ 62
      → (launch_new w id p m).0 ≢ ok q
  unfolding launch_new
  launch_new-high id p q m h k launched =
      let made = new_proxy_instance w p.id p.proxy_str p.service_type m.config m.env in
      elim (Result-cases made.0) [
        | inr (e, bad) ↦ ground (arith, launched, bad)
        | inl (pi, good) ↦ elim (Result-cases (start w pi made.1).0) [
          | inr (e, bad) ↦ ground (arith, launched, good, bad)
          | inl (pi', up) ↦
              start-high pi pi' (p.id + 10000) made.1
                ((new_proxy_instance_lem w p.id p.proxy_str p.service_type m.config m.env pi good).1
                  ∙ port_of-high p.id k)
                (omega (arith, h)) (omega (arith, k)) up
        ]
      ]

  -- Where the id that the next row gets is beyond 55535, and below 2 ^ 62, no insert succeeds,
  -- whatever the service gives and however few rows the table has.
  pub insert_new_proxy_exhausted :
      (s : Sqlite w) (key ty : String) (min_time : ℤ) (service : ProxyService w.Env) (m : Manager w)
      (p : Proxy)
      → 55535 < s.next_id m.db
      → s.next_id m.db < 2 ^ 62
      → (insert_new_proxy w key ty min_time service m).0 ≢ ok p
  insert_new_proxy_exhausted s key ty min_time service m p h k r =
      let (x, id, fetched, done) = insert-inverse s key ty min_time service m p r in
      let row_new = new_row w key ty min_time service m id x in
      let mid = inserted w key ty min_time service m x in
      let (is_next, fits) = inserted-id s key ty min_time service m x id done in
      launch_new-high id row_new p mid (rw (fits ∙ is_next) h) (rw (fits ∙ is_next) k)
        (ap (λ o. o.0) (sym (insert-launch w key ty min_time service m x id fetched done)) ∙ r)
