-- ===== src/Api/Export.antt =====
-- `GET /api/export`: one line for each proxy, with the port that its instance listens on.
use Prim.Native.Char.{char}
use Prim.Native.String.{◌++◌}
use mathlib.Core.List.{◌++◌ as ◌+++◌}
use go_forward_proxy.Base.{ℕ, ◌+◌, ◌<◌, String, ◌≡◌, ◌∙◌, some, arith, List, [], ◌∷◌}
use go_forward_proxy.Base.Int.{pos, ◌+ℤ◌, wrap64, uint_lem, two_63}
use go_forward_proxy.Base.Dict.{lookup}
use go_forward_proxy.Base.Decimal.{format_int}
use go_forward_proxy.Base.Text.{split}
use go_forward_proxy.Base.Text.Split.{split-join, AllLack}
use go_forward_proxy.Database.{Proxy}
use go_forward_proxy.World.{World}
use go_forward_proxy.World.Sqlite.{Sqlite}
use go_forward_proxy.Instance.{ProxyInstance, port_of}
use go_forward_proxy.Manager.{Manager}
use go_forward_proxy.Manager.Invariant.{IsConsistent}
use go_forward_proxy.Api.{export_line, export_body}

-- As long as the sum stays in range, the port of a proxy is its id and ten thousand.
port_of_lem : (id : ℕ) → id + 10000 < two_63 → port_of id ≡ pos (id + 10000)
unfolding port_of wrap64 ◌+ℤ◌
port_of_lem id h = ground arith

module _ {w : World} (s : Sqlite w) (m : Manager w) where
  -- Where the map and the table are consistent and the port is in the range of an `int`, the line of
  -- a proxy with an instance names the port of that instance.
  pub export_line-port :
      (p : Proxy) (pi : ProxyInstance w)
      → IsConsistent s m
      → lookup p.id m.instances ≡ some pi
      → p.id + 10000 < two_63
      → export_line m.config p ≡ m.config.server_ip ++ ":" ++ format_int pi.port
  unfolding export_line format_int
  export_line-port p pi c l h =
      rw ((c.at p.id pi l).0.port_eq ∙ port_of_lem p.id h, uint_lem (p.id + 10000) (omega arith))

-- The lines of an export that is not empty, none of which has a newline, are read back by splitting
-- it: the parts are the lines and an empty one, as the text ends with a newline.
pub split-export_body :
    (line : String) (lines : List String)
    → AllLack 10 (line ∷ lines)
    → split 10 (export_body (line ∷ lines)) ≡ (line ∷ lines) +++ ("" ∷ [])
unfolding export_body
split-export_body line lines h = split-join (char 10 tt) line lines h
