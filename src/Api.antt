-- ===== src/Api.antt =====
-- internal/api: the HTTP interface. Requests come from echo as far as it has read them, and a
-- response is a status and a body; the encoding of bodies as JSON is echo's.
pub mod Router
pub mod Keeps
pub mod Stored
pub mod Export
pub mod Delete
use Prim.Native.String.{◌++◌}
use go_forward_proxy.Base.{
  ℕ, ◌+◌, String, Bool, ◌&&◌, not, Option, none, some, List, [], ◌∷◌, map, str_eq, if◌then◌else◌,
}
use go_forward_proxy.Base.Int.{ℤ, uint}
use go_forward_proxy.Base.Decimal.{format_nat, parse_uint32}
use go_forward_proxy.Base.Text.{join}
use go_forward_proxy.Base.Result.{Result, ok, err}
use go_forward_proxy.Config.{Config}
use go_forward_proxy.Database.{Proxy}
use go_forward_proxy.World.{World}
use go_forward_proxy.Manager.{Manager, upsert_proxy, delete_proxy, get_all_proxies}

pub record UpsertProxyRequest : Type 0 where
  pub api_key : String
  pub service_type : String
  pub min_time_reset : ℤ

pub data Body : Type 0 where
  -- `{"error": message}`
  error : String → Body
  proxy : Proxy → Body
  proxies : List Proxy → Body
  text : String → Body
  no_content : Body

pub record Response : Type 0 where
  pub status : ℕ
  pub body : Body

abbrev pub failure : ℕ → String → Response
failure status message = record { status = status; body = error message }

-- `fmt.Sprintf("%s:%d", ServerIP, proxy.ID + 10000)`: the sum is a `uint`.
unfoldable pub export_line : Config → Proxy → String
export_line cfg p = cfg.server_ip ++ ":" ++ format_nat (uint (p.id + 10000))

-- The lines with a newline after each, and the empty text for no lines.
unfoldable pub export_body : List String → String
export_body [] = join "\n" []
export_body (line ∷ lines) = join "\n" (line ∷ lines) ++ "\n"

unfoldable pub credentials_match : String → String → String → String → Bool
credentials_match username password user pass = str_eq user username && str_eq pass password

module _ (w : World) where
  -- A handler answers, and leaves the manager in a new state.
  abbrev pub Handler : Type 0
  Handler = Manager w → Response × Manager w

  -- The answer to a call of the manager that returns a value or an error.
  abbrev pub respond : {A : Type 0} → (A → Response) → Result A → Response
  respond f (ok a) = f a
  respond f (err e) = failure 500 e

  -- `CreateProxy`; `none` is a body that `Bind` refuses.
  unfoldable pub create_proxy : Option UpsertProxyRequest → Handler
  create_proxy none m = (failure 400 "Invalid request body", m)
  create_proxy (some req) m =
      if not (str_eq req.service_type "tmproxy") && not (str_eq req.service_type "kiotproxy")
      then (failure 400 "service_type must be 'tmproxy' or 'kiotproxy'", m)
      else let (r, m') = upsert_proxy w req.api_key req.service_type req.min_time_reset m in
        (respond (λ p. record { status = 200; body = proxy p }) r, m')

  delete_by : Option ℕ → Handler
  delete_by none m = (failure 400 "Invalid proxy ID", m)
  delete_by (some id) m =
      let (r, m') = delete_proxy w (uint id) m in
      (respond (λ _. record { status = 204; body = no_content }) r, m')

  -- `DeleteProxy`, by the text of the path parameter
  unfoldable pub delete_proxy_handler : String → Handler
  unfolding delete_by
  delete_proxy_handler id_str = delete_by (parse_uint32 id_str)

  unfoldable pub list_proxies : Handler
  list_proxies m =
      let (r, m') = get_all_proxies w m in
      (respond (λ ps. record { status = 200; body = proxies ps }) r, m')

  unfoldable pub export_text : Handler
  unfolding export_line export_body
  export_text m =
      let (r, m') = get_all_proxies w m in
      (
        respond
            (λ ps. record {
              status = 200;
              body = text (export_body (map (export_line m.config) ps));
            })
            r,
        m',
      )
