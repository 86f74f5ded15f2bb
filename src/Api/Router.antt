-- ===== src/Api/Router.antt =====
-- internal/api/router.go: the routes. The middleware of `SetupRouter` logs and recovers; the one
-- that would ask for credentials is commented out there.
use go_forward_proxy.Base.{String, Option, List, [], ◌∷◌}
use go_forward_proxy.World.{World}
use go_forward_proxy.Api.{
  UpsertProxyRequest, Handler, create_proxy, delete_proxy_handler, list_proxies, export_text,
}

pub data Route : Type 0 where
  create delete list export : Route

-- Method and path, as they are registered.
unfoldable pub setup_router : List (String × String × Route)
setup_router =
    ("POST", "/api/proxies", Route.create)
    ∷ ("DELETE", "/api/proxies/:id", Route.delete)
    ∷ ("GET", "/api/proxies", Route.list)
    ∷ ("GET", "/api/export", Route.export)
    ∷ []

-- A request that echo has matched with a route, with what the handler reads of it.
pub data Request : Type 0 where
  create : Option UpsertProxyRequest → Request
  delete : String → Request
  list export : Request

module _ (w : World) where
  unfoldable pub handle : Request → Handler w
  handle (Request.create body) = create_proxy w body
  handle (Request.delete id) = delete_proxy_handler w id
  handle Request.list = list_proxies w
  handle Request.export = export_text w
