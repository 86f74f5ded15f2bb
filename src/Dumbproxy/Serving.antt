-- ===== src/Dumbproxy/Serving.antt =====
-- What runs on the port of an instance: internal/proxymanager makes the provider and the handler of
-- pkg/dumbproxy, and the server gives it the requests. `auth.NewAuth` is the function that is
-- modelled here; all other calls are those of any world.
pub mod Always
use go_forward_proxy.Base.{
  ℕ, suc, String, ◌≡◌, refl, Bool, true, false, ◌&&◌, Option, none, some, List, [], ◌∷◌, str_eq,
  arith, inl, inr, Option-cases, if◌then◌else◌,
}
use go_forward_proxy.Base.Result.{Result, ok, err, Exec}
use go_forward_proxy.Config.{Config}
use go_forward_proxy.World.{World}
use Prim.Native.String.{◌++◌}
use go_forward_proxy.Base.Decimal.{format_int}
use go_forward_proxy.Instance.Lifecycle.{launch}
use go_forward_proxy.Instance.{
  port_of, ProxyInstance, auth_url, new_proxy_instance, start, update_upstream,
}
use go_forward_proxy.Instance.ParseProxyStr.{parse_proxy_str}
use go_forward_proxy.Dumbproxy.Http.{Request, Writer, http_error}
use go_forward_proxy.Dumbproxy.Calls.{Calls}
use go_forward_proxy.Dumbproxy.Auth.{Auth, new_auth_within, validate, close}
use go_forward_proxy.Dumbproxy.Auth.Credentials.{
  bad_req_msg, basic_credentials, ask_for_credentials,
}
use go_forward_proxy.Dumbproxy.Auth.Sizes.{size}
use go_forward_proxy.Dumbproxy.Auth.Plain.{is_plain, StaticLaws}
use go_forward_proxy.Dumbproxy.Auth.Static.{static_answer, new_auth-static_answer}
use go_forward_proxy.Dumbproxy.Handler.{
  ProxyHandler, State, Served, returned, is_loopback, serve_user, serve_verdict, serve_checked,
  serve_http, new_proxy_handler,
}
use go_forward_proxy.Dumbproxy.Handler.Ends.{Net}

-- what a call of the world does beside what the providers of authentication see
abbrev pub beside : {E F A : Type 0} → Exec E A → Exec (E × F) A
beside m (e, f) = let (r, e') = m e in (r, (e', f))

-- The world of the manager in which the providers are those of pkg/dumbproxy/auth. One level of
-- providers more than the URL has characters is enough for `NewAuth`.
abbrev pub provided : Calls → World → World
provided c w = record {
  Env = w.Env × c.Env;
  Auth = Auth c;
  new_auth =
      λ url env. let (r, e) = new_auth_within c (suc (size url)) url (env.1) in (r, (env.0, e));
  close_auth = λ a env. (env.0, (close c a (env.1)).1);
  Dialer = w.Dialer;
  proxy_dialer_from_url = w.proxy_dialer_from_url;
  Listener = w.Listener;
  listen = λ addr. beside (w.listen addr);
  serve = λ l env. (w.serve l (env.0), env.1);
  shutdown = λ l. beside (w.shutdown l);
  close_listener = λ l env. (w.close_listener l (env.0), env.1);
  now = λ env. let (t, e) = w.now (env.0) in (t, (e, env.1));
  Float = w.Float;
  seconds = w.seconds;
  float64 = w.float64;
  ge = w.ge;
  Db = w.Db;
  select_id_by_key = w.select_id_by_key;
  insert_proxy = w.insert_proxy;
  update_proxy = w.update_proxy;
  update_reset = w.update_reset;
  delete_proxy = w.delete_proxy;
  select_by_id = w.select_by_id;
  select_ordered = w.select_ordered;
  select_all = w.select_all;
}

-- an error leaves the instance as it is
unfoldable pub kept_or : {A : Type 0} → A → Result A → A
kept_or a (ok a') = a'
kept_or a (err e) = a

module _ (c : Calls) where
  -- the configured login and a password that is taken
  abbrev pub has_credentials : Config → (String → Bool) → Request → Bool
  has_credentials cfg takes req = elim (basic_credentials c req) [
    | none ↦ false
    | some (u, p) ↦ str_eq cfg.username u && takes p
  ]

  -- What is to happen with a request, by the configuration and the client of the tunnel that it comes
  -- out of, if it does.
  unfoldable pub served_as_configured :
      (net : Net)
      → ProxyHandler c
      → Config
      → (String → Bool)
      → String
      → Request
      → Writer
      → State c.Env net.E
      → Option String
      → Served c net
  served_as_configured net handler cfg takes local_addr req wr s (some originator) =
      (returned, http_error bad_req_msg 400 wr, s)
  served_as_configured net handler cfg takes local_addr req wr s none =
      if has_credentials cfg takes req
      then serve_user c net handler local_addr req cfg.username wr s
      else (returned, ask_for_credentials wr, s)

module _ (c : Calls) (w : World) where
  -- the calls of `UpdateUpstream` for so many proxy strings, those that fail included
  unfoldable pub switched :
      List String → ProxyInstance (provided c w) → ProxyInstance (provided c w)
  switched [] pi = pi
  switched (s ∷ ss) pi = switched ss (kept_or pi (update_upstream (provided c w) s pi))

  -- The handler of the server, as `NewProxyInstance` and `UpdateUpstream` configure it.
  abbrev pub server_handler : ProxyInstance (provided c w) → Option (ProxyHandler c)
  server_handler pi = elim pi.server [
    | none ↦ none
    | some sv ↦
        some
          ((new_proxy_handler c (record { auth = some sv.handler.auth; user_ip_hints = false })).0)
  ]

  abbrev pub handler_of : Auth c → ProxyHandler c
  handler_of auth = (new_proxy_handler c (record { auth = some auth; user_ip_hints = false })).0

  abbrev IsGuarded : Auth c → ProxyInstance (provided c w) → Type 0
  IsGuarded a pi = (server_handler pi ≡ some (handler_of a)) × (pi.auth ≡ a)

  update_upstream-IsGuarded :
      (a : Auth c) (s : String) (pi : ProxyInstance (provided c w))
      → IsGuarded a pi
      → IsGuarded a (kept_or pi (update_upstream (provided c w) s pi))
  unfolding update_upstream new_proxy_handler kept_or
  update_upstream-IsGuarded a s pi h = ground (arith, h)

  switched-IsGuarded :
      (a : Auth c) (ss : List String) (pi : ProxyInstance (provided c w))
      → IsGuarded a pi
      → IsGuarded a (switched ss pi)
  unfolding switched
  switched-IsGuarded a [] pi h = h
  switched-IsGuarded a (s ∷ ss) pi h =
      switched-IsGuarded a ss (kept_or pi (update_upstream (provided c w) s pi))
        (update_upstream-IsGuarded a s pi h)

  pub serve_checked-static :
      (net : Net) (cfg : Config) (takes : String → Bool) (a : Auth c)
      → ((req : Request) (wr : Writer) (e : c.Env)
          → validate c a req wr e ≡ static_answer c cfg.username takes req wr e)
      → (local_addr : String) (req : Request) (wr : Writer) (s : State c.Env net.E)
        (o : Option String)
      → serve_checked c net (handler_of a) local_addr req wr s o
        ≡ served_as_configured c net (handler_of a) cfg takes local_addr req wr s o
  unfolding serve_checked serve_verdict served_as_configured static_answer new_proxy_handler
  serve_checked-static net cfg takes a v local_addr req wr s (some o) = refl
  serve_checked-static net cfg takes a v local_addr req wr s none =
      rw (v req wr s.calls_env) (elim (Option-cases (basic_credentials c req)) [
        | inl n ↦ ground (arith, n)
        | inr ((u, p), n) ↦ ground (arith, n)
      ])

  launch-provided :
      (id : ℕ) (s ty : String) (cfg : Config) (a : Auth c) (upstream : String) (dialer : w.Dialer)
      (listener : w.Listener) (e e' : w.Env) (x x' : c.Env)
      → new_auth_within c (suc (size (auth_url cfg))) (auth_url cfg) x ≡ (ok a, x')
      → parse_proxy_str s ty ≡ ok upstream
      → w.proxy_dialer_from_url upstream ≡ ok dialer
      → w.listen (":" ++ format_int (port_of id)) e ≡ (ok listener, e')
      → (pi : ProxyInstance (provided c w)) × (launch (provided c w) id s ty cfg (e, x)
          ≡ (ok pi, (w.serve listener e', x')))
        × IsGuarded a pi
  unfolding new_proxy_instance start new_proxy_handler
  launch-provided id s ty cfg a upstream dialer listener e e' x x' n p d l = (
    record {
      proxy_id = id;
      port = port_of id;
      service_type = ty;
      listener = some listener;
      handler = record { dialer = dialer; auth = a };
      server = some (record { handler = record { dialer = dialer; auth = a } });
      cancel = true;
      auth = a;
      dialer = dialer;
    },
    ground (arith, n, p, d, l),
    (refl, refl),
  )

  -- Where the configured login and password are plain and not empty, bcrypt makes a hash, the proxy
  -- string is parsed, the upstream has a dialer and the port is free, the instance is made and
  -- started. Its server, also after any calls of `UpdateUpstream`, treats each request so: a request
  -- out of a tunnel is answered with 400; one with the configured login and a password
  -- that bcrypt takes for the hash is served for the configured login; any other is answered
  -- with 407, and nothing is dialled or changed for it.
  pub launch-served_as_configured :
      (laws : StaticLaws c) (id : ℕ) (s ty : String) (cfg : Config) (hash upstream : String)
      (dialer : w.Dialer) (listener : w.Listener) (e e' : w.Env) (x x' : c.Env)
      → is_plain cfg.username ≡ true
      → is_plain cfg.password ≡ true
      → str_eq cfg.username "" ≡ false
      → str_eq cfg.password "" ≡ false
      → c.bcrypt cfg.password x ≡ (ok hash, x')
      → parse_proxy_str s ty ≡ ok upstream
      → w.proxy_dialer_from_url upstream ≡ ok dialer
      → w.listen (":" ++ format_int (port_of id)) e ≡ (ok listener, e')
      → (pi : ProxyInstance (provided c w)) × (handler : ProxyHandler c) × (launch
            (provided c w)
            id
            s
            ty
            cfg
            (e, x)
          ≡ (ok pi, (w.serve listener e', x')))
        × ((ss : List String) → server_handler (switched ss pi) ≡ some handler)
        × ((net : Net) (local_addr : String) (req : Request) (wr : Writer) (st : State c.Env net.E)
            → serve_http c net handler local_addr req wr st
              ≡ served_as_configured c net handler cfg
                  (laws.compare hash)
                  local_addr
                  req
                  wr
                  st
                  (is_loopback req st.outbound))
  unfolding serve_http
  launch-served_as_configured laws id s ty cfg hash upstream dialer listener e e' x x' p q p₀ q₀ b u
        d l =
      let (a, n, v) = new_auth-static_answer laws (size (auth_url cfg)) cfg hash x x' p q p₀ q₀ b in
      let (pi, made, guarded) =
        launch-provided id s ty cfg a upstream dialer listener e e' x x' n u d l in
      (
        pi,
        handler_of a,
        made,
        λ ss. (switched-IsGuarded a ss pi guarded).0,
        λ net local_addr req wr st.
            serve_checked-static net cfg (laws.compare hash) a v local_addr req wr st
              (is_loopback req st.outbound),
      )
