-- ===== src/Dumbproxy/Serving/Always.antt =====
-- What runs on the ports of the manager's instances, whatever the program has been through.
use go_forward_proxy.Base.{ℕ, suc, String, ◌≡◌, ap, ◌∙◌, true, false, some, inl, inr, str_eq, arith}
use go_forward_proxy.Base.Dict.{lookup}
use go_forward_proxy.Base.Result.{ok, Result-cases}
use go_forward_proxy.Config.{Config}
use go_forward_proxy.World.{World}
use go_forward_proxy.World.Sqlite.{Sqlite}
use go_forward_proxy.Instance.{ProxyInstance, auth_url}
use go_forward_proxy.Manager.{Manager, Services, new_manager}
use go_forward_proxy.AutoReset.Steps.{Reach}
use go_forward_proxy.AutoReset.Guards.{reachable-AreGuarded}
use go_forward_proxy.Dumbproxy.Http.{Request, Writer}
use go_forward_proxy.Dumbproxy.Calls.{Calls}
use go_forward_proxy.Dumbproxy.Auth.{Auth, new_auth_within, validate}
use go_forward_proxy.Dumbproxy.Auth.Sizes.{size}
use go_forward_proxy.Dumbproxy.Auth.Plain.{is_plain, StaticLaws}
use go_forward_proxy.Dumbproxy.Auth.Static.{static_answer, new_auth-static_answer}
use go_forward_proxy.Dumbproxy.Auth.Unmade.{new_auth-no_hash}
use go_forward_proxy.Dumbproxy.Handler.{ProxyHandler, State, is_loopback, serve_http}
use go_forward_proxy.Dumbproxy.Handler.Ends.{Net}
use go_forward_proxy.Dumbproxy.Serving.{
  provided, server_handler, handler_of, served_as_configured, serve_checked-static,
}

-- The database is that of the world; what is relied on of it is the same.
abbrev provided_sqlite : (c : Calls) {w : World} → Sqlite w → Sqlite (provided c w)
provided_sqlite c s = record {
  row = s.row;
  next_id = s.next_id;
  row-id = s.row-id;
  row-lt = s.row-lt;
  row-next_id = s.row-next_id;
  next_id-lt = s.next_id-lt;
  select_id-some = s.select_id-some;
  select_id-none = s.select_id-none;
  insert-ok = s.insert-ok;
  insert-id = s.insert-id;
  insert-err = s.insert-err;
  update-ok = s.update-ok;
  update-err = s.update-err;
  reset-ok = s.reset-ok;
  reset-err = s.reset-err;
  delete-ok = s.delete-ok;
  delete-err = s.delete-err;
  select_by_id-ok = s.select_by_id-ok;
  select_ordered-ok = s.select_ordered-ok;
  select_all-ok = s.select_all-ok;
}

-- bcrypt made this hash of the configured password
abbrev pub IsHash : Calls → Config → String → Type 0
IsHash c cfg hash =
    (before : c.Env) × (after : c.Env) × (c.bcrypt cfg.password before ≡ (ok hash, after))

module _ {c : Calls} (laws : StaticLaws c) (cfg : Config) (p : is_plain cfg.username ≡ true)
    (q : is_plain cfg.password ≡ true) (p₀ : str_eq cfg.username "" ≡ false)
    (q₀ : str_eq cfg.password "" ≡ false) where
  abbrev AnswersAsConfigured : Auth c → Type 0
  AnswersAsConfigured a =
      (hash : String) × IsHash c cfg hash
      × ((req : Request) (wr : Writer) (e : c.Env)
          → validate c a req wr e ≡ static_answer c cfg.username (laws.compare hash) req wr e)

  -- Whatever provider is made for the configuration answers by its login and password.
  new_auth-AnswersAsConfigured :
      (a : Auth c) (env : c.Env)
      → (new_auth_within c (suc (size (auth_url cfg))) (auth_url cfg) env).0 ≡ ok a
      → AnswersAsConfigured a
  new_auth-AnswersAsConfigured a env h =
      let n = size (auth_url cfg) in
      let after = (c.bcrypt cfg.password env).1 in
      elim (Result-cases (c.bcrypt cfg.password env).0) [
        | inr (e, b) ↦ absurd (
            ground (
              arith,
              h,
              new_auth-no_hash laws n cfg e env after p q p₀ q₀ (ap (λ r. (r, after)) b),
            ))
        | inl (hash, b) ↦
            let (a', made, v) =
              new_auth-static_answer laws n cfg hash env after p q p₀ q₀ (ap (λ r. (r, after)) b) in
            (
              hash,
              (env, after, ap (λ r. (r, after)) b),
              λ req wr e. ap (λ x. validate c x req wr e) (ground (arith, made, h)) ∙ v req wr e,
            )
      ]

  module _ {w : World} (s : Sqlite w) where
    -- Where the configured login and password are plain and not empty, the server of each instance
    -- in the map, whatever the program has been through, treats each request so: a request out of a
    -- tunnel is answered with 400; one with the configured login and a password that
    -- `bcrypt.CompareHashAndPassword` takes for a hash which bcrypt made of the configured password,
    -- as it takes that password itself, is served for the configured login; any other is answered
    -- with 407, and nothing is dialled or changed for it.
    pub reachable-served_as_configured :
        (db : w.Db) (services : Services (provided c w)) (env : w.Env × c.Env)
        (m : Manager (provided c w)) (id : ℕ) (pi : ProxyInstance (provided c w))
        → Reach (provided c w) (new_manager (provided c w) db cfg services env) m
        → lookup id m.instances ≡ some pi
        → (hash : String) × IsHash c cfg hash
          × (laws.compare hash cfg.password ≡ true)
          × (handler : ProxyHandler c) × (server_handler c w pi ≡ some handler)
          × ((net : Net) (local_addr : String) (req : Request) (wr : Writer)
                (st : State c.Env net.E)
              → serve_http c net handler local_addr req wr st
                ≡ served_as_configured c net handler cfg
                    (laws.compare hash)
                    local_addr
                    req
                    wr
                    st
                    (is_loopback req st.outbound))
    unfolding serve_http
    reachable-served_as_configured db services env m id pi r l =
        let (serves, asks, answers) =
          (reachable-AreGuarded (provided_sqlite c s) AnswersAsConfigured cfg
              (λ a e h. new_auth-AnswersAsConfigured a (e.1) h) db services env m r).all
            id pi l in
        let (hash, (before, after, b), validates) = answers in
        (
          hash,
          (before, after, b),
          laws.compare-bcrypt cfg.password hash before after b,
          handler_of c w pi.auth,
          ground (arith, serves, asks),
          λ net local_addr req wr st.
              serve_checked-static c w net cfg (laws.compare hash) pi.auth validates local_addr req
                wr st (is_loopback req st.outbound),
        )
