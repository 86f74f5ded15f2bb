-- ===== src/Dumbproxy/Auth/Basic.antt =====
-- auth/static.go, auth/basic.go and auth/file.go: a login and a password against an htpasswd file.
-- What is built from other providers takes them as arguments.
use Prim.Native.String.{◌++◌}
use go_forward_proxy.Base.{
  String, Bool, true, false, not, ◌&&◌, Option, none, some, str_eq, if◌then◌else◌,
}
use go_forward_proxy.Base.Int.{ℤ, pos, leb_ℤ, eq_ℤ}
use go_forward_proxy.Base.Result.{
  ok, err, Exec, pure, fail, lift, wrapping, attempt, check, modify, ◌>>=◌, ◌>>◌,
}
use go_forward_proxy.Services.Interface.{Time}
use go_forward_proxy.Services.KiotProxy.{zero_time}
use go_forward_proxy.Dumbproxy.Query.{Values, get, parse_query}
use go_forward_proxy.Dumbproxy.Calls.{Url, Calls}
use go_forward_proxy.Dumbproxy.Auth.Credentials.{
  Validate, Valid, require_basic_auth, try_valid, basic_credentials, admit,
}

module _ (c : Calls) where
  pub record PwFile : Type 0 where
    pub file : c.File
    pub mod_time : Time

  -- The logger and the channel that stops the reloads are left out; `stopped` says whether
  -- `stopOnce` has run.
  pub record BasicAuth : Type 0 where
    pub pw : PwFile
    pub pw_filename : String
    pub hidden_domain : String
    pub stopped : Bool

  -- `openIfModified`: the file, where its time is not the one that is known.
  unfoldable pub open_if_modified : String → Time → Exec c.Env (Option c.Handle × Time)
  open_if_modified filename since = do
    f ← wrapping ("openIfModified(): can't open file " ++ c.quoted filename) (c.open_file filename)
    stat ← attempt (c.mod_time f)
    elim stat [
      | err e ↦ do
        modify (c.close_file f)
        fail ("openIfModified(): can't stat file " ++ c.quoted filename ++ ": " ++ e)
      | ok mod_time ↦
          let closed : Exec c.Env (Option c.Handle × Time) =
            modify (c.close_file f) >> pure (none, mod_time) in
          if not (eq_ℤ since zero_time) && leb_ℤ mod_time since
          then closed
          else pure (some f, mod_time)
    ]

  -- the file of passwords, where it is not the one that is known
  load : Option c.Handle × Time → Option PwFile → Exec c.Env (Option PwFile)
  load (none, mod_time) old = pure old
  load (some f, mod_time) old = do
    text ← c.read_all f
    file ← lift (c.new_from_reader text)
    pure (some (record { file = file; mod_time = mod_time }))

  known_time : Option PwFile → Time
  known_time none = zero_time
  known_time (some pw) = pw.mod_time

  -- `reload`, by the password file before it and after it
  unfoldable pub reload : String → Option PwFile → Exec c.Env (Option PwFile)
  unfolding load known_time
  reload filename old = do opened ← open_if_modified filename (known_time old); load opened old

  -- `reload` of a provider: an error leaves it as it was
  unfoldable pub reload_auth : BasicAuth → Exec c.Env BasicAuth
  reload_auth auth = do
    pw ← reload auth.pw_filename (some auth.pw)
    elim pw [ none ↦ pure auth | some pw ↦ pure (record auth { pw = pw }) ]

  -- The interval of the reloads, in nanoseconds. Where the option does not parse, the source goes
  -- on with the zero that `ParseDuration` returns beside its error.
  unfoldable pub reload_interval : String → ℤ
  reload_interval option =
      if str_eq option ""
      then pos 15000000000
      else elim (c.parse_duration option) [ ok interval ↦ interval | err e ↦ pos 0 ]

  -- `if reloadInterval > 0 { go auth.reloadLoop(reloadInterval) }`
  unfoldable pub start_reloads : ℤ → c.Env → c.Env
  start_reloads interval env = if leb_ℤ interval (pos 0) then env else c.go_reload_loop interval env

  -- the first load of a file: its time is not the zero time, so that there is one
  loaded : Option PwFile → Exec c.Env PwFile
  loaded none = fail "no password file"
  loaded (some pw) = pure pw

  module _ {Next : Type 0} (next_of : Values → Exec c.Env Next) where
    -- `NewBasicFileAuth`; `next_of` is the provider of the parameter `else`.
    unfoldable pub new_basic_file_auth : Url → Exec c.Env (BasicAuth × Next)
    unfolding loaded start_reloads
    new_basic_file_auth url = do
      values ← lift (parse_query c.unescape url.raw_query)
      let filename = get "path" values
      check (not (str_eq filename "")) "\"path\" parameter is missing from auth config URI"
      found ← wrapping "unable to load initial password list" (reload filename none)
      pw ← loaded found
      modify (start_reloads (reload_interval (get "reload" values)))
      next ← next_of values
      pure (
        record {
          pw = pw;
          pw_filename = filename;
          hidden_domain = c.to_lower (get "hidden_domain" values);
          stopped = false;
        },
        next,
      )

    -- `NewStaticAuth`: the file has one line.
    unfoldable pub new_static_auth : Url → Exec c.Env (BasicAuth × Next)
    new_static_auth url = do
      values ← lift (parse_query c.unescape url.raw_query)
      let username = get "username" values
      check (not (str_eq username "")) "\"username\" parameter is missing from auth config URI"
      let password = get "password" values
      check (not (str_eq password "")) "\"password\" parameter is missing from auth config URI"
      hashed_password ← c.bcrypt password
      f ←
          wrapping "can't instantiate pwFile"
            (lift (c.new_from_reader (username ++ ":" ++ hashed_password)))
      next ← next_of values
      pure (
        record {
          pw = record { file = f; mod_time = zero_time };
          pw_filename = "";
          hidden_domain = c.to_lower (get "hidden_domain" values);
          stopped = false;
        },
        next,
      )

  -- `Validate` and `Valid` of `BasicAuth`
  unfoldable pub basic_validate : BasicAuth → Option (Validate c) → Validate c
  basic_validate auth next req wr env =
      let refused = require_basic_auth c auth.hidden_domain next req wr env in
      elim (basic_credentials c req) [
        | none ↦ refused
        | some (login, password) ↦
            if c.match auth.pw.file login password
            then admit c auth.hidden_domain login req wr env
            else refused
      ]

  unfoldable pub basic_valid : BasicAuth → Option (Valid c) → Valid c
  basic_valid auth next user password env =
      if c.match auth.pw.file user password then (true, env) else try_valid c next user password env
