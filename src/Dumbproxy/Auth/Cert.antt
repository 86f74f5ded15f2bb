-- ===== src/Dumbproxy/Auth/Cert.antt =====
-- auth/cert.go: clients with a certificate that is not on a list.
use Prim.Native.String.{◌++◌}
use go_forward_proxy.Base.{String, Bool, false, Option, none, some, str_eq, if◌then◌else◌}
use go_forward_proxy.Base.Result.{ok, err, Exec, pure, lift, modify, wrapping, ◌>>=◌, ◌>>◌}
use go_forward_proxy.Services.Interface.{Time}
use go_forward_proxy.Services.KiotProxy.{zero_time}
use go_forward_proxy.Dumbproxy.Http.{Cert, http_error}
use go_forward_proxy.Dumbproxy.Query.{Values, get, parse_query}
use go_forward_proxy.Dumbproxy.Calls.{Url, Calls}
use go_forward_proxy.Dumbproxy.Auth.Credentials.{
  Verdict, denied, admitted, panicked, Validate, bad_req_msg,
}
use go_forward_proxy.Dumbproxy.Auth.Basic.{open_if_modified, reload_interval, start_reloads}
use go_forward_proxy.Dumbproxy.Auth.Serial.{
  SerialNumberSet, serial_number_set, has_serial, format_serial,
}

pub record SerialNumberSetFile : Type 0 where
  pub file : Option SerialNumberSet
  pub mod_time : Time

pub record CertAuth : Type 0 where
  pub blacklist : SerialNumberSetFile
  pub blacklist_filename : String
  pub stopped : Bool

abbrev empty_blacklist : SerialNumberSetFile
empty_blacklist = record { file = none; mod_time = zero_time }

module _ (c : Calls) where
  load_blacklist : Option c.Handle × Time → SerialNumberSetFile → Exec c.Env SerialNumberSetFile
  load_blacklist (none, mod_time) old env = (ok old, env)
  load_blacklist (some f, mod_time) old env =
      let ((lines, failed), env') = c.scan_lines f env in
      elim failed [
        | some e ↦ (err ("unable to load serial number set: " ++ e), env')
        | none ↦ (
          ok (record { file = some (serial_number_set c.trim_space lines); mod_time = mod_time }),
          env',
        )
      ]

  -- `reload`, by the list before it and after it
  unfoldable pub reload_blacklist : String → SerialNumberSetFile → Exec c.Env SerialNumberSetFile
  unfolding load_blacklist
  reload_blacklist filename old = do
    opened ← open_if_modified c filename old.mod_time
    load_blacklist opened old

  first_blacklist : String → String → Exec c.Env SerialNumberSetFile
  first_blacklist filename reload = if str_eq filename "" then pure empty_blacklist else do
    blacklist ←
        wrapping "unable to load initial certificate blacklist"
          (reload_blacklist filename empty_blacklist)
    modify (start_reloads c (reload_interval c reload))
    pure blacklist

  -- `NewCertAuth`, with the providers of the parameters `next` and `else`
  unfoldable pub new_cert_auth :
      {Next : Type 0} (next_of else_of : Values → Exec c.Env Next)
      → Url
      → Exec c.Env (CertAuth × Next × Next)
  unfolding first_blacklist
  new_cert_auth next_of else_of url = do
    values ← lift (parse_query c.unescape url.raw_query)
    let filename = get "blacklist" values
    blacklist ← first_blacklist filename (get "reload" values)
    next ← next_of values
    reject ← else_of values
    pure (
      record { blacklist = blacklist; blacklist_filename = filename; stopped = false },
      next,
      reject,
    )

  unfoldable pub handle_reject : Option (Validate c) → Validate c
  handle_reject none req wr env = (denied, http_error bad_req_msg 400 wr, env)
  handle_reject (some reject) req wr env = reject req wr env

  -- the user name of a certificate; a serial number of zero has no text
  unfoldable pub cert_user : Cert → Verdict
  cert_user cert = elim (format_serial cert.serial) [
    | none ↦ panicked
    | some text ↦ admitted ("Subject: " ++ cert.subject ++ ", Serial Number: " ++ c.text_of text)
  ]

  unfoldable pub cert_validate : CertAuth → (next reject : Option (Validate c)) → Validate c
  unfolding handle_reject cert_user
  cert_validate auth next reject req wr env = elim req.peer_cert [
    | none ↦ handle_reject reject req wr env
    | some cert ↦
        if has_serial cert.serial auth.blacklist.file
        then handle_reject reject req wr env
        else elim next [ none ↦ (cert_user cert, wr, env) | some v ↦ v req wr env ]
  ]
