-- ===== src/Dumbproxy/Auth/Credentials.antt =====
-- auth/common.go, and what the providers that ask for a login and a password have in common.
use go_forward_proxy.Base.{
  String, Bool, false, not, ◌&&◌, ◌||◌, Option, none, some, List, [], ◌∷◌, str_eq, if◌then◌else◌,
}
use go_forward_proxy.Base.Text.{cut}
use go_forward_proxy.Base.Result.{Result, ok, err}
use go_forward_proxy.Dumbproxy.Http.{
  Request, Writer, get_header, set_header, put_header, on_header, write_header, write_body,
  http_error, byte_count,
}
use go_forward_proxy.Dumbproxy.Calls.{Calls}

-- auth/constants.go
abbrev pub auth_required_msg : String
auth_required_msg = "Proxy authentication required.\n"

abbrev pub bad_req_msg : String
bad_req_msg = "Bad Request\n"

abbrev pub auth_triggered_msg : String
auth_triggered_msg = "Browser auth triggered!\n"

abbrev pub epoch_expire : String
epoch_expire = "Thu, 01 Jan 1970 00:00:01 GMT"

-- The results of `Validate`: `"", false`, a user name and true, or no result, as it panics.
pub data Verdict : Type 0 where
  denied : Verdict
  admitted : String → Verdict
  panicked : Verdict

-- The answer to a request that is not let in.
unfoldable pub ask_for_credentials : Writer → Writer
ask_for_credentials wr = write_body auth_required_msg (
    write_header 407 (
      on_header
        (λ h.
          set_header "Content-Length" (byte_count auth_required_msg)
            (set_header "Proxy-Authenticate" "Basic realm=\"dumbproxy\"" h))
        wr))

-- The answer that shows a browser that its credentials were accepted.
unfoldable pub auth_triggered : Writer → Writer
auth_triggered wr = write_body auth_triggered_msg (
    write_header 200 (
      on_header
        (λ h. put_header "Date" [] (
          set_header "Expires" epoch_expire (
            set_header "Cache-Control" "no-cache, no-store, must-revalidate" (
              set_header "Pragma" "no-cache"
                (set_header "Content-Length" (byte_count auth_triggered_msg) h)))))
        wr))

module _ (c : Calls) where
  -- `Validate(ctx, wr, req)`
  abbrev pub Validate : Type 0
  Validate = Request → Writer → c.Env → Verdict × Writer × c.Env

  -- `Valid(user, password, userAddr)`
  abbrev pub Valid : Type 0
  Valid = String → String → c.Env → Bool × c.Env

  unfoldable pub match_hidden_domain : String → String → Bool
  match_hidden_domain host hidden_domain =
      let h : String = elim (c.split_host host) [ none ↦ host | some h ↦ h ] in
      str_eq (c.to_lower h) hidden_domain

  unfoldable pub require_basic_auth : String → Option Validate → Validate
  unfolding match_hidden_domain
  require_basic_auth hidden_domain (some next) req wr env = next req wr env
  require_basic_auth hidden_domain none req wr env =
      if not (str_eq hidden_domain "")
        && not (match_hidden_domain req.url_host hidden_domain)
        && not (match_hidden_domain req.host hidden_domain)
      then (denied, http_error bad_req_msg 400 wr, env)
      else (denied, ask_for_credentials wr, env)

  -- `tryValid`; a provider without `Valid` refuses, as does nil
  abbrev pub try_valid : Option Valid → Valid
  try_valid none user password env = (false, env)
  try_valid (some valid) user password env = valid user password env

  -- The login and the password of the header `Proxy-Authorization`.
  unfoldable pub basic_credentials : Request → Option (String × String)
  basic_credentials req =
      let hdr = get_header "Proxy-Authorization" req.header in
      if str_eq hdr "" then none else elim (cut b' ' hdr) [
        | none ↦ none
        | some (kind, token) ↦
            if not (str_eq (c.to_lower kind) "basic")
            then none
            else elim (c.decode_base64 token) [ none ↦ none | some pair ↦ cut b':' pair ]
      ]

  -- A login whose password matched.
  unfoldable pub admit : String → String → Validate
  admit hidden_domain login req wr env =
      if not (str_eq hidden_domain "")
        && (str_eq req.host hidden_domain || str_eq req.url_host hidden_domain)
      then (denied, auth_triggered wr, env)
      else (admitted login, wr, env)

  -- The first parser that takes the text, or that fails on it, decides.
  first_matcher : List (String → Result (Option c.Matcher)) → String → Result c.Matcher
  first_matcher [] encoded = err "no suitable password encoding system found"
  first_matcher (p ∷ ps) encoded =
      let rest = first_matcher ps encoded in
      elim (p encoded) [ err e ↦ err e | ok none ↦ rest | ok (some matcher) ↦ ok matcher ]

  unfoldable pub make_passwd_matcher : String → Result c.Matcher
  unfolding first_matcher
  make_passwd_matcher encoded = first_matcher c.default_systems encoded
