-- ===== src/Dumbproxy/Auth/Reject.antt =====
-- auth/rejectstatic.go, auth/rejecthttp.go and auth/noauth.go: providers that let nobody in, with
-- an answer of their own, and the one that lets everybody in.
use Prim.Native.String.{len, slice}
use text.Mathlib.Text.{starts_with}
use go_forward_proxy.Base.{
  String, Bool, true, false, ◌&&◌, none, some, List, [], ◌∷◌, str_eq, leb, ◌==◌, ◌||◌,
  if◌then◌else◌,
}
use go_forward_proxy.Base.Int.{ℤ, pos, negsuc}
use go_forward_proxy.Base.Bytes.{Bytes, cut_bytes}
use go_forward_proxy.Base.Decimal.{atoi}
use go_forward_proxy.Base.Result.{ok, err, Exec, pure, lift, fail, ◌>>=◌}
use go_forward_proxy.Dumbproxy.Http.{
  Header, Writer, put_header, add_header, on_header, write_header, write_body,
}
use go_forward_proxy.Dumbproxy.Query.{get, has, parse_query}
use go_forward_proxy.Dumbproxy.Calls.{Url, Calls}
use go_forward_proxy.Dumbproxy.Auth.Credentials.{Verdict, denied, admitted, panicked, Validate}

pub record StaticRejectAuth : Type 0 where
  pub code : ℤ
  pub body : String
  pub hdrs : String

-- `strings.CutPrefix(s, prefix)`, without the flag
unfoldable pub cut_prefix : String → String → String
cut_prefix prefix s = if starts_with s prefix then slice s (len prefix) (len s) else s

-- `bytes.TrimLeft(value, " \t")`
unfoldable pub trim_blanks : Bytes → Bytes
trim_blanks [] = []
trim_blanks (b ∷ bs) = let rest = trim_blanks bs in if b == b' ' || b == 9 then rest else b ∷ bs

module _ (c : Calls) where
  -- the code, without the message of strconv on an error
  parse_code : Bool → String → Exec c.Env ℤ
  parse_code false text = pure (pos 403)
  parse_code true text = elim (atoi text) [
    | none ↦ fail "unable to parse code parameter"
    | some code ↦ pure code
  ]

  unfoldable pub new_static_reject_auth : Url → Exec c.Env StaticRejectAuth
  unfolding parse_code
  new_static_reject_auth url = do
    values ← lift (parse_query c.unescape url.raw_query)
    code ← parse_code (has "code" values) (get "code" values)
    pure (record { code = code; body = get "body" values; hdrs = get "headers" values })

  -- The lines of `applyHeaders`: a name and a value, a name with no value, which removes it, or a
  -- name with the empty value. The first other line ends it.
  unfoldable pub apply_headers : List Bytes → Header → Header
  apply_headers [] h = h
  apply_headers (line ∷ lines) h = elim (cut_bytes b':' line) [
    | some (name, value) ↦ elim (trim_blanks value) [
      | [] ↦ apply_headers lines (put_header (c.text_of name) [] h)
      | b ∷ bs ↦ apply_headers lines (add_header (c.text_of name) (c.text_of (b ∷ bs)) h)
    ]
    | none ↦ elim (cut_bytes b';' line) [
      | some (name, _) ↦ apply_headers lines (add_header (c.text_of name) "" h)
      | none ↦ h
    ]
  ]

  -- the header that the file asks for; a file that does not open leaves it as it is
  with_headers : String → Writer → c.Env → Writer × c.Env
  with_headers hdrs wr env =
      if str_eq hdrs ""
      then (wr, env)
      else let (opened, env₁) = c.open_file hdrs env in
        elim opened [
          | err e ↦ (wr, env₁)
          | ok f ↦
              let ((lines, _), env₂) = c.scan_lines f env₁ in
              (on_header (apply_headers lines) wr, c.close_file f env₂)
        ]

  -- the body that is copied from the file, where it can be read to its end
  with_body : String → Writer → c.Env → Writer × c.Env
  with_body body wr env =
      if str_eq body ""
      then (wr, env)
      else let (opened, env₁) = c.open_file body env in
        elim opened [
          | err e ↦ (wr, env₁)
          | ok f ↦
              let (text, env₂) = c.read_all f env₁ in
              let wr' : Writer = elim text [ err e ↦ wr | ok t ↦ write_body t wr ] in
              (wr', c.close_file f env₂)
        ]

  abbrev answered : Writer × c.Env → Verdict × Writer × c.Env
  answered (wr, env) = (denied, wr, env)

  -- `WriteHeader` panics at a code that has not three digits.
  unfoldable pub static_reject_validate : StaticRejectAuth → Validate c
  unfolding with_headers with_body
  static_reject_validate a req wr env =
      let (wr₁, env₁) = with_headers a.hdrs wr env in
      elim a.code [
        | negsuc n ↦ (panicked, wr₁, env₁)
        | pos code ↦
            if leb 100 code && leb code 999
            then answered (with_body a.body (write_header code wr₁) env₁)
            else (panicked, wr₁, env₁)
      ]

  -- `NewRejectHTTPAuth`: the reverse proxy is made from its target, and from whether and with which
  -- method `Rewrite` changes the request.
  unfoldable pub new_reject_http_auth : Url → Exec c.Env c.ReverseProxy
  new_reject_http_auth url = do
    values ← lift (parse_query c.unescape url.raw_query)
    let target : Url = record url {
      scheme = cut_prefix "reject-" (c.to_lower url.scheme);
      raw_query = get "qs" values;
    }
    let xf = c.parse_bool (get "x-forwarded" values)
    pure (c.new_reverse_proxy target xf (get "method" values))

  unfoldable pub reject_http_validate : c.ReverseProxy → Validate c
  reject_http_validate proxy req wr env =
      let (wr', env') = c.serve_http proxy req wr env in (denied, wr', env')

  unfoldable pub no_auth_validate : Validate c
  no_auth_validate req wr env = (admitted "", wr, env)
