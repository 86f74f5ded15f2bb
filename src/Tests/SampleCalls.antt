-- ===== src/Tests/SampleCalls.antt =====
-- Concrete functions for what the forwarding proxy calls: texts are not escaped, a hash is the
-- password, base64 changes nothing, and the clock stands still.
use Prim.Native.Char.{char, code}
use Prim.Native.String.{◌++◌}
use text.Mathlib.TextLemmas.{append_assoc}
use go_forward_proxy.Base.{
  ℕ, zero, suc, ◌+◌, ◌≤◌, String, ◌≡◌, refl, ap, ◌∙◌, true, false, ◌&&◌, Option, none, some, [],
  ◌∷◌, ◌==◌, str_eq, eq_iff, arith, inl, inr, Option-cases, if◌then◌else◌,
}
use go_forward_proxy.Base.Int.{pos}
use go_forward_proxy.Base.Bytes.{Bytes, length}
use go_forward_proxy.Base.Text.{cut, lacks}
use go_forward_proxy.Base.Text.Split.{cut-append}
use go_forward_proxy.Base.Result.{Result, ok, err}
use go_forward_proxy.Dumbproxy.Http.{Request, Writer, http_error}
use go_forward_proxy.Dumbproxy.Calls.{Calls, Url}
use go_forward_proxy.Dumbproxy.Auth.Answers.{is_sent, http_error-sent}
use go_forward_proxy.Dumbproxy.Auth.Plain.{StaticLaws, plain-lacks}
use go_forward_proxy.Dumbproxy.Auth.Sizes.{SizeLaws, size, cut-size}
use go_forward_proxy.Dumbproxy.Auth.Hmac.Token.{TokenLaws}

unfoldable pub url_of : String → String → Url
url_of scheme query = record {
  scheme = scheme;
  user = "";
  host = "";
  path = "";
  raw_path = "";
  raw_query = query;
}

-- the part in front of "?" is the scheme, with its "://"
unfoldable pub parse_url : String → Result Url
unfolding url_of
parse_url s = elim (cut b'?' s) [
  | none ↦ ok (url_of s "")
  | some (scheme, query) ↦
      ok (url_of (if str_eq scheme "static://" then "static" else scheme) query)
]

unfoldable pub lower : String → String
lower s = if str_eq s "Basic" then "basic" else s

-- a byte as so many letters and an end
unfoldable pub unary : ℕ → String → String
unary zero s = String.◌∷◌ (char b'b' tt) s
unary (suc n) s = String.◌∷◌ (char b'a' tt) (unary n s)

unfoldable pub encode : Bytes → String
unfolding unary
encode [] = ""
encode (b ∷ bs) = unary b (encode bs)

abbrev onto : ℕ → Option Bytes → Option Bytes
onto n none = none
onto n (some bs) = some (n ∷ bs)

unfoldable pub decode_from : ℕ → String → Option Bytes
decode_from n String.[] = some []
decode_from n (String.◌∷◌ c s) =
    let here = onto n (decode_from 0 s) in
    let further = decode_from (suc n) s in if code c == b'b' then here else further

abbrev mac : Bytes
mac =
    0 ∷ 1 ∷ 2 ∷ 3 ∷ 4 ∷ 5 ∷ 6 ∷ 7 ∷ 0 ∷ 1 ∷ 2 ∷ 3 ∷ 4 ∷ 5 ∷ 6 ∷ 7 ∷ 0 ∷ 1 ∷ 2 ∷ 3 ∷ 4 ∷ 5 ∷ 6 ∷ 7
    ∷ 0 ∷ 1 ∷ 2 ∷ 3 ∷ 4 ∷ 5 ∷ 6 ∷ 7 ∷ []

abbrev pub calls : Calls
calls = record {
  Env = ℕ;
  parse_url = parse_url;
  unescape = ok;
  to_lower = lower;
  split_host = λ s. none;
  decode_base64 = some;
  bcrypt = λ p env. (ok p, env);
  File = String × String;
  new_from_reader = λ line. elim (cut b':' line) [ none ↦ err "bad line" | some f ↦ ok f ];
  match = λ f u p. str_eq f.0 u && str_eq f.1 p;
  Matcher = Unit {0};
  default_systems = [];
  matches_password = λ m p. false;
  Handle = Unit {0};
  open_file = λ f env. (err "no file", env);
  mod_time = λ h env. (ok (pos 0), env);
  read_all = λ h env. (ok "", env);
  close_file = λ h env. env;
  scan_lines = λ h env. (([], none), env);
  trim_space = λ b. b;
  getenv = λ s env. "";
  decode_hex = λ s. ok (1 ∷ []);
  now = λ env. (pos 1000000000, env);
  parse_duration = λ s. ok (pos 60000000000);
  go_reload_loop = λ i env. env;
  decode_raw_url = decode_from 0;
  encode_raw_url = encode;
  hmac_sha256 = λ k m. mac;
  bytes = λ s. [];
  text_of = λ b. "";
  Client = Unit {0};
  new_client = λ s. err "no server";
  new_cluster_client = λ s. err "no server";
  redis_get = λ c k env. (err "no server", env);
  redis_close = λ c env. (ok tt, env);
  append_error = λ e x. x;
  ReverseProxy = Unit {0};
  new_reverse_proxy = λ u b s. tt;
  serve_http = λ p req wr env. (http_error "no" 502 wr, env);
  quoted = λ s. s;
  parse_bool = λ s. false;
}

parse_url-static :
    (q : String) → parse_url ("static://?username=" ++ q) ≡ ok (url_of "static" ("username=" ++ q))
unfolding parse_url lacks
parse_url-static q =
    let shape : "static://?username=" ++ q ≡ "static://" ++ "?" ++ ("username=" ++ q) =
      append_assoc "static://?" "username=" q ∙ append_assoc "static://" "?" ("username=" ++ q) in
    ap parse_url shape
    ∙ ground (arith, cut-append (char b'?' tt) "static://" ("username=" ++ q) refl)

pub static_laws : StaticLaws calls
unfolding lower url_of
static_laws = record {
  parse_static = λ user password p q. parse_url-static (user ++ "&password=" ++ password);
  unescape_plain = λ s p. refl;
  lower_static = refl;
  lower_nothing = refl;
  compare = str_eq;
  compare-bcrypt = λ password hash env env' e. ground (arith, e, eq_iff hash password);
  htpasswd_line = λ user password hash env env' p n e. (
    (user, hash),
    ground (arith, cut-append (char b':' tt) user hash (plain-lacks b':' user refl p)),
    λ u v. ground (arith, e),
  );
}

abbrev query_size : Result Url → ℕ
query_size (ok u) = size u.raw_query
query_size (err e) = 0

parse_url-size : (s : String) (u : Url) → parse_url s ≡ ok u → size u.raw_query ≤ size s
unfolding parse_url url_of size
parse_url-size s u e = elim (Option-cases (cut b'?' s)) [
  | inl n ↦
      let none_left : query_size (parse_url s) ≡ 0 = rw (n, parse_url) refl in
      omega (arith, ap query_size e, none_left)
  | inr ((a, b), n) ↦
      let left : query_size (parse_url s) ≡ size b = rw (n, parse_url) refl in
      omega (arith, ap query_size e, left, cut-size b'?' s a b n)
]

pub size_laws : SizeLaws calls
size_laws = record {
  parse_url_size = parse_url-size;
  unescape_size = λ s t e. ground (arith, e, ap size);
}

decode-unary : (b n : ℕ) (s : String) → decode_from n (unary b s) ≡ onto (n + b) (decode_from 0 s)
unfolding decode_from unary
decode-unary zero n s = ap (λ k. onto k (decode_from 0 s)) (omega arith)
decode-unary (suc b) n s =
    decode-unary b (suc n) s ∙ ap (λ k. onto k (decode_from 0 s)) (omega arith)

decode-encode : (bs : Bytes) → decode_from 0 (encode bs) ≡ some bs
unfolding encode decode_from
decode-encode [] = refl
decode-encode (b ∷ bs) =
    decode-unary b 0 (encode bs)
    ∙ ap (λ k. onto k (decode_from 0 (encode bs))) (omega arith)
    ∙ ap (onto b) (decode-encode bs)

pub token_laws : TokenLaws calls
unfolding length
token_laws = record { decode-encode = decode-encode; mac-length = λ k m. refl }

-- the reverse proxy sends a status
pub serves :
    (p : Unit {0}) (req : Request) (wr : Writer) (env : ℕ)
    → is_sent (calls.serve_http p req wr env).0 ≡ true
serves p req wr env = http_error-sent "no" 502 wr
