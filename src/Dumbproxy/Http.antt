-- ===== src/Dumbproxy/Http.antt =====
-- What the proxy reads of a request, and the response that a handler writes (net/http).
pub mod Laws
use Prim.Native.String.{◌++◌, len}
use go_forward_proxy.Base.{ℕ, String, Option, none, some, List, [], ◌∷◌, str_eq, if◌then◌else◌}
use go_forward_proxy.Base.Int.{ℤ}
use go_forward_proxy.Base.Decimal.{format_nat}
use mathlib.Core.List.{◌++◌ as ◌+++◌}

-- `http.Header`: canonical names with their values.
abbrev pub Header : Type 0
Header = List (String × List String)

-- `h[k]`; a missing key has no values
unfoldable pub values : String → Header → List String
values k [] = []
values k ((j, vs) ∷ h) = if str_eq j k then vs else values k h

abbrev first : List String → String
first [] = ""
first (v ∷ vs) = v

-- `h.Get(k)`
unfoldable pub get_header : String → Header → String
get_header k h = first (values k h)

-- `delete(h, k)`, and `h.Del(k)`
unfoldable pub del_header : String → Header → Header
del_header k [] = []
del_header k ((j, vs) ∷ h) =
    let rest = del_header k h in if str_eq j k then rest else (j, vs) ∷ rest

-- `h[k] = vs`
unfoldable pub put_header : String → List String → Header → Header
put_header k vs h = (k, vs) ∷ del_header k h

-- `h.Set(k, v)`
abbrev pub set_header : String → String → Header → Header
set_header k v h = put_header k (v ∷ []) h

-- `h.Add(k, v)`
unfoldable pub add_header : String → String → Header → Header
add_header k v h = put_header k (values k h +++ (v ∷ [])) h

-- The certificate at the head of the first verified chain.
pub record Cert : Type 0 where
  pub subject : String
  pub serial : ℤ

pub record Request : Type 0 where
  pub method : String
  pub url_scheme : String
  pub url_host : String
  pub url_path : String
  pub host : String
  pub request_uri : String
  pub proto_major : ℕ
  pub proto_minor : ℕ
  pub remote_addr : String
  pub header : Header
  pub peer_cert : Option Cert

-- `http.ResponseWriter`: the header as it stands, the status once it is sent, and what was written.
pub record Writer : Type 0 where
  pub header : Header
  pub status : Option ℕ
  pub body : String

abbrev pub on_header : (Header → Header) → Writer → Writer
on_header f wr = record wr { header = f wr.header }

-- `WriteHeader(code)`: only the first call has an effect.
unfoldable pub write_header : ℕ → Writer → Writer
write_header code wr = elim wr.status [ none ↦ record wr { status = some code } | some sent ↦ wr ]

-- `Write([]byte(text))`: the status is 200 where none was sent.
unfoldable pub write_body : String → Writer → Writer
unfolding write_header
write_body text wr = let wr' = write_header 200 wr in record wr' { body = wr'.body ++ text }

-- `http.Error(wr, message, code)`
unfoldable pub http_error : String → ℕ → Writer → Writer
unfolding write_header write_body
http_error message code wr = write_body (message ++ "\n") (
    write_header code (
      on_header
        (λ h.
          set_header "X-Content-Type-Options" "nosniff"
            (set_header "Content-Type" "text/plain; charset=utf-8" (del_header "Content-Length" h)))
        wr))

-- `strconv.Itoa(len([]byte(text)))`
abbrev pub byte_count : String → String
byte_count text = format_nat (len text)
