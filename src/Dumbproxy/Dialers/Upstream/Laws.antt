-- ===== src/Dumbproxy/Dialers/Upstream/Laws.antt =====
-- What a dialer through an upstream does with its connection, reads of the answer, and sends.
use Prim.Native.Char.{char}
use Prim.Native.String.{◌++◌}
use text.Mathlib.TextLemmas.{append_assoc}
use go_forward_proxy.Base.{
  String, ◌≡◌, ◌≢◌, ◌⊎◌, refl, ap, ◌∙◌, true, false, none, some, List, ◌∷◌, str_eq, arith, inl, inr,
  Bool-cases,
}
use go_forward_proxy.Base.Bytes.{Bytes}
use go_forward_proxy.Base.Text.{lacks, cut}
use go_forward_proxy.Base.Text.Split.{cut-append}
use go_forward_proxy.Base.Result.{Result, ok, err}
use go_forward_proxy.Dumbproxy.Http.{Request, get_header}
use go_forward_proxy.Dumbproxy.Http.Laws.{str_eq-path}
use go_forward_proxy.Dumbproxy.Calls.{Calls}
use go_forward_proxy.Dumbproxy.Auth.Credentials.{basic_credentials}
use go_forward_proxy.Dumbproxy.Dialers.Upstream.{UpstreamNet, Dial, basic_auth_header}

module _ (net : UpstreamNet) where
  -- The connections that are closed when a dialer of one connection has come to a result: that one
  -- behind an error, by the dial, by its guard or by both, and none where it is handed on.
  abbrev pub Accounts : List net.Conn → net.Conn → Dial net → Type 0
  Accounts closed conn (none, s) = s.closed ≡ closed
  Accounts closed conn (some (err e), s) =
      (s.closed ≡ conn ∷ closed)
      ⊎ ((s.closed ≡ conn ∷ conn ∷ closed) × (net.guard_error s.env ≢ none))
  Accounts closed conn (some (ok (got, rest)), s) =
      (s.closed ≡ closed) × (got ≡ conn) × (net.guard_error s.env ≡ none)

-- What the packages for base64 and texts promise.
pub record BasicLaws (c : Calls) (net : UpstreamNet) : Type 0 where
  pub decode-encode : (s : String) → c.decode_base64 (net.encode_base64 s) ≡ some s
  pub lower_basic : c.to_lower "Basic" ≡ "basic"

cut-empty : (s : String) (parts : String × String) → str_eq s "" ≡ true → cut b' ' s ≢ some parts
unfolding cut
cut-empty s parts e h = ground (arith, ap (cut b' ') (str_eq-path s "" e), h)

-- The header that a dialer sends to an upstream holds, for the providers of this program, the name
-- and the password that the dialer was configured with, where the name has no colon.
pub basic_credentials-basic_auth_header :
    {c : Calls} {net : UpstreamNet} (laws : BasicLaws c net) (name password : String)
    (req : Request)
    → lacks b':' name ≡ true
    → get_header "Proxy-Authorization" req.header ≡ basic_auth_header net (name, password)
    → basic_credentials c req ≡ some (name, password)
unfolding basic_credentials basic_auth_header lacks
basic_credentials-basic_auth_header {c} {net} laws name password req l h =
    let token = net.encode_base64 (name ++ ":" ++ password) in
    let parts : cut b' ' ("Basic " ++ token) ≡ some ("Basic", token) =
      ap (cut b' ') (append_assoc "Basic" " " token)
      ∙ cut-append (char b' ' tt) "Basic" token refl in
    let some_header : str_eq ("Basic " ++ token) "" ≡ false =
      elim (Bool-cases (str_eq ("Basic " ++ token) "")) [
        | inr e ↦ e
        | inl e ↦ absurd (cut-empty ("Basic " ++ token) ("Basic", token) e parts)
      ] in
    ground (
      arith,
      h,
      parts,
      some_header,
      ap (λ t. str_eq t "basic") laws.lower_basic,
      laws.decode-encode (name ++ ":" ++ password),
      cut-append (char b':' tt) name password l,
    )
