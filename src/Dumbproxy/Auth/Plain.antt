-- ===== src/Dumbproxy/Auth/Plain.antt =====
-- Texts that stand in a URL as they are, and the query that names two of them.
use Prim.Native.Char.{Char, char, code}
use Prim.Native.String.{◌++◌}
use text.Mathlib.TextLemmas.{nil-append, cons-append, append_assoc}
use go_forward_proxy.Base.{
  ℕ, String, ◌≡◌, ◌≢◌, refl, sym, ap, ◌∙◌, Bool, true, false, ◌&&◌, ◌||◌, none, some, List, [], ◌∷◌,
  leb, ◌==◌, str_eq, eq_iff, arith, inl, inr, Bool-cases,
}
use go_forward_proxy.Base.Text.{lacks, cut}
use go_forward_proxy.Base.Text.Split.{split-append, split-lacks, one, cut-append}
use mathlib.Core.List.{◌++◌ as ◌+++◌}
use go_forward_proxy.Base.Result.{ok}
use go_forward_proxy.Dumbproxy.Query.{Values, parse_pieces, parse_query}
use go_forward_proxy.Dumbproxy.Calls.{Calls}

-- A letter, a digit, "-", "_" or ".".
abbrev pub plain_code : ℕ → Bool
plain_code b =
    (leb b'a' b && leb b b'z')
    || (leb b'A' b && leb b b'Z')
    || (leb b'0' b && leb b b'9')
    || b == b'-'
    || b == b'_'
    || b == b'.'

unfoldable pub is_plain : String → Bool
is_plain String.[] = true
is_plain (String.◌∷◌ x s) = plain_code (code x) && is_plain s

-- What the packages do with plain texts.
pub record StaticLaws (c : Calls) : Type 0 where
  pub parse_static :
      (user password : String)
      → is_plain user ≡ true
      → is_plain password ≡ true
      → c.parse_url ("static://?username=" ++ user ++ "&password=" ++ password)
        ≡ ok (record {
          scheme = "static";
          user = "";
          host = "";
          path = "";
          raw_path = "";
          raw_query = "username=" ++ user ++ "&password=" ++ password;
        })
  pub unescape_plain : (s : String) → is_plain s ≡ true → c.unescape s ≡ ok s
  pub lower_static : c.to_lower "static" ≡ "static"
  pub lower_nothing : c.to_lower "" ≡ ""
  -- `bcrypt.CompareHashAndPassword(hash, password)` gives no error, as for the password that the
  -- hash was made of; which other texts it takes is left open
  pub compare : String → String → Bool
  pub compare-bcrypt :
      (password hash : String) (env env' : c.Env)
      → c.bcrypt password env ≡ (ok hash, env')
      → compare hash password ≡ true
  -- a line of a plain name and a hash that bcrypt made of a password
  pub htpasswd_line :
      (user password hash : String) (env env' : c.Env)
      → is_plain user ≡ true
      → user ≢ ""
      → c.bcrypt password env ≡ (ok hash, env')
      → (f : c.File) × (c.new_from_reader (user ++ ":" ++ hash) ≡ ok f)
        × ((u p : String) → c.match f u p ≡ (str_eq user u && compare hash p))

pub plain-lacks :
    (sep : ℕ) (s : String) → plain_code sep ≡ false → is_plain s ≡ true → lacks sep s ≡ true
unfolding is_plain lacks
plain-lacks sep String.[] n h = refl
plain-lacks sep (String.◌∷◌ x s) n h = ground (arith, plain-lacks sep s n, ap plain_code)

lacks-append : (sep : ℕ) (s t : String) → lacks sep (s ++ t) ≡ (lacks sep s && lacks sep t)
unfolding lacks
lacks-append sep String.[] t = rw (nil-append t) refl
lacks-append sep (String.◌∷◌ x s) t = rw (cons-append x s t) (ground (arith, lacks-append sep s t))

abbrev equals_sign : Char
equals_sign = char b'=' tt

abbrev ampersand : Char
ampersand = char b'&' tt

pair-lacks :
    (sep : ℕ) (k v : String)
    → plain_code sep ≡ false
    → (sep == b'=') ≡ false
    → is_plain k ≡ true
    → is_plain v ≡ true
    → lacks sep (k ++ one equals_sign ++ v) ≡ true
unfolding lacks
pair-lacks sep k v n e p q = ground (
  arith,
  lacks-append sep k (one equals_sign ++ v),
  lacks-append sep (one equals_sign) v,
  plain-lacks sep k n p,
  plain-lacks sep v n q,
)

pair-cut : (k v : String) → is_plain k ≡ true → cut b'=' (k ++ one equals_sign ++ v) ≡ some (k, v)
pair-cut k v p = cut-append equals_sign k v (plain-lacks b'=' k refl p)

pair-not_empty : (k v : String) → is_plain k ≡ true → str_eq (k ++ one equals_sign ++ v) "" ≡ false
unfolding cut
pair-not_empty k v p = elim (Bool-cases (str_eq (k ++ one equals_sign ++ v) "")) [
  | inl e ↦ absurd (
      ground (
        arith,
        eq_iff (k ++ one equals_sign ++ v) "",
        λ (x : k ++ one equals_sign ++ v ≡ ""). sym (pair-cut k v p) ∙ ap (cut b'=') x,
      ))
  | inr e ↦ e
]

module _ {c : Calls} (laws : StaticLaws c) where
  parse_pieces-pair :
      (k v : String) (pieces : List String) (vs : Values)
      → is_plain k ≡ true
      → is_plain v ≡ true
      → parse_pieces c.unescape ((k ++ one equals_sign ++ v) ∷ pieces) none vs
        ≡ parse_pieces c.unescape pieces none (vs +++ ((k, v) ∷ []))
  unfolding parse_pieces
  parse_pieces-pair k v pieces vs p q = ground (
    arith,
    pair-lacks b';' k v refl refl p q,
    pair-not_empty k v p,
    pair-cut k v p,
    laws.unescape_plain k p,
    laws.unescape_plain v q,
  )

  -- the query that names two credentials
  parse_query-two :
      (k v k' v' : String)
      → is_plain k ≡ true
      → is_plain v ≡ true
      → is_plain k' ≡ true
      → is_plain v' ≡ true
      → parse_query c.unescape
          ((k ++ one equals_sign ++ v) ++ one ampersand ++ (k' ++ one equals_sign ++ v'))
        ≡ ok ((k, v) ∷ (k', v') ∷ [])
  unfolding parse_query parse_pieces
  parse_query-two k v k' v' p q p' q' =
      ap (λ ps. parse_pieces c.unescape ps none [])
        (split-append ampersand (k ++ one equals_sign ++ v) (k' ++ one equals_sign ++ v')
            (pair-lacks b'&' k v refl refl p q)
          ∙ ap (◌∷◌ (k ++ one equals_sign ++ v)) (
              split-lacks b'&' (k' ++ one equals_sign ++ v')
                (pair-lacks b'&' k' v' refl refl p' q')))
      ∙ parse_pieces-pair k v ((k' ++ one equals_sign ++ v') ∷ []) [] p q
      ∙ parse_pieces-pair k' v' [] ((k, v) ∷ []) p' q'

  query_form :
      (user password : String)
      → "username=" ++ user ++ "&password=" ++ password
        ≡ ("username" ++ one equals_sign ++ user)
          ++ one ampersand
          ++ ("password" ++ one equals_sign ++ password)
  query_form user password =
      sym (append_assoc "username=" user ("&password=" ++ password))
      ∙ ap (λ t. t ++ ("&password=" ++ password)) (append_assoc "username" "=" user)
      ∙ ap (λ t. ("username" ++ "=" ++ user) ++ t)
          (append_assoc "&" "password=" password
            ∙ ap (λ t. "&" ++ t) (append_assoc "password" "=" password))

  pub parse_query-form :
      (user password : String)
      → is_plain user ≡ true
      → is_plain password ≡ true
      → parse_query c.unescape ("username=" ++ user ++ "&password=" ++ password)
        ≡ ok (("username", user) ∷ ("password", password) ∷ [])
  unfolding is_plain
  parse_query-form user password p q =
      ap (parse_query c.unescape) (query_form user password)
      ∙ parse_query-two "username" user "password" password refl p refl q
