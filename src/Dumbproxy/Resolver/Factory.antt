-- ===== src/Dumbproxy/Resolver/Factory.antt =====
-- resolver/factory.go: the resolver that a URL names.
use Prim.Native.String.{◌++◌}
use go_forward_proxy.Base.{
  ℕ, zero, suc, String, ◌≡◌, refl, Bool, false, ◌||◌, Option, none, some, List, [], ◌∷◌, ◌⊎◌,
  str_eq, arith, inl, inr, Bool-cases, if◌then◌else◌,
}
use go_forward_proxy.Base.Decimal.{format_nat}
use go_forward_proxy.Base.Result.{Result, ok, err}

-- What `FromURL` makes: a resolver over UDP or TCP at an address, over HTTPS at a URL and an address,
-- over TLS at an address, or the one of the system. The packages net and go-dns implement them.
pub data Kind : Type 0 where
  plain : String → Kind
  over_tcp : String → Kind
  over_https : String → String → Kind
  over_tls : String → Kind
  system : Kind

-- `url.URL`, as far as it is read
pub record ResolverUrl : Type 0 where
  pub scheme : String
  pub hostname : String
  pub port : String

-- The calls: `url.Parse`, `URL.String()` with another scheme, texts, and what go-dns says of a
-- resolver over HTTPS or TLS.
pub record FactoryNet : Type 0 where
  pub parse : String → Result ResolverUrl
  pub with_scheme : String → String → String
  pub to_lower : String → String
  pub join_host_port : String → String → String
  pub starts_with_slashes : String → Bool
  pub new_doh : String → String → Result (Unit {0})
  pub new_dot : String → Result (Unit {0})
  pub quoted : String → String

module _ (net : FactoryNet) where
  abbrev or_port : String → String → String
  or_port port default_port = if str_eq port "" then default_port else port

  doh : String → String → Result Kind
  doh u address = elim (net.new_doh u address) [
    | err e ↦ err e
    | ok done ↦ ok (over_https u address)
  ]

  dot : String → Result Kind
  dot address = elim (net.new_dot address) [ err e ↦ err e | ok done ↦ ok (over_tls address) ]

  -- the cases of the `switch` but for an empty scheme
  unfoldable pub of_scheme : String → ResolverUrl → String → Result Kind
  unfolding doh dot
  of_scheme u parsed scheme =
      let address = λ (p : String). net.join_host_port parsed.hostname (or_port parsed.port p) in
      if str_eq scheme "udp" || str_eq scheme "dns"
      then ok (plain (address "53"))
      else if str_eq scheme "tcp"
      then ok (over_tcp (address "53"))
      else if str_eq scheme "http"
      then doh u (address "80")
      else if str_eq scheme "https"
      then doh u (address "443")
      else if str_eq scheme "doh"
      then doh (net.with_scheme "https" u) (address "443")
      else if str_eq scheme "tls" || str_eq scheme "dot"
      then dot (address "853")
      else if str_eq scheme "default"
      then ok system
      else err "not implemented"

  -- the URL for the next round
  abbrev with_dns : String → String
  with_dns u = if net.starts_with_slashes u then "dns:" ++ u else "dns://" ++ u

  -- a round of the `goto`, by what `url.Parse` gives; `next` is the next round
  unfoldable pub from_parsed :
      (next : String → Option (Result Kind)) → String → Result ResolverUrl → Option (Result Kind)
  from_parsed next u (err e) = some (err e)
  from_parsed next u (ok parsed) =
      let again = next (with_dns u) in
      let scheme = net.to_lower parsed.scheme in
      if str_eq scheme "" then again else some (of_scheme u parsed scheme)

  -- `FromURL`, with so many rounds at most
  unfoldable pub from_url : ℕ → String → Option (Result Kind)
  from_url zero u = none
  from_url (suc n) u = from_parsed (from_url n) u (net.parse u)

  onto_made : Kind → Result (List Kind) → Result (List Kind)
  onto_made k (err e) = err e
  onto_made k (ok ks) = ok (k ∷ ks)

  -- the loop of `FastFromURLs`, from an index on, with two rounds for each URL
  unfoldable pub from_each : ℕ → List String → Result (List Kind)
  unfolding onto_made
  from_each i [] = ok []
  from_each i (u ∷ us) =
      let rest = from_each (suc i) us in
      elim (from_url 2 u) [
        | none ↦ err "unreachable"
        | some (err e) ↦
            err (
              "unable to construct resolver #"
              ++ format_nat i
              ++ " ("
              ++ net.quoted u
              ++ "): "
              ++ e)
        | some (ok k) ↦ onto_made k rest
      ]

  -- `FastFromURLs`: one resolver as it is, or a `FastResolver` of others than one
  unfoldable pub fast_from_urls : List String → Result (Kind ⊎ List Kind)
  fast_from_urls us = elim (from_each 0 us) [
    | err e ↦ err e
    | ok (k ∷ []) ↦ ok (inl k)
    | ok ks ↦ ok (inr ks)
  ]

  -- What net/url and strings promise: a URL that was given a scheme has it.
  pub record SchemeLaws : Type 0 where
    pub parse_dns :
        (u : String) (parsed : ResolverUrl)
        → net.parse (with_dns u) ≡ ok parsed
        → str_eq (net.to_lower parsed.scheme) "" ≡ false

  second :
      SchemeLaws
      → (n : ℕ) (u : String) (r : Result ResolverUrl) → net.parse (with_dns u) ≡ r
      → (k : Result Kind) × (from_parsed (from_url n) (with_dns u) r ≡ some k)
  unfolding from_parsed
  second laws n u (err e) h = (err e, refl)
  second laws n u (ok parsed) h = (
    of_scheme (with_dns u) parsed (net.to_lower parsed.scheme),
    ground (arith, laws.parse_dns u parsed h),
  )

  first :
      SchemeLaws
      → (n : ℕ) (u : String) (r : Result ResolverUrl)
      → (k : Result Kind) × (from_parsed (from_url (suc n)) u r ≡ some k)
  unfolding from_parsed from_url
  first laws n u (err e) = (err e, refl)
  first laws n u (ok parsed) = elim (Bool-cases (str_eq (net.to_lower parsed.scheme) "")) [
    | inr e ↦ (of_scheme u parsed (net.to_lower parsed.scheme), ground (arith, e))
    | inl e ↦
        let (k, f) = second laws n u (net.parse (with_dns u)) refl in (k, ground (arith, e, f))
  ]

  -- `FromURL`, which goes back to its beginning with another text where a text has no scheme, comes
  -- to its end in two rounds, whatever the text is.
  pub from_url-ends :
      SchemeLaws → (n : ℕ) (u : String) → (k : Result Kind) × (from_url (suc (suc n)) u ≡ some k)
  unfolding from_url
  from_url-ends laws n u = first laws n u (net.parse u)
