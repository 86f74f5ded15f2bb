-- ===== src/Dumbproxy/Query.antt =====
-- net/url: `ParseQuery` and the methods of `Values`. `QueryUnescape` is a parameter.
use go_forward_proxy.Base.{
  String, Bool, not, ◌||◌, Option, none, some, List, [], ◌∷◌, false, str_eq, if◌then◌else◌,
}
use mathlib.Core.List.{◌++◌ as ◌+++◌}
use go_forward_proxy.Base.Text.{split, cut, lacks}
use go_forward_proxy.Base.Result.{Result, ok, err}

-- the pairs in the order of the query
abbrev pub Values : Type 0
Values = List (String × String)

-- `values.Get(k)`: the first value, or the empty text
unfoldable pub get : String → Values → String
get k [] = ""
get k ((j, v) ∷ vs) = let rest = get k vs in if str_eq j k then v else rest

-- `values.Has(k)`
unfoldable pub has : String → Values → Bool
has k [] = false
has k ((j, v) ∷ vs) = str_eq j k || has k vs

-- `values[k]`: all of them
unfoldable pub values_of : String → Values → List String
values_of k [] = []
values_of k ((j, v) ∷ vs) = let rest = values_of k vs in if str_eq j k then v ∷ rest else rest

-- the first error is kept
abbrev pub keep_first : Option String → String → Option String
keep_first none e = some e
keep_first (some e₀) e = some e₀

abbrev pub done : Option String → Values → Result Values
done none vs = ok vs
done (some e) vs = err e

-- the two sides of a piece; without "=" the value is empty
abbrev pub sides : String → String × String
sides piece = elim (cut b'=' piece) [ none ↦ (piece, "") | some kv ↦ kv ]

module _ (unescape : String → Result String) where
  -- the loop, with the error and the values so far
  unfoldable pub parse_pieces : List String → Option String → Values → Result Values
  parse_pieces [] e vs = done e vs
  parse_pieces (piece ∷ pieces) e vs =
      let skipped = parse_pieces pieces e vs in
      let refused = parse_pieces pieces (some "invalid semicolon separator in query") vs in
      let bad = λ (x : String). parse_pieces pieces (keep_first e x) vs in
      let good = λ (k v : String). parse_pieces pieces e (vs +++ ((k, v) ∷ [])) in
      let (key, value) = sides piece in
      if not (lacks b';' piece)
      then refused
      else if str_eq piece ""
      then skipped
      else elim (unescape key) [
        | err x ↦ bad x
        | ok k ↦ elim (unescape value) [ err x ↦ bad x | ok v ↦ good k v ]
      ]

  unfoldable pub parse_query : String → Result Values
  unfolding parse_pieces
  parse_query query = parse_pieces (split b'&' query) none []
