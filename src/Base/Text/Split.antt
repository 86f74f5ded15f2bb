-- ===== src/Base/Text/Split.antt =====
-- `strings.Split` against concatenation: parts without the separator come back.
use Prim.Native.Char.{Char, code}
use Prim.Native.String.{◌++◌}
use text.Mathlib.TextLemmas.{append-nil, nil-append, cons-append, append_assoc}
use go_forward_proxy.Base.{ℕ, String, ◌≡◌, refl, ap, sym, ◌∙◌, true, some, List, [], ◌∷◌, arith}
use mathlib.Core.List.{◌++◌ as ◌+++◌}
use go_forward_proxy.Base.Text.{split, lacks, cut, join}

pub split-lacks : (sep : ℕ) (s : String) → lacks sep s ≡ true → split sep s ≡ s ∷ []
unfolding split lacks
split-lacks sep String.[] h = refl
split-lacks sep (String.◌∷◌ c s) h = ground (arith, split-lacks sep s)

-- a text of one character
abbrev pub one : Char → String
one d = String.◌∷◌ d ""

pub one-append : (d : Char) (t : String) → one d ++ t ≡ String.◌∷◌ d t
one-append d t = cons-append d "" t ∙ ap (String.◌∷◌ d) (nil-append t)

-- The part in front of the first separator, and the parts of the rest.
pub split-append :
    (d : Char) (p t : String)
    → lacks (code d) p ≡ true
    → split (code d) (p ++ one d ++ t) ≡ p ∷ split (code d) t
unfolding split lacks
split-append d String.[] t h = rw (nil-append (one d ++ t)) (rw (one-append d t) (ground arith))
split-append d (String.◌∷◌ c s) t h =
    rw (cons-append c s (one d ++ t)) (ground (arith, split-append d s t))

abbrev pub AllLack : ℕ → List String → Type 0
AllLack sep [] = Unit
AllLack sep (p ∷ ps) = (lacks sep p ≡ true) × AllLack sep ps

-- Lines that are joined, with a separator at the end, are the parts in front of an empty one.
pub split-join :
    (d : Char) (p : String) (ps : List String)
    → AllLack (code d) (p ∷ ps)
    → split (code d) (join (one d) (p ∷ ps) ++ one d) ≡ (p ∷ ps) +++ ("" ∷ [])
unfolding join split
split-join d p [] h =
    ap (λ t. split (code d) (p ++ t)) (sym (append-nil (one d))) ∙ split-append d p "" (h.0)
split-join d p (q ∷ ps) h =
    let rest = join (one d) (q ∷ ps) in
    rw (append_assoc p (one d ++ rest) (one d), append_assoc (one d) rest (one d))
      (split-append d p (rest ++ one d) (h.0) ∙ ap (◌∷◌ p) (split-join d q ps (h.1)))

-- `strings.Cut` at the first separator
pub cut-append :
    (d : Char) (s t : String)
    → lacks (code d) s ≡ true
    → cut (code d) (s ++ one d ++ t) ≡ some (s, t)
unfolding cut lacks
cut-append d String.[] t h = rw (nil-append (one d ++ t)) (rw (one-append d t) (ground arith))
cut-append d (String.◌∷◌ x s) t h =
    rw (cons-append x s (one d ++ t)) (ground (arith, cut-append d s t))
