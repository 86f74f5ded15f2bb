-- ===== src/Dumbproxy/Forward.antt =====
-- pkg/dumbproxy/forward/direct.go: a tunnel between two ends, as the events that its loop receives.
pub mod Limit
use go_forward_proxy.Base.{
  String, ◌≡◌, refl, Bool, true, false, not, ◌||◌, Option, none, some, List, [], ◌∷◌, arith,
  if◌then◌else◌,
}

-- `copyAndCloseWrite`, by what the copy to the end, `CloseWrite` where the end has it, and `Close` do
unfoldable pub copy_and_close_write :
    {E : Type 0}
    → (copy : E → Option String × E) (close_write : Option (E → E)) (close : E → E) → E
    → Option String × E
copy_and_close_write copy close_write close env =
    let (e, env') = copy env in elim close_write [ some f ↦ (e, f env') | none ↦ (e, close env') ]

-- What the loop of `PairConnections` may receive: the result of a copy, from the client or to it,
-- and the end of the context.
pub data Event : Type 0 where
  i2o_done : Option String → Event
  o2i_done : Option String → Event
  cancelled : String → Event

-- The channels that are not yet nil, the error so far, and whether the ends were closed.
pub record Pair : Type 0 where
  pub i2o_open : Bool
  pub o2i_open : Bool
  pub ctx_open : Bool
  pub failure : Option String
  pub closed : Bool

abbrev pub paired : Pair
paired = record {
  i2o_open = true;
  o2i_open = true;
  ctx_open = true;
  failure = none;
  closed = false;
}

abbrev pub keep : Option String → Option String → Option String
keep none e = e
keep (some x) e = some x

-- The `select`: nothing is received from a channel that is nil.
unfoldable pub select : Event → Pair → Pair
select (i2o_done e) p =
    if p.i2o_open then record p { i2o_open = false; failure = keep p.failure e } else p
select (o2i_done e) p =
    if p.o2i_open then record p { o2i_open = false; failure = keep p.failure e } else p
select (cancelled e) p =
    if p.ctx_open
    then record p { ctx_open = false; failure = keep p.failure (some e); closed = true }
    else p

-- The loop, as far as the events go.
unfoldable pub pair_connections : Pair → List Event → Pair
pair_connections p [] = p
pair_connections p (e ∷ es) =
    let rest = pair_connections (select e p) es in if p.i2o_open || p.o2i_open then rest else p

abbrev pub is_over : Pair → Bool
is_over p = not (p.i2o_open || p.o2i_open)

abbrev pub is_i2o : Event → Bool
is_i2o (i2o_done e) = true
is_i2o (o2i_done e) = false
is_i2o (cancelled e) = false

abbrev pub is_o2i : Event → Bool
is_o2i (i2o_done e) = false
is_o2i (o2i_done e) = true
is_o2i (cancelled e) = false

unfoldable pub some_event : (Event → Bool) → List Event → Bool
some_event test [] = false
some_event test (e ∷ es) = test e || some_event test es

over-general :
    (p : Pair) (es : List Event)
    → (not p.i2o_open || some_event is_i2o es) ≡ true
    → (not p.o2i_open || some_event is_o2i es) ≡ true
    → is_over (pair_connections p es) ≡ true
unfolding pair_connections some_event select
over-general p [] h k = ground (arith, h, k)
over-general p (i2o_done e ∷ es) h k = ground (arith, h, k, over-general (select (i2o_done e) p) es)
over-general p (o2i_done e ∷ es) h k = ground (arith, h, k, over-general (select (o2i_done e) p) es)
over-general p (cancelled e ∷ es) h k =
    ground (arith, h, k, over-general (select (cancelled e) p) es)

-- Whatever else it receives, and in whatever order, the loop of `PairConnections` is over once each
-- of the two copies has sent its result.
pub pair_connections-over :
    (es : List Event)
    → some_event is_i2o es ≡ true
    → some_event is_o2i es ≡ true
    → is_over (pair_connections paired es) ≡ true
pair_connections-over es h k = over-general paired es h k

abbrev pub is_i2o_success : Event → Bool
is_i2o_success (i2o_done none) = true
is_i2o_success (i2o_done (some e)) = false
is_i2o_success (o2i_done e) = false
is_i2o_success (cancelled e) = false

abbrev pub is_o2i_success : Event → Bool
is_o2i_success (o2i_done none) = true
is_o2i_success (o2i_done (some e)) = false
is_o2i_success (i2o_done e) = false
is_o2i_success (cancelled e) = false

abbrev pub has_failed : Pair → Bool
has_failed p = elim p.failure [ none ↦ false | some e ↦ true ]

failure-kept :
    (p : Pair) (es : List Event) → has_failed p ≡ true → has_failed (pair_connections p es) ≡ true
unfolding pair_connections select
failure-kept p [] h = h
failure-kept p (i2o_done e ∷ es) h = ground (arith, h, failure-kept (select (i2o_done e) p) es)
failure-kept p (o2i_done e ∷ es) h = ground (arith, h, failure-kept (select (o2i_done e) p) es)
failure-kept p (cancelled e ∷ es) h = ground (arith, h, failure-kept (select (cancelled e) p) es)

Succeeded : Pair → Pair → List Event → Type 0
Succeeded p q es =
    (q.closed ≡ p.closed)
    × ((not p.i2o_open || some_event is_i2o_success es) ≡ true)
    × ((not p.o2i_open || some_event is_o2i_success es) ≡ true)

Succeeded-general :
    (p : Pair) (es : List Event)
    → (p.ctx_open || p.closed) ≡ true
    → is_over (pair_connections p es) ≡ true
    → has_failed (pair_connections p es) ≡ false
    → Succeeded p (pair_connections p es) es
unfolding pair_connections select some_event Succeeded
Succeeded-general p [] c o f = ground (arith, o)
Succeeded-general p (i2o_done none ∷ es) c o f =
    ground (arith, o, f, c, Succeeded-general (select (i2o_done none) p) es)
Succeeded-general p (i2o_done (some x) ∷ es) c o f = ground (
  arith,
  o,
  f,
  c,
  Succeeded-general (select (i2o_done (some x)) p) es,
  failure-kept (select (i2o_done (some x)) p) es,
)
Succeeded-general p (o2i_done none ∷ es) c o f =
    ground (arith, o, f, c, Succeeded-general (select (o2i_done none) p) es)
Succeeded-general p (o2i_done (some x) ∷ es) c o f = ground (
  arith,
  o,
  f,
  c,
  Succeeded-general (select (o2i_done (some x)) p) es,
  failure-kept (select (o2i_done (some x)) p) es,
)
Succeeded-general p (cancelled x ∷ es) c o f = ground (
  arith,
  o,
  f,
  c,
  Succeeded-general (select (cancelled x) p) es,
  failure-kept (select (cancelled x) p) es,
)

-- `PairConnections` returns no error only where both copies came to their end without one, and then
-- it has not closed the ends itself.
pub pair_connections-success :
    (es : List Event)
    → let p = pair_connections paired es in
      is_over p ≡ true
      → has_failed p ≡ false
      → (p.closed ≡ false)
        × (some_event is_i2o_success es ≡ true)
        × (some_event is_o2i_success es ≡ true)
unfolding Succeeded
pair_connections-success es o f = Succeeded-general paired es refl o f
