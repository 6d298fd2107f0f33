-- ===== src/Guard/Query.antt =====
-- QueryEvents of guardedStore in guard.go: an iteration that holds the gate. The loop's body, `yield`,
-- sees and changes the gate too: it stands for the caller's code and for what other goroutines do
-- meanwhile.
use croissant.Base.{
  ℕ, Bool, true, false, Option, none, some, List, [], ◌∷◌, ◌≡◌, refl, arith, if◌then◌else◌,
}
use croissant.Nostr.{Event, Filter, EventStore}
use croissant.Guard.{StoreGate, enter, exit}

abbrev pub Yield : Type 0 → Type 0
Yield W = StoreGate → W → Event → StoreGate × W × Bool

abbrev pub exit_after : {W : Type 0} → StoreGate × W → Option (StoreGate × W)
exit_after (g, w) = elim (exit g) [ none ↦ none | some g' ↦ some (g', w) ]

open_enters : (gate : StoreGate) → gate.closed ≡ false → (enter gate).1 ≡ true
unfolding enter
open_enters gate h = ground arith

enter-sealed : (gate : StoreGate) → gate.sealed ≡ false → (enter gate).0.sealed ≡ false
unfolding enter
enter-sealed gate h = ground arith

module _ {W : Type 0} (yield : Yield W) where
  -- for evt := range s.inner.QueryEvents(filter, maxLimit)
  query_loop : List Event → StoreGate → W → StoreGate × W
  query_loop [] g w = (g, w)
  query_loop (evt ∷ evts) g w =
      let (g', w', more) = yield g w evt in
      let rest = query_loop evts g' w' in
      if g.sealed then (g, w) else if more then rest else (g', w')

  pub query_events :
      {Db E : Type 0} → EventStore Db E → Db → Filter → ℕ → StoreGate → W → Option (StoreGate × W)
  unfolding query_loop
  query_events inner db filter max_limit gate w =
      let (g, entered) = enter gate in
      let after = query_loop (inner.query_events db filter max_limit) g w in
      if entered then exit_after after else some (gate, w)

  -- The same loop with no gate, over a body that leaves the gate `g` alone.
  pub range_over : StoreGate → List Event → W → W
  range_over g [] w = w
  range_over g (evt ∷ evts) w =
      let (_, w', more) = yield g w evt in
      let rest = range_over g evts w' in if more then rest else w'

  sealed_stops :
      (evts : List Event) (g : StoreGate) (w : W) → g.sealed ≡ true → query_loop evts g w ≡ (g, w)
  unfolding query_loop
  sealed_stops [] g w h = refl
  sealed_stops (evt ∷ evts) g w h = rw h

  -- Once the body has seen the gate sealed, the loop calls it no more, whatever is left to yield.
  seals :
      (evt : Event) (evts : List Event) (g : StoreGate) (w : W)
      → g.sealed ≡ false
      → (yield g w evt).0.sealed ≡ true
      → query_loop (evt ∷ evts) g w ≡ ((yield g w evt).0, (yield g w evt).1)
  unfolding query_loop
  seals evt evts g w h s = ground (arith, sealed_stops evts (yield g w evt).0 (yield g w evt).1)

  loop-range_over :
      (evts : List Event) (g : StoreGate) (w : W)
      → g.sealed ≡ false
      → ((w : W) (evt : Event) → (yield g w evt).0 ≡ g)
      → query_loop evts g w ≡ (g, range_over g evts w)
  unfolding query_loop range_over
  loop-range_over [] g w h keep = refl
  loop-range_over (evt ∷ evts) g w h keep =
      ground (arith, keep w evt, loop-range_over evts g (yield g w evt).1 h keep)

  module _ {Db E : Type 0} (inner : EventStore Db E) (db : Db) (filter : Filter)
      (max_limit : ℕ) where
    -- With the gate closed, QueryEvents yields nothing and holds nothing. With the gate open, and a
    -- body that leaves it as it finds it, the body runs on the same events of the wrapped store as
    -- it would without the gate, to its own stop or to the end, and the gate is afterwards as before.
    pub guarded_query :
        (gate : StoreGate) (w : W)
        → gate.sealed ≡ gate.closed
        → ((w : W) (evt : Event) → (yield (enter gate).0 w evt).0 ≡ (enter gate).0)
        → (gate.closed ≡ true → query_events inner db filter max_limit gate w ≡ some (gate, w))
          × (gate.closed ≡ false
              → query_events inner db filter max_limit gate w
                ≡ some (gate, range_over (enter gate).0 (inner.query_events db filter max_limit) w))
    unfolding query_events enter exit
    guarded_query gate w mirrored keep = (
      λ c. ground arith,
      λ o. ground (
        arith,
        loop-range_over (inner.query_events db filter max_limit) (enter gate).0 w (ground arith)
            keep,
      ),
    )

    -- A Close that begins while the body runs on an event ends the iteration there: whatever events
    -- the wrapped store still had, the query returns the state that this call of the body left,
    -- and has left the gate.
    pub query_stops_when_sealed :
        (gate : StoreGate) (w : W) (evt : Event) (evts : List Event)
        → gate.sealed ≡ false
        → gate.closed ≡ false
        → inner.query_events db filter max_limit ≡ evt ∷ evts
        → (yield (enter gate).0 w evt).0.sealed ≡ true
        → query_events inner db filter max_limit gate w
          ≡ exit_after ((yield (enter gate).0 w evt).0, (yield (enter gate).0 w evt).1)
    unfolding query_events
    query_stops_when_sealed gate w evt evts un op e s =
        rw (e, open_enters gate op, seals evt evts (enter gate).0 w (enter-sealed gate un) s)
