-- ===== src/Tests/Gate.antt =====
-- Two goroutines at the store's gate.
use croissant.Base.{
  ℕ, suc, Bool, true, false, none, some, [], ◌∷◌, ◌≡◌, ◌≢◌, refl, get_elem?, nat_eq, ◌==◌,
}
use croissant.Nostr.{Event, empty_filter}
use croissant.Guard.{
  StoreGate, new_gate, enter, exit, begin_close, CloseReturns, drained_first, released,
}
use croissant.Guard.Schedule.{System, start, Reach, here, next, enters, leaves, closes, unmaps}
use croissant.Guard.Safety.{unmapped_untouched, exit_never_panics, close_can_finish}
use croissant.Guard.Query.{query_events, range_over, guarded_query}
use croissant.Tests.World.{memory, message}

-- The first of two goroutines is inside when the gate is closed.
abbrev busy : System
unfolding start new_gate enter begin_close
busy =
    let s = record (start 2) { gate = (enter new_gate).0; threads = 1 ∷ 0 ∷ [] } in
    record s { gate = begin_close s.gate }

busy-Reach : Reach (start 2) busy
unfolding start new_gate enter begin_close
busy-Reach =
    next (next here (enters (start 2) 0 refl refl))
      (closes (record (start 2) { gate = (enter new_gate).0; threads = 1 ∷ 0 ∷ [] }))

-- It has left, and the store is unmapped.
abbrev quiet : System
quiet = record {
  gate = record { closed = true; inflight = 0; drained = released; sealed = true };
  threads = 0 ∷ 0 ∷ [];
  unmapped = true;
}

quiet-Reach : Reach (start 2) quiet
unfolding start new_gate enter exit begin_close
quiet-Reach =
    next (next busy-Reach (leaves busy 0 refl refl))
      (unmaps (record quiet { unmapped = false }) (drained_first refl))

unmapped_untouched_example :
    ((i a : ℕ) → get_elem? quiet.threads i ≡ some a → a ≡ 0) × ((enter quiet.gate).1 ≡ false)
unmapped_untouched_example = unmapped_untouched 2 quiet-Reach refl

exit_never_panics_example : exit busy.gate ≢ none
unfolding busy
exit_never_panics_example = exit_never_panics 2 0 busy-Reach refl

close_can_finish_example : (t : System) × Reach busy t × CloseReturns t.gate none
unfolding start new_gate enter begin_close
close_can_finish_example = close_can_finish 2 busy-Reach refl

-- A body that counts the events, up to two.
abbrev counting : StoreGate → ℕ → Event → StoreGate × ℕ × Bool
counting g w evt = (g, suc w, w == 0)

guarded_query_example :
    (new_gate.closed ≡ true
      → query_events counting memory (message ∷ message ∷ message ∷ []) empty_filter 100 new_gate 0
        ≡ some (new_gate, 0))
    × (new_gate.closed ≡ false
        → query_events counting memory
            (message ∷ message ∷ message ∷ [])
            empty_filter
            100
            new_gate
            0
          ≡ some (
            new_gate,
            range_over counting
                (enter new_gate).0
                (memory.query_events (message ∷ message ∷ message ∷ []) empty_filter 100)
                0,
          ))
unfolding new_gate
guarded_query_example =
    guarded_query counting memory (message ∷ message ∷ message ∷ []) empty_filter 100 new_gate 0
      refl (λ w evt. refl)

-- The gate is closed while the body runs.
abbrev closing : StoreGate → ℕ → Event → StoreGate × ℕ × Bool
unfolding begin_close
closing g w evt = (begin_close g, suc w, true)
