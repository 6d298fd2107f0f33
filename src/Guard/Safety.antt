-- ===== src/Guard/Safety.antt =====
-- What the gate of guard.go guarantees, over every interleaving of Schedule.
use croissant.Base.{
  ℕ, zero, suc, true, false, get_elem?, set, ◌≡◌, ◌≢◌, some, none, arith, sum, ◌⊎◌, sum-set,
  get_elem?-le-sum, positive_entry, sum-replicate, ◌<◌, refl, Option, Option-cases, inl, inr,
}
use croissant.Guard.{
  StoreGate, new_gate, enter, exit, begin_close, still_running, CloseError, CloseReturns,
  drained_first, timed_out, unmade, waiting, released,
}
use croissant.Guard.Schedule.{
  System, start, Step, enters, is_refused, leaves, closes, unmaps, Reach, here, next, Reach-trans,
}

-- The gate counts the operations inside, and `drained` is closed once it is sealed and empty.
pub record Inv (s : System) : Type 0 where
  pub counted : s.gate.inflight ≡ sum s.threads
  pub mirrored : s.gate.sealed ≡ s.gate.closed
  pub unmade_open : s.gate.closed ≡ false → s.gate.drained ≡ unmade
  pub drained_empty : s.gate.closed ≡ true → s.gate.inflight ≡ 0 → s.gate.drained ≡ released
  pub waiting_busy : s.gate.closed ≡ true → 0 < s.gate.inflight → s.gate.drained ≡ waiting
  pub unmapped_after : s.unmapped ≡ true → (s.gate.closed ≡ true) × (s.gate.inflight ≡ 0)

start-Inv : (n : ℕ) → Inv (start n)
unfolding start new_gate
start-Inv n = ground (arith, sum-replicate n)

CloseReturns-released : {g : StoreGate} → CloseReturns g none → g.drained ≡ released
CloseReturns-released (drained_first e) = e

Step-Inv : {s t : System} → Step s t → Inv s → Inv t
unfolding enter exit begin_close
Step-Inv (enters s i {k} e ok) v = ground (arith, sum-set s.threads i (suc k) e)
Step-Inv (is_refused s no_entry) v = ground arith
Step-Inv (leaves s i {k} {g} e ok) v =
    ground (arith, sum-set s.threads i k e, get_elem?-le-sum s.threads i e)
Step-Inv (closes s) v = ground arith
Step-Inv (unmaps s r) v = ground (arith, CloseReturns-released r)

Reach-Inv : {s t : System} → Reach s t → Inv s → Inv t
Reach-Inv here v = v
Reach-Inv (next r st) v = Step-Inv st (Reach-Inv r v)

-- In every interleaving of n goroutines that enter and leave the gate (nested operations included)
-- with any number of Close calls, once the store has been unmapped no goroutine is inside a guarded
-- operation, and the gate lets nobody in any more: no operation can touch the unmapped store.
pub unmapped_untouched :
    (n : ℕ) {s : System}
    → Reach (start n) s
    → s.unmapped ≡ true
    → ((i a : ℕ) → get_elem? s.threads i ≡ some a → a ≡ 0) × ((enter s.gate).1 ≡ false)
unfolding enter
unmapped_untouched n {s} r u =
    let v = Reach-Inv r (start-Inv n) in
    (
      λ i a e. omega (arith, v.counted, (v.unmapped_after u).1, get_elem?-le-sum s.threads i e),
      ground (arith, v.unmapped_after u),
    )

exit_safe :
    {s : System}
    → Inv s
    → (i : ℕ) {k : ℕ} → get_elem? s.threads i ≡ some (suc k)
    → exit s.gate ≢ none
unfolding exit
exit_safe {s} v i e = ground (arith, v, get_elem?-le-sum s.threads i e)

-- No goroutine that is inside an operation panics on leaving it: `drained` is closed only once, and
-- never while it is nil, and the count stays above 0, in every interleaving.
pub exit_never_panics :
    (n : ℕ) {s : System} (i : ℕ) {k : ℕ}
    → Reach (start n) s
    → get_elem? s.threads i ≡ some (suc k)
    → exit s.gate ≢ none
exit_never_panics n i r e = exit_safe (Reach-Inv r (start-Inv n)) i e

exit_fewer :
    (g : StoreGate) {h : StoreGate}
    → exit g ≡ some h
    → g.closed ≡ true
    → (h.closed ≡ true) × (suc h.inflight ≡ g.inflight)
unfolding exit
exit_fewer g {h} e c = ground arith

leaving :
    {s : System}
    → Inv s
    → (i : ℕ) {k : ℕ} → get_elem? s.threads i ≡ some (suc k)
    → (g : StoreGate) × (exit s.gate ≡ some g)
leaving {s} v i e = elim (Option-cases (exit s.gate)) [
  | inl panics ↦ absurd (exit_safe v i e panics)
  | inr (g, left) ↦ (g, left)
]

drains :
    (m : ℕ) (s : System)
    → Inv s
    → s.gate.closed ≡ true
    → s.gate.inflight ≡ m
    → (t : System) × Reach s t × CloseReturns t.gate none
drains zero s v c z = (s, here, drained_first (v.drained_empty c z))
drains (suc m) s v c z =
    let (i, k, e) = positive_entry s.threads (omega (arith, v.counted)) in
    let (g, left) = leaving v i e in
    let (closed, fewer) = exit_fewer s.gate left c in
    let st = leaves s i e left in
    let (t, r, done) =
      drains m (record s { gate = g; threads = set s.threads i k }) (Step-Inv st v) closed
        (omega arith) in
    (t, Reach-trans (next here st) r, done)

-- Close can always finish: from any state after the gate was closed, the operations that are still
-- inside can leave one by one, without panicking, until the Close that waits returns nil.
pub close_can_finish :
    (n : ℕ) {s : System}
    → Reach (start n) s
    → s.gate.closed ≡ true
    → (t : System) × Reach s t × CloseReturns t.gate none
close_can_finish n {s} r c = drains s.gate.inflight s (Reach-Inv r (start-Inv n)) c refl

CloseReturns-count :
    {g : StoreGate} {o : Option CloseError}
    → CloseReturns g o
    → (o ≡ none) ⊎ (o ≡ some (still_running g.inflight))
CloseReturns-count (drained_first e) = inl refl
CloseReturns-count timed_out = inr refl

reported : {g : StoreGate} {m : ℕ} → CloseReturns g (some (still_running m)) → m ≡ g.inflight
reported c = ground (arith, CloseReturns-count c)

running :
    {s : System}
    → Inv s
    → {m : ℕ} → CloseReturns s.gate (some (still_running m))
    → m ≡ sum s.threads
running v c = omega (arith, v.counted, reported c)

-- Close returns nil only when nobody is inside any more, and the error only reports the operations
-- that are: the number in the error is the sum of the operations that the goroutines are inside of.
pub close_returns :
    (n : ℕ) {s : System}
    → Reach (start n) s
    → (CloseReturns s.gate none → (s.gate.closed ≡ true) × (sum s.threads ≡ 0))
      × ((m : ℕ) → CloseReturns s.gate (some (still_running m)) → m ≡ sum s.threads)
close_returns n {s} r =
    let v = Reach-Inv r (start-Inv n) in
    (λ c. ground (arith, v, CloseReturns-released c), λ m e. running v e)
