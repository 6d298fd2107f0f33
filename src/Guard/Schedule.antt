-- ===== src/Guard/Schedule.antt =====
-- The operations of guard.go and the shutdown of store.go and main.go, interleaved: any number of
-- goroutines enter and leave the gate, also nested, while one closes it and then the store.
use croissant.Base.{ℕ, suc, Bool, true, false, List, get_elem?, set, replicate, ◌≡◌, some, none}
use croissant.Guard.{StoreGate, new_gate, enter, exit, begin_close, CloseReturns}

-- `threads` counts for each goroutine the guarded operations that it is inside of.
pub record System : Type 0 where
  pub gate : StoreGate
  pub threads : List ℕ
  pub unmapped : Bool

-- n goroutines, none of them in an operation.
unfoldable pub start : ℕ → System
start n = record { gate = new_gate; threads = replicate n 0; unmapped = false }

-- `unmaps` is mmmm.Close() in closeStore, which follows a Close that returned nil.
pub data Step : System → System → Type 0 where
  enters :
      (s : System) (i : ℕ) {k : ℕ}
      → get_elem? s.threads i ≡ some k
      → (enter s.gate).1 ≡ true
      → Step s (record s { gate = (enter s.gate).0; threads = set s.threads i (suc k) })
  is_refused :
      (s : System) → (enter s.gate).1 ≡ false → Step s (record s { gate = (enter s.gate).0 })
  leaves :
      (s : System) (i : ℕ) {k : ℕ} {g : StoreGate}
      → get_elem? s.threads i ≡ some (suc k)
      → exit s.gate ≡ some g
      → Step s (record s { gate = g; threads = set s.threads i k })
  closes : (s : System) → Step s (record s { gate = begin_close s.gate })
  unmaps : (s : System) → CloseReturns s.gate none → Step s (record s { unmapped = true })

pub data Reach (s : System) : System → Type 0 where
  here : Reach s s
  next : {t u : System} → Reach s t → Step t u → Reach s u

pub Reach-trans : {s t u : System} → Reach s t → Reach t u → Reach s u
Reach-trans r here = r
Reach-trans r (next q st) = next (Reach-trans r q) st
