-- ===== src/Guard.antt =====
-- guard.go: the gate that keeps the store from being unmapped under a running operation.
-- A method that locks `mu` for its whole body is one function on the gate.
pub mod Operations
pub mod Schedule
pub mod Safety
pub mod Query
use croissant.Base.{
  ◌≡◌, ℕ, zero, suc, Bool, true, false, ◌&&◌, ◌==◌, nat_eq, if◌then◌else◌, Option, none, some,
  String,
}

-- The channel `drained`: nil before the first Close, then made, then closed.
pub data Signal : Type 0 where
  unmade waiting released : Signal

pub record StoreGate : Type 0 where
  pub closed : Bool
  pub inflight : ℕ
  pub drained : Signal
  pub sealed : Bool

unfoldable pub new_gate : StoreGate
new_gate = record { closed = false; inflight = 0; drained = unmade; sealed = false }

unfoldable pub enter : StoreGate → StoreGate × Bool
enter g = if g.closed then (g, false) else (record g { inflight = suc g.inflight }, true)

-- close(ch) panics on a nil channel and on one that is closed already.
abbrev pub close_signal : Signal → Option Signal
close_signal unmade = none
close_signal waiting = some released
close_signal released = none

abbrev set_drained : StoreGate → Option Signal → Option StoreGate
set_drained g none = none
set_drained g (some d) = some (record g { drained = d })

-- The gate after an operation left; `left` is the count after `inflight--`.
abbrev leave : StoreGate → ℕ → Option StoreGate
leave g left =
    let g' = record g { inflight = left } in
    if g.closed && left == 0 then set_drained g' (close_signal g.drained) else some g'

abbrev exit_count : StoreGate → ℕ → Option StoreGate
exit_count g zero = none
exit_count g (suc left) = leave g left

-- `none` is a panic, or the count of a gate that nobody is in falling below 0.
unfoldable pub exit : StoreGate → Option StoreGate
exit g = exit_count g g.inflight

-- The locked part of Close: the first call seals the gate, and fires `drained` if nobody is inside.
unfoldable pub begin_close : StoreGate → StoreGate
begin_close g = if g.closed then g else record g {
  closed = true;
  sealed = true;
  drained = if g.inflight == 0 then released else waiting;
}

pub data CloseError : Type 0 where
  still_running : ℕ → CloseError

-- The select of Close: whichever of `drained` and the timer is ready, and either one where both are.
pub data CloseReturns (g : StoreGate) : Option CloseError → Type 0 where
  drained_first : g.drained ≡ released → CloseReturns g none
  timed_out : CloseReturns g (some (still_running g.inflight))

-- What every guarded operation answers once the gate is closed.
pub data StoreError {ℓ} (E : Type ℓ) : Type ℓ where
  store_closed : StoreError E
  inner_error : E → StoreError E
