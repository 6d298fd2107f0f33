-- ===== src/Shutdown.antt =====
-- The end of run in main.go, with shutdownServer there and closeStore of store.go: the HTTP server is
-- drained, the connections that it has handed off are closed, the gate is closed, and the store after it.
-- Parameters: what Serve or Shutdown of net/http returns, and net.Conn.Close.
pub mod Order
use croissant.Base.{ℕ, Bool, true, false, Option, none, some, List, count, nat_eq, ◌≡◌}
use croissant.Guard.{StoreGate, CloseError, CloseReturns, begin_close}
use croissant.Guard.Schedule.{System, Reach}
use croissant.Conntrack.{Conn, HijackedConns, Closing}

-- Why run stops to serve: Serve failed, or a signal came; then `drained` is what Shutdown returned.
pub data Stop (E : Type 0) : Type 0 where
  serve_failed : E → Stop E
  signalled : (drained : Option E) → Stop E

pub data RunError (E : Type 0) : Type 0 where
  server_error : E → RunError E
  shutdown_incomplete : E → RunError E

abbrev pub incomplete : {E : Type 0} → Option E → Option (RunError E)
incomplete none = none
incomplete (some err) = some (shutdown_incomplete err)

module _ {E : Type 0} (inner_close : Conn → Option E) where
  -- CloseAll with what the others do meanwhile, and after it. Its list is made under `mu`, in the order
  -- in which the range over the map yields the connections. Handlers may go on after it: a Shutdown that
  -- times out leaves them, and so does a server that fails.
  pub data ClosesAll (h h' : HijackedConns E) : Type 0 where
    closes_all :
        (order : List Conn)
        → ((c : Conn) → count c order ≡ count c h.conns)
        → Closing inner_close order h h'
        → ClosesAll h h'

  -- From Shutdown of net/http, which returned `drained`, to the return of shutdownServer. The number of
  -- connections is only logged.
  pub data ShutdownServer (drained : Option E) (h : HijackedConns E)
      : HijackedConns E → Option (RunError E) → Type 0 where
    shuts_down :
        {h' : HijackedConns E} → ClosesAll h h' → ShutdownServer drained h h' (incomplete drained)

  -- From the select of run to its return, where `h` are the connections when CloseAll is called.
  pub data StopServing (h : HijackedConns E)
      : Stop E → HijackedConns E → Option (RunError E) → Type 0 where
    on_serve_error :
        (err : E) {h' : HijackedConns E}
        → ClosesAll h h'
        → StopServing h (serve_failed err) h' (some (server_error err))
    on_signal :
        (drained : Option E) {h' : HijackedConns E} {error : Option (RunError E)}
        → ShutdownServer drained h h' error
        → StopServing h (signalled drained) h' error

-- closeStore, once Close of the gate has returned; mmmm.Close() returns nothing that is read.
unfoldable pub close_store : System → Option CloseError → System × Option CloseError
close_store s none = (record s { unmapped = true }, none)
close_store s (some err) = (s, some err)

-- run, with its deferred closeStore: `waiting` is the system when Close returns, in which the
-- goroutines have gone on since the gate was closed; the connections go on as well until run returns.
-- The two errors are joined.
pub data Run {E : Type 0} (inner_close : Conn → Option E) (stop : Stop E) (s : System)
    (h : HijackedConns E)
    : System → HijackedConns E → Option (RunError E) → Option CloseError → Type 0 where
  runs :
      {h' : HijackedConns E} {run_error : Option (RunError E)} (waiting : System)
      (returned : Option CloseError)
      → StopServing inner_close h stop h' run_error
      → Reach (record s { gate = begin_close s.gate }) waiting
      → CloseReturns waiting.gate returned
      → Run inner_close stop s h
          (close_store waiting returned).0
          h'
          run_error
          (close_store waiting returned).1
