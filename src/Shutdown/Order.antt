-- ===== src/Shutdown/Order.antt =====
-- What has happened when run of main.go returns.
use croissant.Base.{
  ℕ, true, false, Option, none, some, count, contains, sum, nat_eq, ◌≡◌, refl, sym, ◌∙◌,
}
use croissant.Guard.{StoreGate, CloseError, still_running, enter}
use croissant.Guard.Schedule.{System, start, Reach, Reach-trans, next, closes}
use croissant.Guard.Safety.{close_returns}
use croissant.Conntrack
use croissant.Conntrack.{Conn, HijackedConns}
use croissant.Conntrack.Ends.{Closing-closed_once}
use croissant.Shutdown.{
  Stop, signalled, RunError, incomplete, ClosesAll, closes_all, shuts_down, StopServing,
  on_serve_error, on_signal, close_store, Run, runs,
}

module _ {E : Type 0} (inner_close : Conn → Option E) where
  -- What becomes of the connections that were tracked.
  abbrev pub AllClosed : HijackedConns E → HijackedConns E → Type 0
  AllClosed h h' =
      (c : Conn)
      → contains h.conns c ≡ true
      → (count c h'.inner_closes ≡ 1) × (contains h'.conns c ≡ false)

  closed_all :
      {h h' : HijackedConns E}
      → Conntrack.Reach inner_close h
      → ClosesAll inner_close h h'
      → AllClosed h h'
  closed_all r (closes_all order same run) c here =
      Closing-closed_once inner_close c r same run here

  -- Both ways to stop close all connections.
  StopServing-closes :
      {h h' : HijackedConns E} {stop : Stop E} {error : Option (RunError E)}
      → Conntrack.Reach inner_close h
      → StopServing inner_close h stop h' error
      → AllClosed h h'
  StopServing-closes r (on_serve_error err all) = closed_all r all
  StopServing-closes r (on_signal drained (shuts_down all)) = closed_all r all

  unlocked : (g : StoreGate) → g.closed ≡ true → (enter g).1 ≡ false
  unfolding enter
  unlocked g closed = rw closed refl

  clean_drain :
      (drained : Option E) → incomplete drained ≡ none → signalled drained ≡ signalled none
  clean_drain none e = refl
  clean_drain (some err) e = cc e

  clean_stop :
      {h h' : HijackedConns E} {stop : Stop E} {error : Option (RunError E)}
      → StopServing inner_close h stop h' error
      → error ≡ none
      → stop ≡ signalled none
  clean_stop (on_serve_error err all) e = cc e
  clean_stop (on_signal drained (shuts_down all)) e = clean_drain drained e

  -- However the goroutines at the gate and the connections go on until run returns, each connection that
  -- was tracked when CloseAll was called is tracked no more, and net.Conn.Close was called on it once;
  -- one that the server hands off later may stay. Without an error, it was a signal that stopped run, the
  -- requests were drained, and the store is unmapped, with nobody inside and nobody let in any more. The
  -- error of a store that is left open counts the operations that still run.
  pub Run-ends_in_order :
      (n : ℕ) (stop : Stop E) {s s' : System} {h h' : HijackedConns E}
      {run_error : Option (RunError E)} {close_error : Option CloseError}
      → Reach (start n) s
      → Conntrack.Reach inner_close h
      → Run inner_close stop s h s' h' run_error close_error
      → ((c : Conn)
          → contains h.conns c ≡ true
          → (count c h'.inner_closes ≡ 1) × (contains h'.conns c ≡ false))
        × (run_error ≡ none
            → close_error ≡ none
            → (stop ≡ signalled none)
              × (s'.unmapped ≡ true)
              × (sum s'.threads ≡ 0)
              × ((enter s'.gate).1 ≡ false))
        × ((m : ℕ) → close_error ≡ some (still_running m) → m ≡ sum s'.threads)
  unfolding close_store
  Run-ends_in_order n stop {s} r q (runs waiting none stops w c) =
      let (closed, empty) = (close_returns n (Reach-trans (next r (closes s)) w)).0 c in
      (
        StopServing-closes q stops,
        λ ok ok'. (clean_stop stops ok, refl, empty, unlocked waiting.gate closed),
        λ m e. cc e,
      )
  Run-ends_in_order n stop {s} r q (runs waiting (some (still_running k)) stops w c) =
      let counted = (close_returns n (Reach-trans (next r (closes s)) w)).1 in
      (
        StopServing-closes q stops,
        λ ok ok'. cc ok',
        λ m e. let found : k ≡ m = cc e in sym found ∙ counted k c,
      )
