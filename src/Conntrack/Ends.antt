-- ===== src/Conntrack/Ends.antt =====
-- CloseAll of conntrack.go while the server and the handlers go on.
use croissant.Base.{
  true, false, Option, List, load, has, contains, count, count-pos, contains_of_count, load-store,
  Option-cases, Bool-cases, eq_of_beq, eq_self, ◌==◌, nat_eq, ◌≡◌, refl, ap, ◌∙◌, subst, inl, inr,
  arith,
}
use croissant.Conntrack.{
  Conn, ConnState, NetConn, tracked, other_conn, HijackedConns, conn_state, close, Step, Closing,
  all_closed, others_step, closes_next, reports, closes, Reach, next, new, active, idle, hijacked,
  closed,
}
use croissant.Conntrack.Once.{inner_closed_once}

module _ {E : Type 0} (inner_close : Conn → Option E) where
  -- A connection that was closed stays so.
  close-Stays :
      (h : HijackedConns E) (d c : Conn)
      → has h.close_errs c ≡ true
      → has (close inner_close h d).0.close_errs c ≡ true
  unfolding close
  close-Stays h d c fired = elim (Option-cases (load h.close_errs d)) [
    | inr (err, before) ↦ rw (before, close) fired
    | inl unfired ↦
        rw (unfired, close) (ground (arith, fired, load-store h.close_errs d (inner_close d) c))
  ]

  close-Fires : (h : HijackedConns E) (c : Conn) → has (close inner_close h c).0.close_errs c ≡ true
  unfolding close
  close-Fires h c = elim (Option-cases (load h.close_errs c)) [
    | inr (err, before) ↦ rw (before, close, has) (ground (arith, before))
    | inl unfired ↦
        rw (unfired, close) (ground (arith, load-store h.close_errs c (inner_close c) c, eq_self c))
  ]

  conn_state-Stays :
      (h : HijackedConns E) (conn : NetConn) (state : ConnState)
      → (conn_state h conn state).close_errs ≡ h.close_errs
  unfolding conn_state
  conn_state-Stays h other_conn state = refl
  conn_state-Stays h (tracked c) new = refl
  conn_state-Stays h (tracked c) active = refl
  conn_state-Stays h (tracked c) idle = refl
  conn_state-Stays h (tracked c) closed = refl
  conn_state-Stays h (tracked c) hijacked = elim (Bool-cases (contains h.conns c)) [
    | inl old ↦ rw old refl
    | inr added ↦ rw added refl
  ]

  Step-Stays :
      {h h' : HijackedConns E} (c : Conn)
      → Step inner_close h h'
      → has h.close_errs c ≡ true
      → has h'.close_errs c ≡ true
  Step-Stays {h} c (reports conn state fresh) fired =
      ap (λ m. has m c) (conn_state-Stays h conn state) ∙ fired
  Step-Stays {h} c (closes d) fired = close-Stays h d c fired

  Closing-Stays :
      {order : List Conn} {h h' : HijackedConns E} (c : Conn)
      → Closing inner_close order h h'
      → has h.close_errs c ≡ true
      → has h'.close_errs c ≡ true
  Closing-Stays c (all_closed h) fired = fired
  Closing-Stays c (others_step step rest) fired = Closing-Stays c rest (Step-Stays c step fired)
  Closing-Stays c (closes_next d {h = h} rest) fired =
      Closing-Stays c rest (close-Stays h d c fired)

  Closing-Fires :
      {order : List Conn} {h h' : HijackedConns E} (c : Conn)
      → Closing inner_close order h h'
      → contains order c ≡ true
      → has h'.close_errs c ≡ true
  Closing-Fires c (all_closed h) here = cc here
  Closing-Fires c (others_step step rest) here = Closing-Fires c rest here
  Closing-Fires c (closes_next d {h = h} rest) here = elim (Bool-cases (d == c)) [
    | inl same ↦ Closing-Stays c rest (
        subst (λ a. has (close inner_close h d).0.close_errs a ≡ true) (eq_of_beq d c same)
          (close-Fires h d))
    | inr other ↦ Closing-Fires c rest (rw other at here)
  ]

  Closing-Reach :
      {order : List Conn} {h h' : HijackedConns E}
      → Reach inner_close h
      → Closing inner_close order h h'
      → Reach inner_close h'
  Closing-Reach r (all_closed h) = r
  Closing-Reach r (others_step step rest) = Closing-Reach (next r step) rest
  Closing-Reach r (closes_next d rest) = Closing-Reach (next r (closes d)) rest

  -- A connection that is tracked when CloseAll begins is closed once and tracked no more when it is
  -- through, whatever the server and the handlers do meanwhile and afterwards.
  pub Closing-closed_once :
      {order : List Conn} {h h' : HijackedConns E} (c : Conn)
      → Reach inner_close h
      → ((c : Conn) → count c order ≡ count c h.conns)
      → Closing inner_close order h h'
      → contains h.conns c ≡ true
      → (count c h'.inner_closes ≡ 1) × (contains h'.conns c ≡ false)
  Closing-closed_once {order} {h} c r same run here =
      let fired =
        Closing-Fires c run
          (contains_of_count order c (omega (arith, same c, count-pos h.conns c here))) in
      let (once, untracked) = inner_closed_once inner_close c (Closing-Reach r run) in
      (rw fired at once, untracked fired)
