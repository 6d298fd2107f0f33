-- ===== src/Conntrack/Once.antt =====
-- Each hijacked connection of conntrack.go is closed once, and CloseAll closes them all.
use croissant.Base.{
  ◌+◌, ◌≤◌, true, false, Option, none, List, [], ◌∷◌, load, store, has, contains, erase, count,
  count-erase, contains-count, count-pos, contains_of_count, length_of_counts, load-store_other,
  load-store, Option-cases, Bool-cases, eq_of_beq, eq_self, ◌==◌, nat_eq, if◌then◌else◌, ◌≡◌, refl,
  ap, ◌∙◌, subst, inl, inr, arith,
}
use croissant.Conntrack.{
  Conn, ConnState, NetConn, tracked, other_conn, HijackedConns, no_conns, conn_state, len, close,
  close_each, close_all, reports, closes, Reach, start, next, new, active, idle, hijacked, closed,
}

empty_of_counts : (xs : List Conn) → ((a : Conn) → count a xs ≡ 0) → xs ≡ []
empty_of_counts [] h = refl
empty_of_counts (x ∷ xs) h = absurd (ground (arith, h x, eq_self x))

module _ {E : Type 0} (inner_close : Conn → Option E) where
  -- No connection is in the set twice, none of the set has been closed, and net.Conn.Close was called
  -- exactly for the connections whose closeOnce has fired, once for each.
  record Inv (h : HijackedConns E) : Type 0 where
    distinct : (c : Conn) → count c h.conns ≤ 1
    open_conns : (c : Conn) → contains h.conns c ≡ true → load h.close_errs c ≡ none
    once : (c : Conn) → count c h.inner_closes ≡ (if has h.close_errs c then 1 else 0)

  conn_state-Inv :
      (h : HijackedConns E) (conn : NetConn) (state : ConnState)
      → ((c : Conn) → conn ≡ tracked c → state ≡ hijacked → load h.close_errs c ≡ none)
      → Inv h
      → Inv (conn_state h conn state)
  unfolding conn_state
  conn_state-Inv h other_conn state fresh v = v
  conn_state-Inv h (tracked c) new fresh v = v
  conn_state-Inv h (tracked c) active fresh v = v
  conn_state-Inv h (tracked c) idle fresh v = v
  conn_state-Inv h (tracked c) closed fresh v = v
  conn_state-Inv h (tracked c) hijacked fresh v = elim (Bool-cases (contains h.conns c)) [
    | inl old ↦ rw old v
    | inr added ↦ rw added (record {
      distinct = λ a. elim (Bool-cases (c == a)) [
        | inl same ↦ ground (arith, eq_of_beq c a same, contains-count h.conns c added)
        | inr other ↦ ground (arith, v.distinct a)
      ];
      open_conns = λ a here. elim (Bool-cases (c == a)) [
        | inl same ↦
            subst (λ a. load h.close_errs a ≡ none) (eq_of_beq c a same) (fresh c refl refl)
        | inr other ↦ v.open_conns a (rw other at here)
      ];
      once = v.once;
    })
  ]

  close-Inv : (h : HijackedConns E) (c : Conn) → Inv h → Inv (close inner_close h c).0
  unfolding close
  close-Inv h c v = elim (Option-cases (load h.close_errs c)) [
    | inr (err, fired) ↦ rw (fired, close) v
    | inl unfired ↦
        rw (unfired, close)
          (record {
            distinct = λ a. ground (arith, v.distinct a, count-erase h.conns c a);
            open_conns = λ a here.
                let kept = count-erase h.conns c a in
                elim (Bool-cases (c == a)) [
                  | inl same ↦ absurd (
                      ground (
                        arith,
                        count-pos (erase h.conns c) a here,
                        kept,
                        v.distinct a,
                        contains_of_count h.conns a,
                        eq_of_beq c a same,
                      ))
                  | inr other ↦
                      load-store_other h.close_errs c (inner_close c) a other
                      ∙ v.open_conns a (
                          contains_of_count h.conns a
                            (omega (arith, count-pos (erase h.conns c) a here, kept)))
                ];
            once = λ a. elim (Bool-cases (c == a)) [
              | inl same ↦ ground (
                arith,
                v.once a,
                load-store h.close_errs c (inner_close c) a,
                ap (load h.close_errs) (eq_of_beq c a same),
              )
              | inr other ↦ ground (arith, v.once a, load-store h.close_errs c (inner_close c) a)
            ];
          })
  ]

  Reach-Inv : {h : HijackedConns E} → Reach inner_close h → Inv h
  unfolding no_conns
  Reach-Inv start = record {
    distinct = λ c. omega arith;
    open_conns = λ c here. cc;
    once = λ c. refl;
  }
  Reach-Inv (next {h} r (reports conn state fresh)) =
      conn_state-Inv h conn state fresh (Reach-Inv r)
  Reach-Inv (next {h} r (closes c)) = close-Inv h c (Reach-Inv r)

  -- However often a connection is closed, by its handler, by the server or by CloseAll, and in whatever
  -- order with the reports of the server: net.Conn.Close is called on it once if it was closed at all,
  -- and never otherwise, and a connection that was closed is no longer tracked.
  pub inner_closed_once :
      {h : HijackedConns E} (c : Conn)
      → Reach inner_close h
      → (count c h.inner_closes ≡ (if has h.close_errs c then 1 else 0))
        × (has h.close_errs c ≡ true → contains h.conns c ≡ false)
  inner_closed_once {h} c r =
      let v = Reach-Inv r in
      (
        v.once c,
        λ fired. elim (Bool-cases (contains h.conns c)) [
          | inl here ↦ cc (rw (v.open_conns c here, has) at fired)
          | inr gone ↦ gone
        ],
      )

  -- A list of open connections of the set, each once.
  record ToClose (cs : List Conn) (h : HijackedConns E) : Type 0 where
    each_open : (c : Conn) → contains cs c ≡ true → load h.close_errs c ≡ none
    each_once : (c : Conn) → count c cs ≤ 1
    each_tracked : (c : Conn) → count c cs ≤ count c h.conns

  record Closed (cs : List Conn) (h h' : HijackedConns E) : Type 0 where
    untracked : (a : Conn) → count a h'.conns + count a cs ≡ count a h.conns
    inner_closed : (a : Conn) → count a h'.inner_closes ≡ count a h.inner_closes + count a cs

  -- The set and the set's state after the first close of `c`.
  abbrev closed_one : HijackedConns E → Conn → HijackedConns E
  closed_one h c = record {
    conns = erase h.conns c;
    close_errs = store h.close_errs c (inner_close c);
    inner_closes = c ∷ h.inner_closes;
  }

  close-closed_one :
      (h : HijackedConns E) (c : Conn)
      → load h.close_errs c ≡ none
      → close inner_close h c ≡ (closed_one h c, inner_close c)
  unfolding close
  close-closed_one h c unfired = rw (unfired, close) refl

  ToClose-rest :
      (c : Conn) (cs : List Conn) (h : HijackedConns E)
      → ToClose (c ∷ cs) h
      → ToClose cs (closed_one h c)
  ToClose-rest c cs h t = record {
    each_open = λ a here. elim (Bool-cases (c == a)) [
      | inl same ↦ absurd (ground (arith, t.each_once a, count-pos cs a here))
      | inr other ↦
          load-store_other h.close_errs c (inner_close c) a other
          ∙ t.each_open a (ground (arith, here))
    ];
    each_once = λ a. ground (arith, t.each_once a);
    each_tracked = λ a. ground (arith, t.each_tracked a, count-erase h.conns c a);
  }

  close_each-Closed :
      (cs : List Conn) (h : HijackedConns E)
      → ToClose cs h
      → Closed cs h (close_each inner_close cs h)
  unfolding close_each
  close_each-Closed [] h t = record {
    untracked = λ a. omega arith;
    inner_closed = λ a. omega arith;
  }
  close_each-Closed (c ∷ cs) h t =
      let done = close_each-Closed cs (closed_one h c) (ToClose-rest c cs h t) in
      let tracks_c : contains h.conns c ≡ true =
        contains_of_count h.conns c (ground (arith, t.each_tracked c, eq_self c)) in
      rw (close-closed_one h c (t.each_open c (ground (arith, eq_self c)))) (record {
        untracked = λ a. ground (arith, done.untracked a, count-erase h.conns c a, tracks_c);
        inner_closed = λ a. ground (arith, done.inner_closed a);
      })

  -- While nothing else happens, and whatever order the range over the map takes, CloseAll returns the
  -- number of connections that were tracked, tracks none afterwards, and has called net.Conn.Close once
  -- more on each of them and on no other.
  pub close_all_closes :
      {h : HijackedConns E} (order : List Conn)
      → Reach inner_close h
      → ((c : Conn) → count c order ≡ count c h.conns)
      → let (h', n) = close_all inner_close order h in
        (n ≡ len h)
        × (h'.conns ≡ [])
        × ((c : Conn) → count c h'.inner_closes ≡ count c h.inner_closes + count c h.conns)
  unfolding close_all len
  close_all_closes {h} order r same =
      let v = Reach-Inv r in
      let done = close_each-Closed order h (record {
        each_open = λ c here.
            v.open_conns c
              (contains_of_count h.conns c (omega (arith, same c, count-pos order c here)));
        each_once = λ c. omega (arith, same c, v.distinct c);
        each_tracked = λ c. omega (arith, same c);
      }) in
      (
        length_of_counts order h.conns same,
        empty_of_counts (close_each inner_close order h).conns
            (λ c. omega (arith, same c, done.untracked c)),
        λ c. omega (arith, same c, done.inner_closed c),
      )
