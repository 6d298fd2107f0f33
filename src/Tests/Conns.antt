-- ===== src/Tests/Conns.antt =====
-- Two hijacked connections.
use croissant.Base.{
  ℕ, ◌+◌, true, false, Option, none, [], ◌∷◌, count, contains, has, if◌then◌else◌, nat_eq, ◌≡◌,
  refl, arith,
}
use croissant.Conntrack.{
  Conn, HijackedConns, close_all, len, no_conns, conn_state, tracked, hijacked, Reach, start, next,
  reports,
}
use croissant.Conntrack.Once.{inner_closed_once, close_all_closes}

abbrev pub no_error : Conn → Option ℕ
no_error c = none

abbrev pub two : HijackedConns ℕ
unfolding no_conns conn_state
two = conn_state (conn_state no_conns (tracked 1) hijacked) (tracked 2) hijacked

pub two-Reach : Reach no_error two
unfolding no_conns conn_state
two-Reach =
    next (next start (reports (tracked 1) hijacked (λ c same state. refl)))
      (reports (tracked 2) hijacked (λ c same state. refl))

inner_closed_once_example :
    (count 1 two.inner_closes ≡ (if has two.close_errs 1 then 1 else 0))
    × (has two.close_errs 1 ≡ true → contains two.conns 1 ≡ false)
inner_closed_once_example = inner_closed_once no_error 1 two-Reach

pub two-order : (c : Conn) → count c (1 ∷ 2 ∷ []) ≡ count c two.conns
unfolding two
two-order c = ground arith

close_all_closes_example :
    let (h', n) = close_all no_error (1 ∷ 2 ∷ []) two in
    (n ≡ len two)
    × (h'.conns ≡ [])
    × ((c : Conn) → count c h'.inner_closes ≡ count c two.inner_closes + count c two.conns)
close_all_closes_example = close_all_closes no_error (1 ∷ 2 ∷ []) two-Reach two-order
