-- ===== src/Conntrack.antt =====
-- conntrack.go: the set of connections that the HTTP server has handed off. A *trackedConn is a number;
-- what net.Conn.Close answers for it is a parameter. The methods take turns: each runs under `mu`, and
-- `close_all` is CloseAll when nothing else happens meanwhile, Closing when others go on.
pub mod Ends
pub mod Once
use croissant.Base.{
  ℕ, Bool, true, false, Option, none, some, List, [], ◌∷◌, Map, load, store, contains, erase,
  length, nat_eq, if◌then◌else◌, ◌≡◌,
}

abbrev pub Conn : Type 0
Conn = ℕ

-- http.ConnState
pub data ConnState : Type 0 where
  new active idle hijacked closed : ConnState

-- The connection that ConnState is given: one of trackingListener's, or another.
pub data NetConn : Type 0 where
  tracked : Conn → NetConn
  other_conn : NetConn

-- `conns` is the set; `close_errs` holds closeErr for each connection whose closeOnce has fired;
-- `inner_closes` are the calls of net.Conn.Close, newest first.
pub record HijackedConns (E : Type 0) : Type 0 where
  pub conns : List Conn
  pub close_errs : Map Conn (Option E)
  pub inner_closes : List Conn

unfoldable pub no_conns : {E : Type 0} → HijackedConns E
no_conns = record { conns = []; close_errs = []; inner_closes = [] }

module _ {E : Type 0} where
  abbrev add_conn : HijackedConns E → Conn → HijackedConns E
  add_conn h c = if contains h.conns c then h else record h { conns = c ∷ h.conns }

  unfoldable pub conn_state : HijackedConns E → NetConn → ConnState → HijackedConns E
  conn_state h (tracked c) hijacked = add_conn h c
  conn_state h (tracked c) _ = h
  conn_state h other_conn state = h

  -- len(h.conns)
  unfoldable pub len : HijackedConns E → ℕ
  len h = length h.conns

  module _ (inner_close : Conn → Option E) where
    -- The function that closeOnce runs.
    abbrev close_inner : HijackedConns E → Conn → HijackedConns E
    close_inner h c = record {
      conns = erase h.conns c;
      close_errs = store h.close_errs c (inner_close c);
      inner_closes = c ∷ h.inner_closes;
    }

    -- trackedConn.Close, and the closeErr that it returns.
    unfoldable pub close : HijackedConns E → Conn → HijackedConns E × Option E
    close h c = elim (load h.close_errs c) [
      | some err ↦ (h, err)
      | none ↦ (close_inner h c, inner_close c)
    ]

    unfoldable pub close_each : List Conn → HijackedConns E → HijackedConns E
    unfolding close
    close_each [] h = h
    close_each (c ∷ cs) h = close_each cs (close h c).0

    -- CloseAll; `order` is the order in which the range over the map yields its keys.
    unfoldable pub close_all : List Conn → HijackedConns E → HijackedConns E × ℕ
    unfolding close_each
    close_all order h = (close_each order h, length order)

    -- net/http reports StateHijacked before the handler, and so anything else, can close the connection.
    pub data Step (h : HijackedConns E) : HijackedConns E → Type 0 where
      reports :
          (conn : NetConn) (state : ConnState)
          → ((c : Conn) → conn ≡ tracked c → state ≡ hijacked → load h.close_errs c ≡ none)
          → Step h (conn_state h conn state)
      closes : (c : Conn) → Step h (close h c).0

    pub data Reach : HijackedConns E → Type 0 where
      start : Reach no_conns
      next : {h h' : HijackedConns E} → Reach h → Step h h' → Reach h'

    -- CloseAll while the server and the handlers go on, up to some later moment: the connections that it
    -- found tracked are closed in turn, with any steps of the others before, between and after.
    pub data Closing : List Conn → HijackedConns E → HijackedConns E → Type 0 where
      all_closed : (h : HijackedConns E) → Closing [] h h
      others_step :
          {order : List Conn} {h h1 h' : HijackedConns E}
          → Step h h1
          → Closing order h1 h'
          → Closing order h h'
      closes_next :
          (c : Conn) {order : List Conn} {h h' : HijackedConns E}
          → Closing order (close h c).0 h'
          → Closing (c ∷ order) h h'
