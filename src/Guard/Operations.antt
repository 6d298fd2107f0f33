-- ===== src/Guard/Operations.antt =====
-- The methods of guardedStore in guard.go that make one call of the wrapped store.
use croissant.Base.{ℕ, true, false, Option, none, some, List, ◌≡◌, arith, if◌then◌else◌, nat_eq}
use croissant.Nostr.{Event, EventId, Filter, EventStore}
use croissant.Guard.{StoreGate, enter, exit, StoreError, store_closed, inner_error}

-- A `none` is a panic; otherwise the gate and the database after the call, and what it returns.
abbrev pub Call : Type 0 → Type 0 → Type 0
Call Db R = Option (StoreGate × Db × R)

-- defer s.gate.exit()
abbrev exit_with : {Db R : Type 0} → StoreGate → Db → R → Call Db R
exit_with g db r = elim (exit g) [ none ↦ none | some g' ↦ some (g', db, r) ]

abbrev pub lift_error : {E : Type 0} → Option E → Option (StoreError E)
lift_error none = none
lift_error (some e) = some (inner_error e)

module _ {Db E : Type 0} (inner : EventStore Db E) where
  unfoldable pub delete_event : StoreGate → Db → EventId → Call Db (Option (StoreError E))
  delete_event gate db id =
      let (g, entered) = enter gate in
      let (db', e) = inner.delete_event db id in
      if entered then exit_with g db' (lift_error e) else some (g, db, some store_closed)

  unfoldable pub save_event : StoreGate → Db → Event → Call Db (Option (StoreError E))
  save_event gate db event =
      let (g, entered) = enter gate in
      let (db', e) = inner.save_event db event in
      if entered then exit_with g db' (lift_error e) else some (g, db, some store_closed)

  unfoldable pub replace_event :
      StoreGate → Db → Event → Call Db (List Event × Option (StoreError E))
  replace_event gate db event =
      let (g, entered) = enter gate in
      let (db', (old, e)) = inner.replace_event db event in
      if entered
      then exit_with g db' (old, lift_error e)
      else some (g, db, (List.[], some store_closed))

  unfoldable pub count_events : StoreGate → Db → Filter → Call Db (ℕ × Option (StoreError E))
  count_events gate db filter =
      let (g, entered) = enter gate in
      let (n, e) = inner.count_events db filter in
      if entered then exit_with g db (n, lift_error e) else some (g, db, (0, some store_closed))

  -- The answers of the wrapped store, and an unchanged gate.
  pub record Transparent (gate : StoreGate) (db : Db) : Type 0 where
    pub deletes :
        (id : EventId)
        → let (db', e) = inner.delete_event db id in
          delete_event gate db id ≡ some (gate, db', lift_error e)
    pub saves :
        (event : Event)
        → let (db', e) = inner.save_event db event in
          save_event gate db event ≡ some (gate, db', lift_error e)
    pub replaces :
        (event : Event)
        → let (db', (old, e)) = inner.replace_event db event in
          replace_event gate db event ≡ some (gate, db', (old, lift_error e))
    pub counts :
        (f : Filter)
        → let (n, e) = inner.count_events db f in
          count_events gate db f ≡ some (gate, db, (n, lift_error e))

  -- ErrStoreClosed, and nothing touched.
  pub record Refusing (gate : StoreGate) (db : Db) : Type 0 where
    pub no_delete : (id : EventId) → delete_event gate db id ≡ some (gate, db, some store_closed)
    pub no_save : (event : Event) → save_event gate db event ≡ some (gate, db, some store_closed)
    pub no_replace :
        (event : Event)
        → replace_event gate db event ≡ some (gate, db, (List.[], some store_closed))
    pub no_count : (f : Filter) → count_events gate db f ≡ some (gate, db, (0, some store_closed))

  -- With the gate open each of the four calls is the wrapped store's call, with its answer passed on,
  -- and leaves the gate as it was; with the gate closed each answers ErrStoreClosed, and neither the
  -- database nor the gate changes. Neither case panics.
  pub guarded_calls :
      (gate : StoreGate) (db : Db)
      → (gate.closed ≡ false → Transparent gate db) × (gate.closed ≡ true → Refusing gate db)
  unfolding delete_event save_event replace_event count_events enter exit
  guarded_calls gate db = (
    λ h. record {
      deletes = λ id. ground arith;
      saves = λ event. ground arith;
      replaces = λ event. ground arith;
      counts = λ f. ground arith;
    },
    λ h. record {
      no_delete = λ id. ground arith;
      no_save = λ event. ground arith;
      no_replace = λ event. ground arith;
      no_count = λ f. ground arith;
    },
  )
