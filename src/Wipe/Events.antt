-- ===== src/Wipe/Events.antt =====
-- Which events the wiping of a group with wipe.go deletes.
use croissant.Base.{
  ◌≤◌, true, List, [], ◌∷◌, String, contains, count, All, All-map, map, subst, ap, ◌⊎◌, Bool-cases,
  inl, inr, contains-count, eq_of_beq, eq_self, ◌==◌, nat_eq, string_eq, ◌≡◌, refl, arith,
}
use croissant.Nostr.{EventStore, Event, EventId, PubKey}
use croissant.Wipe.{tagged, delete_unseen, delete_events, delete_group_events}

module _ {Db E : Type 0} (es : EventStore Db E) (owner : PubKey) where
  -- The store after DeleteEvent for each of the ids, the last of them first.
  abbrev pub deletes : List EventId → Db → Db
  deletes [] db = db
  deletes (id ∷ earlier) db = (es.delete_event (deletes earlier db) id).0

  abbrev pub by_tag : String → String → Db → List Event
  by_tag key group_id db = es.query_events db (tagged key group_id) 10000000

  abbrev pub IsIdOf : List Event → EventId → Type 0
  IsIdOf evts id = contains (map (λ evt. evt.id) evts) id ≡ true

  -- `deleted` are the ids of all the events under the h tag, and of all that the store then yields under
  -- the d tag, each once and no other; `db'` is what their deletion leaves.
  pub record GroupDeleted (db : Db) (group_id : String) (deleted : List EventId) (db' : Db)
      : Type 0 where
    pub under_h : List EventId
    pub first_h : All (λ evt. contains under_h evt.id ≡ true) (by_tag "h" group_id db)
    pub only_h : (id : EventId) → contains under_h id ≡ true → IsIdOf (by_tag "h" group_id db) id
    pub all_h : All (λ evt. contains deleted evt.id ≡ true) (by_tag "h" group_id db)
    pub all_d :
        All (λ evt. contains deleted evt.id ≡ true) (by_tag "d" group_id (deletes under_h db))
    pub only :
        (id : EventId)
        → contains deleted id ≡ true
        → IsIdOf (by_tag "h" group_id db) id ⊎ IsIdOf (by_tag "d" group_id (deletes under_h db)) id
    pub once : (id : EventId) → count id deleted ≤ 1
    pub left : db' ≡ deletes deleted db

  delete_unseen-once :
      (deleted : List EventId) (db : Db) (evt : Event)
      → ((id : EventId) → count id deleted ≤ 1)
      → (id : EventId) → count id (delete_unseen es owner (deleted, db) evt).0 ≤ 1
  delete_unseen-once deleted db evt once id = elim (Bool-cases (contains deleted evt.id)) [
    | inl seen ↦ rw (seen, delete_unseen) (once id)
    | inr new ↦
        rw (new, delete_unseen)
          (elim (Bool-cases (evt.id == id)) [
            | inl same ↦ ground (arith, eq_of_beq evt.id id same, contains-count deleted evt.id new)
            | inr other ↦ ground (arith, once id)
          ])
  ]

  delete_unseen-keeps :
      (deleted : List EventId) (db : Db) (evt : Event) (id : EventId)
      → contains deleted id ≡ true
      → contains (delete_unseen es owner (deleted, db) evt).0 id ≡ true
  delete_unseen-keeps deleted db evt id here = elim (Bool-cases (contains deleted evt.id)) [
    | inl seen ↦ rw (seen, delete_unseen) here
    | inr new ↦ rw (new, delete_unseen) (ground (arith, here))
  ]

  delete_unseen-own :
      (deleted : List EventId) (db : Db) (evt : Event)
      → contains (delete_unseen es owner (deleted, db) evt).0 evt.id ≡ true
  delete_unseen-own deleted db evt = elim (Bool-cases (contains deleted evt.id)) [
    | inl seen ↦ rw (seen, delete_unseen) seen
    | inr new ↦ rw (new, delete_unseen) (ground (arith, eq_self evt.id))
  ]

  delete_events-once :
      (evts : List Event) (r : List EventId × Db)
      → ((id : EventId) → count id r.0 ≤ 1)
      → (id : EventId) → count id (delete_events es owner evts r).0 ≤ 1
  unfolding delete_events
  delete_events-once [] r once = once
  delete_events-once (evt ∷ evts) (deleted, db) once =
      delete_events-once evts (delete_unseen es owner (deleted, db) evt)
        (delete_unseen-once deleted db evt once)

  delete_events-keeps :
      (evts : List Event) (r : List EventId × Db) (id : EventId)
      → contains r.0 id ≡ true
      → contains (delete_events es owner evts r).0 id ≡ true
  unfolding delete_events
  delete_events-keeps [] r id here = here
  delete_events-keeps (evt ∷ evts) (deleted, db) id here =
      delete_events-keeps evts (delete_unseen es owner (deleted, db) evt) id
        (delete_unseen-keeps deleted db evt id here)

  delete_events-All :
      (evts : List Event) (r : List EventId × Db)
      → All (λ evt. contains (delete_events es owner evts r).0 evt.id ≡ true) evts
  unfolding delete_events
  delete_events-All [] r = tt
  delete_events-All (evt ∷ evts) (deleted, db) =
      let r = delete_unseen es owner (deleted, db) evt in
      (
        delete_events-keeps evts r evt.id (delete_unseen-own deleted db evt),
        delete_events-All evts r,
      )

  delete_unseen-only :
      (deleted : List EventId) (db : Db) (evt : Event) (id : EventId)
      → contains (delete_unseen es owner (deleted, db) evt).0 id ≡ true
      → (contains deleted id ≡ true) ⊎ ((evt.id == id) ≡ true)
  delete_unseen-only deleted db evt id here = elim (Bool-cases (contains deleted evt.id)) [
    | inl seen ↦ inl (rw (seen, delete_unseen) at here)
    | inr new ↦ elim (Bool-cases (evt.id == id)) [
      | inl same ↦ inr same
      | inr other ↦ inl (rw (new, delete_unseen, other) at here)
    ]
  ]

  delete_events-only :
      (evts : List Event) (r : List EventId × Db) (id : EventId)
      → contains (delete_events es owner evts r).0 id ≡ true
      → (contains r.0 id ≡ true) ⊎ IsIdOf evts id
  unfolding delete_events
  delete_events-only [] r id here = inl here
  delete_events-only (evt ∷ evts) (deleted, db) id here =
      elim (delete_events-only evts (delete_unseen es owner (deleted, db) evt) id here) [
        | inr later ↦ inr (ground (arith, later))
        | inl before ↦ elim (delete_unseen-only deleted db evt id before) [
          | inl seen ↦ inl seen
          | inr own ↦ inr (ground (arith, own))
        ]
      ]

  delete_unseen-deletes :
      (deleted : List EventId) (start db : Db) (evt : Event)
      → db ≡ deletes deleted start
      → (delete_unseen es owner (deleted, db) evt).1
        ≡ deletes (delete_unseen es owner (deleted, db) evt).0 start
  delete_unseen-deletes deleted start db evt left = elim (Bool-cases (contains deleted evt.id)) [
    | inl seen ↦ rw (seen, delete_unseen) left
    | inr new ↦ rw (new, delete_unseen) (ap (λ db. (es.delete_event db evt.id).0) left)
  ]

  delete_events-deletes :
      (evts : List Event) (r : List EventId × Db) (start : Db)
      → r.1 ≡ deletes r.0 start
      → (delete_events es owner evts r).1 ≡ deletes (delete_events es owner evts r).0 start
  unfolding delete_events
  delete_events-deletes [] r start left = left
  delete_events-deletes (evt ∷ evts) (deleted, db) start left =
      delete_events-deletes evts (delete_unseen es owner (deleted, db) evt) start
        (delete_unseen-deletes deleted start db evt left)

  not_before :
      (evts : List Event) (id : EventId) → (contains [] id ≡ true) ⊎ IsIdOf evts id → IsIdOf evts id
  not_before evts id (inl impossible) = cc impossible
  not_before evts id (inr here) = here

  -- The wiping of a group calls DeleteEvent for the id of every event that the store yields under the
  -- group's h tag, and of every event that it then yields under its d tag, once for each id, and for no
  -- other; the store is left as these calls leave it.
  pub delete_group_events-GroupDeleted :
      (db : Db) (group_id : String)
      → let (deleted, db') = delete_group_events es owner db group_id in
        GroupDeleted db group_id deleted db'
  unfolding delete_group_events
  delete_group_events-GroupDeleted db group_id =
      let by_h = by_tag "h" group_id db in
      let r = delete_events es owner by_h ([], db) in
      let by_d = by_tag "d" group_id r.1 in
      let left_h = delete_events-deletes by_h ([], db) db refl in
      let all_h = delete_events-All by_h ([], db) in
      let only_h = λ (id : EventId). λ (here : contains r.0 id ≡ true).
        not_before by_h id (delete_events-only by_h ([], db) id here) in
      record {
        under_h = r.0;
        first_h = all_h;
        only_h = only_h;
        all_h =
            All-map (λ evt. contains r.0 evt.id ≡ true) _
              (λ evt here. delete_events-keeps by_d r evt.id here) by_h all_h;
        all_d =
            subst
              (λ db'.
                All (λ evt. contains (delete_events es owner by_d r).0 evt.id ≡ true)
                  (by_tag "d" group_id db'))
              left_h (delete_events-All by_d r);
        only = λ id here.
            subst (λ db'. IsIdOf by_h id ⊎ IsIdOf (by_tag "d" group_id db') id) left_h
              (elim (delete_events-only by_d r id here) [
                | inl before ↦ inl (only_h id before)
                | inr later ↦ inr later
              ]);
        once = delete_events-once by_d r (delete_events-once by_h ([], db) (λ id. omega arith));
        left = delete_events-deletes by_d r db left_h;
      }
