-- ===== src/Deleted/Snapshot.antt =====
-- LoadDeletedGroupState of group.go shows the group as it was when it was deleted.
use croissant.Base.{
  true, false, none, some, List, [], ◌∷◌, ◌++◌, String, All, All-map, Option-cases, ◌<◌, ◌≤◌, ◌⊎◌,
  ◌≢◌, arith, load, filter, nat_eq, string_eq, ◌≡◌, refl, sym, ap, ◌∙◌, inl, inr,
}
use croissant.Nostr.{NostrLib, EventStore, Event, Kind, Timestamp, Action, prepared, Prepared-cases}
use croissant.Nostr.Kinds
use croissant.Groups.{Group, GroupsState, DeletedGroup, new_group}
use croissant.Process.Invariant.Defs.{ApplyKeepsId}
use croissant.Deleted.{
  counts_for, apply_one, apply_events, moderation_filter, load_deleted_group_state,
}

-- The event is dated after the deletion, or is itself a deletion of the group.
abbrev pub IsPast : Timestamp → Event → Type 0
IsPast deleted_at event = (event.kind ≡ Kinds.delete_group) ⊎ (deleted_at < event.created_at)

-- The event belongs to the group's history up to its deletion.
abbrev pub IsBefore : Timestamp → Event → Type 0
IsBefore deleted_at event = (event.kind ≢ Kinds.delete_group) × (event.created_at ≤ deleted_at)

IsPast-skipped : (at : Timestamp) (e : Event) → IsPast at e → counts_for at e ≡ false
IsPast-skipped at e (inl deletes) = ground (arith, deletes)
IsPast-skipped at e (inr late) = ground (arith, late)

IsBefore-counts : (at : Timestamp) (e : Event) → IsBefore at e → counts_for at e ≡ true
IsBefore-counts at e (other, early) = ground (arith, other, early)

skipped :
    (at : Timestamp) (later : List Event)
    → All (IsPast at) later
    → All (λ e. counts_for at e ≡ false) later
skipped at later h = All-map (IsPast at) _ (IsPast-skipped at) later h

filter-later :
    (at : Timestamp) (later events : List Event)
    → All (λ e. counts_for at e ≡ false) later
    → filter (counts_for at) (later ++ events) ≡ filter (counts_for at) events
filter-later at [] events h = refl
filter-later at (e ∷ later) events (skipped, h) =
    rw (skipped, filter) (filter-later at later events h)

module _ (lib : NostrLib) {Db E : Type 0} (es : EventStore Db E) (moderation_kinds : List Kind)
    (same_id : ApplyKeepsId lib) where
  apply_events-id :
      (events : List Event) (group : Group)
      → (apply_events lib es moderation_kinds events group).id ≡ group.id
  unfolding apply_events
  apply_events-id [] group = refl
  apply_events-id (e ∷ events) group = elim (Prepared-cases (lib.prepare_moderation_action e)) [
    | inl (why, bad) ↦ rw (bad, apply_one) (apply_events-id events group)
    | inr (act, good) ↦
        rw (good, apply_one)
          (same_id e act good (apply_events lib es moderation_kinds events group).nip
            ∙ apply_events-id events group)
  ]

  abbrev snapshot : GroupsState Db → String → List Event → DeletedGroup → Group × DeletedGroup
  snapshot s group_id events deleted = (
    apply_events lib es moderation_kinds (filter (counts_for deleted.deleted_at) events)
        (new_group s group_id),
    deleted,
  )

  found_deleted :
      (s : GroupsState Db) (group_id : String) (deleted : DeletedGroup)
      → load s.deleted_groups group_id ≡ some deleted
      → load_deleted_group_state lib es moderation_kinds s group_id
        ≡ some (
            snapshot s group_id
              (es.query_events s.db (moderation_filter lib es moderation_kinds group_id) 50000)
              deleted)
  unfolding load_deleted_group_state
  found_deleted s group_id deleted e = rw (e, load_deleted_group_state) refl

  snapshot-acts :
      (s : GroupsState Db) (group_id : String) (event : Event) (act : Action) (events : List Event)
      (deleted : DeletedGroup)
      → IsBefore deleted.deleted_at event
      → lib.prepare_moderation_action event ≡ prepared act
      → let group = (snapshot s group_id events deleted).0 in
        snapshot s group_id (event ∷ events) deleted
        ≡ (record group { nip = act.apply group.nip }, deleted)
  unfolding apply_events
  snapshot-acts s group_id event act events deleted early acts =
      rw (IsBefore-counts deleted.deleted_at event early, filter, acts) refl

  -- The record that comes with the answer, and the group.
  answer :
      (s : GroupsState Db) (group_id : String) (group : Group) (deleted : DeletedGroup)
      → load_deleted_group_state lib es moderation_kinds s group_id ≡ some (group, deleted)
      → (load s.deleted_groups group_id ≡ some deleted)
        × ((snapshot s group_id
              (es.query_events s.db (moderation_filter lib es moderation_kinds group_id) 50000)
              deleted).0
            ≡ group)
  unfolding load_deleted_group_state
  answer s group_id group deleted was = elim (Option-cases (load s.deleted_groups group_id)) [
    | inl missing ↦ cc (rw (missing, load_deleted_group_state) at was)
    | inr (deleted', found) ↦
        let e = sym (found_deleted s group_id deleted' found) ∙ was in
        let same : deleted' ≡ deleted = cc e in
        (
          found ∙ ap some same,
          ap
                (λ d.
                  (snapshot s group_id
                    (es.query_events s.db (moderation_filter lib es moderation_kinds group_id)
                      50000)
                    d).0)
                (sym same)
              ∙ cc e,
        )
  ]

  acts_last :
      (s : GroupsState Db) (db : Db) (group_id : String) (event : Event) (act : Action)
      (deleted : DeletedGroup) (group : Group)
      → load_deleted_group_state lib es moderation_kinds (record s { db = db }) group_id
        ≡ some (group, deleted)
      → IsBefore deleted.deleted_at event
      → lib.prepare_moderation_action event ≡ prepared act
      → es.query_events s.db (moderation_filter lib es moderation_kinds group_id) 50000
        ≡ event ∷ es.query_events db (moderation_filter lib es moderation_kinds group_id) 50000
      → load_deleted_group_state lib es moderation_kinds s group_id
        ≡ some (record group { nip = act.apply group.nip }, deleted)
  unfolding new_group
  acts_last s db group_id event act deleted group was early acts grown =
      let before = es.query_events db (moderation_filter lib es moderation_kinds group_id) 50000 in
      let (found, shown) = answer (record s { db = db }) group_id group deleted was in
      found_deleted s group_id deleted found
      ∙ ap (λ events. some (snapshot s group_id events deleted)) grown
      ∙ ap some (snapshot-acts s group_id event act before deleted early acts)
      ∙ ap (λ g. some (record g { nip = act.apply g.nip }, deleted)) shown

  -- LoadDeletedGroupState finds exactly the ids whose deletion is recorded, and gives a group with that
  -- id together with the record. If the store, since it was `db`, only gained events dated after the
  -- recorded time, or deletions of the group, yielded before the others, then the answer is the same as
  -- it was. An earlier moderation event that is no deletion, yielded before the others, acts on the
  -- group that the others give. It is assumed that the library's actions keep a group's id.
  pub load_deleted_group_state_lem :
      (s : GroupsState Db) (group_id : String)
      → ((deleted : DeletedGroup)
          → load s.deleted_groups group_id ≡ some deleted
          → (group : Group) × (load_deleted_group_state lib es moderation_kinds s group_id
              ≡ some (group, deleted))
            × (group.id ≡ group_id))
        × (load s.deleted_groups group_id ≡ none
            → load_deleted_group_state lib es moderation_kinds s group_id ≡ none)
        × ((db : Db) (later : List Event) (deleted : DeletedGroup)
            → load s.deleted_groups group_id ≡ some deleted
            → All (IsPast deleted.deleted_at) later
            → es.query_events s.db (moderation_filter lib es moderation_kinds group_id) 50000
              ≡ later
                ++ es.query_events db (moderation_filter lib es moderation_kinds group_id) 50000
            → load_deleted_group_state lib es moderation_kinds s group_id
              ≡ load_deleted_group_state lib es moderation_kinds (record s { db = db }) group_id)
        × ((db : Db) (event : Event) (act : Action) (deleted : DeletedGroup) (group : Group)
            → load_deleted_group_state lib es moderation_kinds (record s { db = db }) group_id
              ≡ some (group, deleted)
            → IsBefore deleted.deleted_at event
            → lib.prepare_moderation_action event ≡ prepared act
            → es.query_events s.db (moderation_filter lib es moderation_kinds group_id) 50000
              ≡ event
                ∷ es.query_events db (moderation_filter lib es moderation_kinds group_id) 50000
            → load_deleted_group_state lib es moderation_kinds s group_id
              ≡ some (record group { nip = act.apply group.nip }, deleted))
  unfolding load_deleted_group_state new_group
  load_deleted_group_state_lem s group_id = (
    λ deleted e. (_, found_deleted s group_id deleted e, apply_events-id _ (new_group s group_id)),
    λ e. rw (e, load_deleted_group_state) refl,
    λ db later deleted e h grown.
        let before =
          es.query_events db (moderation_filter lib es moderation_kinds group_id) 50000 in
        found_deleted s group_id deleted e
        ∙ ap (λ events. some (snapshot s group_id events deleted)) grown
        ∙ ap
            (λ events.
              some (apply_events lib es moderation_kinds events (new_group s group_id), deleted))
            (filter-later deleted.deleted_at later before (skipped deleted.deleted_at later h))
        ∙ sym (found_deleted (record s { db = db }) group_id deleted e),
    λ db event act deleted group was early acts grown.
        acts_last s db group_id event act deleted group was early acts grown,
  )
