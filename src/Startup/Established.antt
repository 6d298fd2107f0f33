-- ===== src/Startup/Established.antt =====
-- loadGroupsFromDB of group.go establishes the invariant that process_event.go keeps.
use croissant.Base.{
  ℕ, zero, suc, ◌≤◌, Bool, Option, none, some, List, [], ◌∷◌, String, Map, load, set, keys, length,
  length-set, Entries-store, ◌==◌, nat_eq, string_eq, ◌≡◌, ◌≢◌, refl, ◌∙◌, arith, Option-cases,
  Bool-cases, inl, inr, subst,
}
use croissant.Nostr.Kinds
use croissant.Nostr.{
  Filter, empty_filter, NostrLib, EventStore, Event, EventId, Kind, PubKey, Prepared-cases,
}
use croissant.Groups.{Group, GroupsState, empty_state}
use croissant.Groups.Tags.{get_group_id_from_event}
use croissant.Groups.Children.{add_parent_child}
use croissant.Process.Moderation.{fresh_group}
use croissant.Process.Phases.{panics, note_parent}
use croissant.Process.Invariant.Moderating.{fresh_group-IsGroupAt}
use croissant.Process.Invariant.Defs.{IsGroupAt, CountsOk, WellFormed, ApplyKeepsId, Sat}
use croissant.Process.Invariant.States.{update_all_members-CountsOk, add_parent_child-WellFormed}
use croissant.Startup.{
  Scan, deleted_by_event, all_events, fill_last50, apply_prepared, replay, of_group, put_loaded,
  load_scanned, load_one, load_each, link_child, link_children, load_groups_from_db,
}

length-fill_last50 :
    (n : ℕ) (evts : List Event) (last50 : List EventId) {l : List EventId}
    → fill_last50 n evts last50 ≡ some l
    → length l ≡ length last50
length-fill_last50 n [] last50 h = ground (arith, h)
length-fill_last50 zero (evt ∷ evts) last50 h = cc
length-fill_last50 (suc i) (evt ∷ evts) last50 h =
    length-fill_last50 i evts (set last50 i evt.id) h ∙ length-set last50 i evt.id

module _ (lib : NostrLib) {Db E : Type 0} (es : EventStore Db E) (moderation_kinds : List Kind)
    (same_id : ApplyKeepsId lib) where
  Loaded : String → Group × Map PubKey ℕ → Type 0
  Loaded k (group, counts) = IsGroupAt k group × CountsOk counts

  apply_prepared-Loaded :
      (evt : Event) (k : String) (r : Group × Map PubKey ℕ)
      → Loaded k r
      → Loaded k (apply_prepared lib es moderation_kinds (lib.prepare_moderation_action evt) r)
  unfolding Loaded
  apply_prepared-Loaded evt k (group, counts) (at, ok) =
      elim (Prepared-cases (lib.prepare_moderation_action evt)) [
        | inl (why, e) ↦ rw (e, apply_prepared) (at, ok)
        | inr (act, e) ↦
            rw (e, apply_prepared)
              (
                (same_id evt act e group.nip ∙ at.0, at.1),
                update_all_members-CountsOk act.shape counts ok,
              )
      ]

  replay-Loaded :
      (evts : List Event) (k : String) (r : Group × Map PubKey ℕ)
      → Loaded k r
      → Loaded k (replay lib es moderation_kinds evts r)
  unfolding replay
  replay-Loaded [] k r h = h
  replay-Loaded (evt ∷ evts) k r h = apply_prepared-Loaded evt k _ (replay-Loaded evts k r h)

  fresh_group-Loaded :
      (s : GroupsState Db) (evt : Event) (k : String)
      → CountsOk s.all_members
      → Loaded k (fresh_group lib es s evt k, s.all_members)
  unfolding Loaded
  fresh_group-Loaded s evt k ok =
      (fresh_group-IsGroupAt lib es (λ s e. panics) (λ s e v. tt) s evt k, ok)

  -- A state, if there is one, is well formed.
  Holds : Option (GroupsState Db) → Type 0
  Holds none = Unit
  Holds (some s) = WellFormed s

  put_loaded-Holds :
      (s : GroupsState Db) (k : String) (r : Group × Map PubKey ℕ) (last50 : Option (List EventId))
      → WellFormed s
      → Loaded k r
      → ((l : List EventId) → last50 ≡ some l → length l ≡ 50)
      → Holds (put_loaded lib es moderation_kinds s r last50)
  unfolding Holds Loaded
  put_loaded-Holds s k (group, counts) none v (at, ok) full = tt
  put_loaded-Holds s k (group, counts) (some last50) v (at, ok) full = record {
    groups_ok =
        Entries-store IsGroupAt s.groups group.id (record group { last50 = last50 }) v.groups_ok
          (refl, full last50 refl);
    cache_ok = v.cache_ok;
    counts_ok = ok;
  }

  load_scanned-Holds :
      (s : GroupsState Db) (evt : Event) (k : String) (found : Scan)
      → WellFormed s
      → Holds (load_scanned lib es moderation_kinds s evt k found)
  unfolding Loaded
  load_scanned-Holds s evt k (deleted_by_event event) v =
      unfold Holds in
      record { groups_ok = v.groups_ok; cache_ok = v.cache_ok; counts_ok = v.counts_ok }
  load_scanned-Holds s evt k (all_events events) v =
      let r = replay lib es moderation_kinds events (fresh_group lib es s evt k, s.all_members) in
      let loaded = replay-Loaded events k _ (fresh_group-Loaded s evt k v.counts_ok) in
      let recent = es.query_events s.db (of_group lib es moderation_kinds [] k) 50 in
      put_loaded-Holds s k r (fill_last50 50 recent r.0.last50) v loaded
        λ l e. length-fill_last50 50 recent r.0.last50 e ∙ loaded.0.1

  load_one-Holds :
      (s : GroupsState Db) (evt : Event)
      → WellFormed s
      → Holds (load_one lib es moderation_kinds s evt)
  unfolding load_one
  load_one-Holds s evt v = elim (Option-cases (get_group_id_from_event lib evt)) [
    | inl nowhere ↦ rw (nowhere, load_one) (unfold Holds in v)
    | inr (k, at) ↦ rw (at, load_one) (load_scanned-Holds s evt k _ v)
  ]

  load_each-Holds :
      (evts : List Event) (s : GroupsState Db)
      → WellFormed s
      → Holds (load_each lib es moderation_kinds evts s)
  unfolding load_each Holds
  load_each-Holds [] s v = v
  load_each-Holds (evt ∷ evts) s v =
      let one = load_one-Holds s evt v in
      elim (Option-cases (load_one lib es moderation_kinds s evt)) [
        | inl stops ↦ rw (stops, load_each) tt
        | inr (s1, on) ↦ rw (on, load_each) (load_each-Holds evts s1 (rw on at one))
      ]

  noted :
      (r : GroupsState Db × Option String × Bool)
      → Sat WellFormed (note_parent [] r)
      → WellFormed r.0
  noted (s, none, changed) v = v
  noted (s, some parent, changed) v = v

  link_child-WellFormed :
      (s : GroupsState Db) (child : Option Group)
      → WellFormed s
      → WellFormed (link_child lib es moderation_kinds s child)
  link_child-WellFormed s none v = v
  link_child-WellFormed s (some child) v = elim (Bool-cases (child.parent == "")) [
    | inl top ↦ rw (top, link_child) v
    | inr under ↦
        rw (under, link_child)
          (noted (add_parent_child s child.parent child.id child.last_metadata_update)
            (add_parent_child-WellFormed s [] child.parent child.id child.last_metadata_update v))
  ]

  link_children-WellFormed :
      (ids : List String) (s : GroupsState Db)
      → WellFormed s
      → WellFormed (link_children lib es moderation_kinds ids s)
  unfolding link_children
  link_children-WellFormed [] s v = v
  link_children-WellFormed (id ∷ ids) s v =
      link_children-WellFormed ids _ (link_child-WellFormed s (load s.groups id) v)

  empty_state-WellFormed : (db : Db) (relay_url : String) → WellFormed (empty_state db relay_url)
  unfolding empty_state
  empty_state-WellFormed db relay_url = record {
    groups_ok = λ k g e. cc;
    cache_ok = refl;
    counts_ok = λ pk n e. cc;
  }

  -- The state that loadGroupsFromDB leaves, whatever the store holds, is well formed: each group stands
  -- under its own id with a ring of 50 recent ids, the ring of deleted ids has 128, and every count of
  -- AllMembers is positive. It is assumed that the library's actions keep a group's id.
  load_groups_from_db-WellFormed :
      (db : Db) (relay_url : String) {s : GroupsState Db}
      → load_groups_from_db lib es moderation_kinds db relay_url ≡ some s
      → WellFormed s
  unfolding load_groups_from_db Holds
  load_groups_from_db-WellFormed db relay_url {s} h =
      let creations =
        es.query_events db (record empty_filter { kinds = Kinds.create_group ∷ [] }) 500000 in
      let each =
        load_each-Holds creations (empty_state db relay_url)
          (empty_state-WellFormed db relay_url) in
      elim (Option-cases (load_each lib es moderation_kinds creations (empty_state db relay_url))) [
        | inl stops ↦ cc (rw stops at h)
        | inr (s1, on) ↦
            let found : link_children lib es moderation_kinds (keys s1.groups) s1 ≡ s =
              cc (rw on at h) in
            subst WellFormed found (link_children-WellFormed (keys s1.groups) s1 (rw on at each))
      ]

  fills :
      (n : ℕ) (evts : List Event) (last50 : List EventId)
      → length evts ≤ n
      → fill_last50 n evts last50 ≢ none
  fills n [] last50 h e = cc
  fills zero (evt ∷ evts) last50 h e = absurd (omega arith)
  fills (suc i) (evt ∷ evts) last50 h e = fills i evts (set last50 i evt.id) (omega arith) e

  -- QueryEvents of the mmm store takes maxLimit as the most events that it returns, except where the
  -- filter names ids; the queries here name none.
  module _
      (limited : (db : Db) (f : Filter) (n : ℕ)
        → f.ids ≡ none
        → length (es.query_events db f n) ≤ n) where
    put_loaded-total :
        (s : GroupsState Db) (r : Group × Map PubKey ℕ) (last50 : Option (List EventId))
        → last50 ≢ none
        → put_loaded lib es moderation_kinds s r last50 ≢ none
    put_loaded-total s (group, counts) none full e = full refl
    put_loaded-total s (group, counts) (some l) full e = cc

    load_scanned-total :
        (s : GroupsState Db) (evt : Event) (k : String) (found : Scan)
        → load_scanned lib es moderation_kinds s evt k found ≢ none
    load_scanned-total s evt k (deleted_by_event event) e = cc
    load_scanned-total s evt k (all_events events) e =
        put_loaded-total s
          (replay lib es moderation_kinds events (fresh_group lib es s evt k, s.all_members)) _
          (fills 50 _ _ (limited s.db (of_group lib es moderation_kinds [] k) 50 refl)) e

    load_one-total :
        (s : GroupsState Db) (evt : Event) → load_one lib es moderation_kinds s evt ≢ none
    unfolding load_one
    load_one-total s evt e = elim (Option-cases (get_group_id_from_event lib evt)) [
      | inl nowhere ↦ cc (rw (nowhere, load_one) at e)
      | inr (k, at) ↦ load_scanned-total s evt k _ (rw (at, load_one) at e)
    ]

    load_each-total :
        (evts : List Event) (s : GroupsState Db) → load_each lib es moderation_kinds evts s ≢ none
    unfolding load_each
    load_each-total [] s e = cc
    load_each-total (evt ∷ evts) s e =
        elim (Option-cases (load_one lib es moderation_kinds s evt)) [
          | inl stops ↦ load_one-total s evt stops
          | inr (s1, on) ↦ load_each-total evts s1 (rw (on, load_each) at e)
        ]

    -- When the store yields no more events than it was asked for on a filter that names no ids,
    -- loadGroupsFromDB does not panic: it leaves a state, and that state is well formed.
    pub load_groups_from_db_ends :
        (db : Db) (relay_url : String)
        → (s : GroupsState Db) × (load_groups_from_db lib es moderation_kinds db relay_url ≡ some s)
          × WellFormed s
    unfolding load_groups_from_db
    load_groups_from_db_ends db relay_url =
        let creations =
          es.query_events db (record empty_filter { kinds = Kinds.create_group ∷ [] }) 500000 in
        elim (Option-cases
          (load_each lib es moderation_kinds creations (empty_state db relay_url))) [
            | inl stops ↦ absurd (load_each-total creations (empty_state db relay_url) stops)
            | inr (s1, on) ↦
                let found : load_groups_from_db lib es moderation_kinds db relay_url
                    ≡ some (link_children lib es moderation_kinds (keys s1.groups) s1) =
                  rw on refl in
                (
                  link_children lib es moderation_kinds (keys s1.groups) s1,
                  found,
                  load_groups_from_db-WellFormed db relay_url found,
                )
          ]
