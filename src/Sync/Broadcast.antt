-- ===== src/Sync/Broadcast.antt =====
-- What handleEventSaved of state.go adds to ProcessEvent: renewals of metadata events, and nothing else.
use mathlib.Core.List.{reverse, reverse_aux, reverse_aux-eq}
use croissant.Base.{
  ℕ, ◌++◌, suc, true, none, some, List, [], ◌∷◌, String, Map, load, All, ◌≡◌, refl, sym, ◌∙◌, ap,
  inl, inr, Option-cases, string_eq, ◌⊎◌, contains, eq_self, All-map, arith,
}
use croissant.Nostr.{NostrLib, EventStore, Event, PubKey, Timestamp}
use croissant.Groups.{Group, GroupsState}
use croissant.Process.Phases.{Outcome, panics, out_of_fuel, processed}
use croissant.Process.{process_event}
use croissant.Process.Fuel.{process_event_ends}
use croissant.Sync.{MetadataLib, candidates, sync_group_metadata_events}
use croissant.Sync.Freshness.{IsRenewalOf, sync_group_metadata_events-IsRenewalOf}
use croissant.Sync.Saved.{
  Saved, stopped, detached, saved, broadcast_all, synced, sync_affected, handle_event_saved,
}

-- The broadcasts `b` and, before them, some that satisfy `P`.
pub data Extends (P : Event → Type 0) (b : List Event) : List Event → Type 0 where
  same : Extends P b b
  more : {e : Event} {b' : List Event} → Extends P b b' → P e → Extends P b (e ∷ b')

module _ (lib : NostrLib) (meta : MetadataLib) {Db E : Type 0} (es : EventStore Db E)
    (relay_key : PubKey) (now : Timestamp) where
  -- It renews a metadata event of one of the groups.
  abbrev pub IsRenewalIn : Map String Group → Event → Type 0
  IsRenewalIn groups e =
      (group_id : String) × (group : Group) × (load groups group_id ≡ some group)
      × IsRenewalOf lib meta es relay_key now group.id (candidates lib meta es relay_key now group)
          e

  -- What the renewals change of a state.
  pub record Renewed (s s' : GroupsState Db) : Type 0 where
    pub groups_kept : s'.groups ≡ s.groups
    pub members_kept : s'.all_members ≡ s.all_members
    pub deletions_kept : s'.deleted_groups ≡ s.deleted_groups
    pub cache_kept : s'.deleted_cache ≡ s.deleted_cache
    pub index_kept : s'.deleted_cache_index ≡ s.deleted_cache_index
    pub url_kept : s'.relay_url ≡ s.relay_url
    pub broadcasts_grow : Extends (IsRenewalIn s.groups) s.broadcasts s'.broadcasts

  -- The groups are renewed one after the other, each in the store that the ones before it left, and
  -- what each yields is broadcast in its order.
  pub data Syncs : List String → GroupsState Db → GroupsState Db → Type 0 where
    none_left : (s : GroupsState Db) → Syncs [] s s
    renews :
        (group_id : String) (group : Group) (more_ids : List String) (s t s' : GroupsState Db)
        → load s.groups group_id ≡ some group
        → t.groups ≡ s.groups
        → t.db ≡ (sync_group_metadata_events lib meta es relay_key now group s.db).0
        → t.broadcasts
          ≡ reverse (sync_group_metadata_events lib meta es relay_key now group s.db).1
            ++ s.broadcasts
        → Syncs more_ids t s'
        → Syncs (group_id ∷ more_ids) s s'

  broadcast_all-reverse_aux :
      (evts b : List Event) → broadcast_all lib meta es relay_key now evts b ≡ reverse_aux evts b
  broadcast_all-reverse_aux [] b = refl
  broadcast_all-reverse_aux (e ∷ evts) b = broadcast_all-reverse_aux evts (e ∷ b)

  pub broadcast_all-reverse :
      (evts b : List Event) → broadcast_all lib meta es relay_key now evts b ≡ reverse evts ++ b
  broadcast_all-reverse evts b = broadcast_all-reverse_aux evts b ∙ reverse_aux-eq evts b

  Extends-broadcast_all :
      (P : Event → Type 0) (evts : List Event) {b b' : List Event}
      → All P evts
      → Extends P b b'
      → Extends P b (broadcast_all lib meta es relay_key now evts b')
  Extends-broadcast_all P [] h x = x
  Extends-broadcast_all P (e ∷ evts) (p, h) x = Extends-broadcast_all P evts h (more x p)

  pub step-Renewed :
      (s s' : GroupsState Db) (group_id : String) (group : Group)
      → Renewed s s'
      → load s'.groups group_id ≡ some group
      → Renewed s (
          synced lib meta es relay_key now s'
            (sync_group_metadata_events lib meta es relay_key now group s'.db))
  step-Renewed s s' group_id group r found = record {
    groups_kept = r.groups_kept;
    members_kept = r.members_kept;
    deletions_kept = r.deletions_kept;
    cache_kept = r.cache_kept;
    index_kept = r.index_kept;
    url_kept = r.url_kept;
    broadcasts_grow =
        Extends-broadcast_all (IsRenewalIn s.groups) _
          (All-map
            (IsRenewalOf lib meta es relay_key now group.id
              (candidates lib meta es relay_key now group))
            (IsRenewalIn s.groups)
            (λ e h. (group_id, group, ap (λ m. load m group_id) (sym r.groups_kept) ∙ found, h)) _
            (sync_group_metadata_events-IsRenewalOf lib meta es relay_key now group s'.db))
          r.broadcasts_grow;
  }

  -- The iteration over the affected groups from the state `t`, where `s` was the state before it. It
  -- ends early at a group that has left the map.
  abbrev Iterated : GroupsState Db → GroupsState Db → List String → Saved Db → Type 0
  Iterated s t affected r =
      ((s' : GroupsState Db) × (r ≡ saved s') × Syncs affected t s' × Renewed s s')
      ⊎ ((r ≡ detached)
          × ((group_id : String) × (contains affected group_id ≡ true)
              × (load s.groups group_id ≡ none)))

  more-Iterated :
      (s t : GroupsState Db) (group_id : String) (group : Group) (affected : List String)
      (r : Saved Db)
      → load t.groups group_id ≡ some group
      → Iterated s
          (synced lib meta es relay_key now t
            (sync_group_metadata_events lib meta es relay_key now group t.db))
          affected
          r
      → Iterated s t (group_id ∷ affected) r
  more-Iterated s t group_id group affected r found (inl (s', ended, syncs, kept)) = inl (
    s',
    ended,
    renews group_id group affected t _ s' found refl refl
        (broadcast_all-reverse (sync_group_metadata_events lib meta es relay_key now group t.db).1
          t.broadcasts)
        syncs,
    kept,
  )
  more-Iterated s t group_id group affected r found (inr (out, (id, listed, gone))) =
      inr (out, (id, rw listed (ground arith), gone))

  sync_affected-Iterated :
      (affected : List String) (s t : GroupsState Db)
      → Renewed s t
      → Iterated s t affected (sync_affected lib meta es relay_key now affected t)
  unfolding sync_affected
  sync_affected-Iterated [] s t r = inl (t, refl, none_left t, r)
  sync_affected-Iterated (group_id ∷ affected) s t r =
      elim (Option-cases (load t.groups group_id)) [
        | inl gone ↦
            rw (gone, sync_affected)
              (inr (
                refl,
                (
                  group_id,
                  ground (arith, eq_self group_id),
                  ap (λ m. load m group_id) (sym r.groups_kept) ∙ gone,
                ),
              ))
        | inr (group, found) ↦
            rw (found, sync_affected)
              (more-Iterated s t group_id group affected _ found
                (sync_affected-Iterated affected s _ (step-Renewed s t group_id group r found)))
      ]

  Outcome-cases :
      (o : Outcome Db)
      → (o ≡ panics)
        ⊎ (o ≡ out_of_fuel)
        ⊎ ((s : GroupsState Db) × (affected : List String) × (o ≡ processed s affected))
  Outcome-cases panics = inl refl
  Outcome-cases out_of_fuel = inr (inl refl)
  Outcome-cases (processed s affected) = inr (inr (s, affected, refl))

  pub unchanged-Renewed : (s : GroupsState Db) → Renewed s s
  unchanged-Renewed s = record {
    groups_kept = refl;
    members_kept = refl;
    deletions_kept = refl;
    cache_kept = refl;
    index_kept = refl;
    url_kept = refl;
    broadcasts_grow = same;
  }

  -- The handler of a saved event ends with ProcessEvent: it panics where that does. After it, only
  -- the store and the broadcasts change: each further broadcast renews a metadata event of a live
  -- group. All affected groups are renewed in their order, and what that yields is broadcast, unless
  -- one of them has left the map.
  pub handle_event_saved_lem :
      (fuel : ℕ) (s : GroupsState Db) (event : Event)
      → let r = handle_event_saved lib meta es relay_key now (suc (suc fuel)) s event in
        let o = process_event lib es now (suc (suc fuel)) s event in
        ((o ≡ panics) × (r ≡ stopped))
        ⊎ ((s' : GroupsState Db) × (affected : List String) × (o ≡ processed s' affected)
            × (((s'' : GroupsState Db) × (r ≡ saved s'') × Syncs affected s' s'' × Renewed s' s'')
                ⊎ ((r ≡ detached)
                    × ((group_id : String) × (contains affected group_id ≡ true)
                        × (load s'.groups group_id ≡ none)))))
  unfolding handle_event_saved
  handle_event_saved_lem fuel s event =
      elim (Outcome-cases (process_event lib es now (suc (suc fuel)) s event)) [
        | inl panicked ↦ inl (panicked, rw panicked refl)
        | inr (inl starves) ↦ absurd (process_event_ends lib es now fuel s event starves)
        | inr (inr (s', affected, done)) ↦ inr (
          s',
          affected,
          done,
          rw done (sync_affected-Iterated affected s' s' (unchanged-Renewed s')),
        )
      ]
