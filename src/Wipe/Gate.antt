-- ===== src/Wipe/Gate.antt =====
-- Who can wipe a group with wipe.go, and what that changes.
use croissant.Base.{
  ◌-◌, true, false, Option, none, some, List, String, load, keys, count, Option-cases, Bool-cases,
  inl, inr, load-delete_self, load-delete_other, ◌==◌, nat_eq, string_eq, ◌≡◌, refl, ◌≢◌,
}
use croissant.Nostr.{EventStore, EventId, PubKey}
use croissant.Groups.{Group, GroupsState}
use croissant.Process.Members.{update_all_members}
use croissant.Process.Effects.Counts.{members_count, update_all_members-counts}
use croissant.Wipe.{redirected, wipe, is_owner, wipe_group_handler}
use croissant.Wipe.Events.{GroupDeleted, delete_group_events-GroupDeleted}

module _ {Db E : Type 0} (es : EventStore Db E) (owner : PubKey) where
  -- The group and its events are gone, the other groups stand, each member is counted once less, and
  -- nothing else changes.
  pub record Wiped (s : GroupsState Db) (group_id : String) (group : Group) (s' : GroupsState Db)
      : Type 0 where
    pub group_gone : load s'.groups group_id ≡ none
    pub others_kept :
        (id : String) → (group_id == id) ≡ false → load s'.groups id ≡ load s.groups id
    pub counted_less :
        (pk : PubKey)
        → members_count s'.all_members pk
          ≡ members_count s.all_members pk - count pk (keys group.members)
    pub events_gone : (deleted : List EventId) × GroupDeleted es owner s.db group_id deleted s'.db
    pub records_kept : s'.deleted_groups ≡ s.deleted_groups
    pub cache_kept : s'.deleted_cache ≡ s.deleted_cache
    pub index_kept : s'.deleted_cache_index ≡ s.deleted_cache_index
    pub url_kept : s'.relay_url ≡ s.relay_url
    pub broadcasts_kept : s'.broadcasts ≡ s.broadcasts

  wipe-Wiped :
      (s : GroupsState Db) (group_id : String) (group : Group)
      → Wiped s group_id group (wipe es owner s group_id group)
  unfolding wipe update_all_members
  wipe-Wiped s group_id group = record {
    group_gone = load-delete_self s.groups group_id;
    others_kept = λ id other. load-delete_other s.groups group_id id other;
    counted_less = λ pk. (update_all_members-counts s.all_members pk).1 (keys group.members);
    events_gone = (_, delete_group_events-GroupDeleted es owner s.db group_id);
    records_kept = refl;
    cache_kept = refl;
    index_kept = refl;
    url_kept = refl;
    broadcasts_kept = refl;
  }

  -- The handler redirects exactly when the owner is logged in and the group is live; it then deletes
  -- all events under the group's h and d tags, each once, leaves the group out of the active groups,
  -- which are otherwise as before, counts each of its members once less, and changes nothing else: no
  -- deletion is recorded. In every other case the state is as it was.
  pub wipe_group_handler-Wiped :
      (s : GroupsState Db) (logged : Option PubKey) (group_id : String)
      → let (s', response) = wipe_group_handler es owner s logged group_id in
        (response ≡ redirected
          → (is_owner es owner logged ≡ true)
            × ((group : Group) × (load s.groups group_id ≡ some group) × Wiped s group_id group s'))
        × (is_owner es owner logged ≡ true
            → (group : Group) → load s.groups group_id ≡ some group
            → response ≡ redirected)
        × (response ≢ redirected → s' ≡ s)
  unfolding wipe_group_handler
  wipe_group_handler-Wiped s logged group_id = elim (Bool-cases (is_owner es owner logged)) [
    | inr stranger ↦ rw (stranger, wipe_group_handler) ((λ e. cc), (λ h group e. cc), λ h. refl)
    | inl owns ↦ elim (Option-cases (load s.groups group_id)) [
      | inl missing ↦
          rw (owns, missing, wipe_group_handler) ((λ e. cc), (λ h group e. cc), λ h. refl)
      | inr (group, live) ↦
          rw (owns, live, wipe_group_handler)
            (
              (λ e. (refl, (group, refl, wipe-Wiped s group_id group))),
              (λ h group e. refl),
              λ h. absurd (h refl),
            )
    ]
  ]
