-- ===== src/Process/Effects/Deletion.antt =====
-- What a kind:9008 event does in process_event.go.
use croissant.Base.{
  ℕ, suc, true, false, none, some, List, [], String, load, store, ◌⊎◌, load-store_self,
  load-store_other, load-delete_self, load-delete_other, ◌==◌, nat_eq, string_eq, ◌≡◌, refl, ◌∙◌,
  ap, subst,
}
use croissant.Nostr.{NostrLib, EventStore, Event, Action, Shape, prepared}
use croissant.Nostr.Kinds
use croissant.Groups.{Group, GroupsState}
use croissant.Groups.Tags.{get_group_id_from_event}
use croissant.Process.Members.{update_all_members}
use croissant.Process.Phases.{Outcome, panics, processed, Phase, returns}
use croissant.Process.Moderation.{drop_group, apply_action, by_kind, act_on, moderate}
use croissant.Process.{process_with, process_event}
use croissant.Process.Effects.Unlinking.{Unlinked, GoesOn, unlink_parent-GoesOn}

module _ {Db : Type 0} where
  -- The group's own entry is gone and recorded as deleted, and its parent loses the child. A group
  -- without a parent changes no other entry.
  pub record Dropped (s : GroupsState Db) (event : Event) (id parent : String) (s' : GroupsState Db)
      (affected : List String) : Type 0 where
    pub group_gone : load s'.groups id ≡ none
    pub recorded :
        load s'.deleted_groups id
        ≡ some (record { id = id; deleted_at = event.created_at; deleted_by = event.pub_key })
    pub parent_unlinked : (id == parent) ≡ false → Unlinked s event id parent s' affected
    pub others_kept :
        (j : String)
        → (id == j) ≡ false
        → (parent == "") ≡ true ⊎ (parent == j) ≡ false
        → load s'.groups j ≡ load s.groups j
    pub records_kept :
        (j : String) → (id == j) ≡ false → load s'.deleted_groups j ≡ load s.deleted_groups j
    pub store_kept : s'.db ≡ s.db
    pub counts_kept : s'.all_members ≡ s.all_members

module _ (lib : NostrLib) {Db E : Type 0} (es : EventStore Db E) where
  abbrev Drops : GroupsState Db → Event → String → String → Phase Db → Type 0
  Drops s event id parent p =
      (s' : GroupsState Db) × (affected : List String) × (p ≡ returns (processed s' affected))
      × Dropped s event id parent s' affected

  drop_group-Drops :
      (s : GroupsState Db) (event : Event) (group : Group) (affected : List String)
      → Drops s event group.id group.parent (drop_group lib es s event group affected)
  unfolding drop_group GoesOn
  drop_group-Drops s event group affected =
      let (s', affected', e, only) = unlink_parent-GoesOn lib es s event group affected in
      rw e (
        _,
        affected',
        refl,
        record {
          group_gone = load-delete_self s'.groups group.id;
          recorded = load-store_self s'.deleted_groups group.id _;
          parent_unlinked = λ apart. record {
            listed = λ p found child here.
                let (left, noted) = only.at.listed p found child here in
                (load-delete_other s'.groups group.id group.parent apart ∙ left, noted);
            unlisted = λ p found absent.
                load-delete_other s'.groups group.id group.parent apart
                ∙ only.at.unlisted p found absent;
          };
          others_kept = λ j other not_parent.
              load-delete_other s'.groups group.id j other ∙ only.others j not_parent;
          records_kept = λ j other.
              load-store_other s'.deleted_groups group.id _ j other
              ∙ ap (λ m. load m j) only.records;
          store_kept = only.db;
          counts_kept = only.counts;
        },
      )

  abbrev acted : GroupsState Db → String → Group → Action → GroupsState Db
  acted s id group act = record s {
    groups = store s.groups id (record group { nip = act.apply group.nip });
  }

  apply_action-acted :
      (s : GroupsState Db) (act : Action) (id : String) (group : Group)
      → act.shape ≡ Shape.delete_group
      → load s.groups id ≡ some group
      → apply_action lib es act id s ≡ acted s id group act
  unfolding apply_action update_all_members
  apply_action-acted s act id group shape found =
      let changed =
        ap
          (λ o. elim o [
            | none ↦ s.groups
            | some g ↦ store s.groups id (record g { nip = act.apply g.nip })
          ])
          found in
      let kept = ap (λ shape. update_all_members shape s.all_members) shape in
      ap
        (λ groups. record s {
          groups = groups;
          all_members = update_all_members act.shape s.all_members;
        })
        changed
      ∙ ap (λ counts. record (acted s id group act) { all_members = counts }) kept

  by_kind-drop_group :
      (s : GroupsState Db) (event : Event) (id : String) (group : Group)
      → event.kind ≡ Kinds.delete_group
      → load s.groups id ≡ some group
      → by_kind lib es event id s [] ≡ drop_group lib es s event group []
  unfolding by_kind
  by_kind-drop_group s event id group kind found =
      let not_event : (event.kind == Kinds.delete_event) ≡ false = simp kind refl in
      let deletes : (event.kind == Kinds.delete_group) ≡ true = simp kind refl in
      rw (not_event, deletes, found) refl

  moderate-act_on :
      (rec : GroupsState Db → Event → Outcome Db) (s : GroupsState Db) (event : Event)
      (act : Action) (id : String) (group : Group)
      → event.kind ≡ Kinds.delete_group
      → get_group_id_from_event lib event ≡ some id
      → load s.groups id ≡ some group
      → moderate lib es rec s event act ≡ act_on lib es event act id s []
  unfolding moderate
  moderate-act_on rec s event act id group kind tagged found =
      let not_create : (event.kind == Kinds.create_group) ≡ false = simp kind refl in
      rw (not_create, tagged)
        (ap (λ o. elim o [ none ↦ returns panics | some _ ↦ act_on lib es event act id s [] ])
          found)

  moderate-drop_group :
      (rec : GroupsState Db → Event → Outcome Db) (s : GroupsState Db) (event : Event)
      (act : Action) {id : String} {group : Group}
      → event.kind ≡ Kinds.delete_group
      → act.shape ≡ Shape.delete_group
      → get_group_id_from_event lib event ≡ some id
      → load s.groups id ≡ some group
      → moderate lib es rec s event act
        ≡ drop_group lib es
            (acted s id group act)
            event
            (record group { nip = act.apply group.nip })
            []
  unfolding act_on
  moderate-drop_group rec s event act {id} {group} kind shape tagged found =
      let group' : Group = record group { nip = act.apply group.nip } in
      moderate-act_on rec s event act id group kind tagged found
      ∙ ap (λ s. by_kind lib es event id s []) (apply_action-acted s act id group shape found)
      ∙ by_kind-drop_group (acted s id group act) event id group' kind
          (load-store_self s.groups id group')

  acted-Dropped :
      (s : GroupsState Db) (event : Event) (act : Action) (id : String) (group : Group)
      (s' : GroupsState Db) (affected : List String)
      → Dropped (acted s id group act) event id group.parent s' affected
      → Dropped s event id group.parent s' affected
  acted-Dropped s event act id group s' affected d = record {
    group_gone = d.group_gone;
    recorded = d.recorded;
    parent_unlinked = λ apart.
        let same = load-store_other s.groups id _ group.parent apart in
        record {
          listed = λ p found. (d.parent_unlinked apart).listed p (same ∙ found);
          unlisted = λ p found. (d.parent_unlinked apart).unlisted p (same ∙ found);
        };
    others_kept = λ j other not_parent.
        d.others_kept j other not_parent ∙ load-store_other s.groups id _ j other;
    records_kept = d.records_kept;
    store_kept = d.store_kept;
    counts_kept = d.counts_kept;
  }

  -- A kind:9008 event of a live group, with the library's deletion as its action, takes the group out
  -- of the active groups and records it with the time and the author of the event. A live parent that
  -- listed the group as a child lists it once less, dated by the event where that is later, and is
  -- returned as affected; a parent that did not list it, and all the other active groups, stay as they
  -- were. The other deletions stay recorded, and neither the store nor the counts of AllMembers change:
  -- the members of a deleted group stay counted.
  pub process_event-Dropped :
      (now fuel : ℕ) (s : GroupsState Db) (event : Event) {act : Action} {id : String}
      {group : Group}
      → event.kind ≡ Kinds.delete_group
      → lib.prepare_moderation_action event ≡ prepared act
      → act.shape ≡ Shape.delete_group
      → get_group_id_from_event lib event ≡ some id
      → load s.groups id ≡ some group
      → (act.apply group.nip).id ≡ id
      → (s' : GroupsState Db) × (affected : List String) × (process_event lib es now
            (suc fuel)
            s
            event
          ≡ processed s' affected)
        × Dropped s event id group.parent s' affected
  unfolding process_event process_with
  process_event-Dropped now fuel s event {act} {id} {group} kind acts shape tagged found same =
      let (s', affected, e, d) =
        drop_group-Drops (acted s id group act) event (record group { nip = act.apply group.nip })
          [] in
      let run =
        moderate-drop_group (process_event lib es now fuel) s event act kind shape tagged found
        ∙ e in
      (
        s',
        affected,
        rw (acts, run, process_with) refl,
        acted-Dropped s event act id group s' affected
            (subst (λ i. Dropped (acted s id group act) event i group.parent s' affected) same d),
      )
