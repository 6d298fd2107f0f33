-- ===== src/Process/Invariant/Moderating.antt =====
-- The branch for moderation events of process_event.go keeps the invariant.
use croissant.Base.{
  ℕ, Option, none, some, List, [], ◌∷◌, String, load, length-set, ◌==◌, nat_eq, string_eq, ◌≡◌,
  refl, Bool-cases, inl, inr, ◌∙◌, Option-cases,
}
use croissant.Nostr.{NostrLib, EventStore, Event, Action, prepared, FoundTag}
use croissant.Nostr.Kinds
use croissant.Groups.{Group, GroupsState, new_group}
use croissant.Groups.Tags.{get_group_id_from_event, get_parent_from_event}
use croissant.Process.Phases.{Outcome}
use croissant.Process.Moderation.{
  put_creator, add_creator, create, apply_action, by_kind, delete_targets, delete_target,
  delete_one, drop_group, act_on, moderate, fresh_group, link_parent, unlink_parent,
}
use croissant.Process.Invariant.Defs.{IsGroupAt, WellFormed, ApplyKeepsId, Leads, Sat, and_then-Sat}
use croissant.Process.Invariant.States.{
  stored, dropped, update_group-Entries, update_all_members-CountsOk, add_parent_child-WellFormed,
  remove_parent_child-WellFormed,
}
use croissant.Process.Invariant.Calls.{issue-WellFormed}

module _ (lib : NostrLib) {Db E : Type 0} (es : EventStore Db E)
    (rec : GroupsState Db → Event → Outcome Db)
    (keeps : (s : GroupsState Db) (event : Event)
      → WellFormed s
      → Leads WellFormed (rec s event)) where
  pub fresh_group-IsGroupAt :
      (s : GroupsState Db) (event : Event) (k : String) → IsGroupAt k (fresh_group lib es s event k)
  unfolding fresh_group new_group
  fresh_group-IsGroupAt s event k = elim (Option-cases (get_parent_from_event lib event)) [
    | inl e ↦ rw (e, fresh_group) (refl, refl)
    | inr (parent, e) ↦ rw (e, fresh_group) (refl, refl)
  ]

  put_creator-WellFormed :
      (event : Event) (k : String) (roles affected : List String) (s : GroupsState Db)
      → WellFormed s
      → Sat WellFormed (put_creator lib es rec event k roles affected s)
  put_creator-WellFormed event k [] affected s v = tt
  put_creator-WellFormed event k (role ∷ roles) affected s v =
      issue-WellFormed lib es rec keeps (add_creator lib es event k role) affected s v

  link_parent-WellFormed :
      (event : Event) (k parent : String) (s : GroupsState Db)
      → WellFormed s
      → Sat WellFormed (link_parent lib es s event k parent)
  unfolding link_parent
  link_parent-WellFormed event k parent s v = elim (Bool-cases (parent == "")) [
    | inl top ↦ rw top v
    | inr some_parent ↦
        rw some_parent (add_parent_child-WellFormed s [] parent k event.created_at v)
  ]

  create-WellFormed :
      (event : Event) (k : String) (s : GroupsState Db)
      → WellFormed s
      → Sat WellFormed (create lib es rec s event k)
  unfolding create
  create-WellFormed event k s v =
      let g = fresh_group lib es s event k in
      let w = stored s k g v (fresh_group-IsGroupAt s event k) in
      and_then-Sat WellFormed (link_parent lib es _ event k g.parent) _
        (link_parent-WellFormed event k g.parent _
          (record { groups_ok = w.groups_ok; cache_ok = w.cache_ok; counts_ok = w.counts_ok }))
        λ s affected v. put_creator-WellFormed event k g.roles _ s v

  delete_one-WellFormed :
      (s : GroupsState Db) (id : ℕ) (o : Db × Option E)
      → WellFormed s
      → WellFormed (delete_one lib es s id o)
  unfolding delete_one
  delete_one-WellFormed s id (db, some e) v = record {
    groups_ok = v.groups_ok;
    cache_ok = v.cache_ok;
    counts_ok = v.counts_ok;
  }
  delete_one-WellFormed s id (db, none) v = record {
    groups_ok = v.groups_ok;
    cache_ok = length-set s.deleted_cache _ id ∙ v.cache_ok;
    counts_ok = v.counts_ok;
  }

  delete_target-WellFormed :
      (s : GroupsState Db) (tag : FoundTag) → WellFormed s → WellFormed (delete_target lib es s tag)
  unfolding delete_target
  delete_target-WellFormed s tag v = elim (Option-cases (lib.id_from_hex tag.value)) [
    | inl e ↦ rw (e, delete_target) v
    | inr (id, e) ↦ rw (e, delete_target) (delete_one-WellFormed s id (es.delete_event s.db id) v)
  ]

  delete_targets-WellFormed :
      (tags : List FoundTag) (s : GroupsState Db)
      → WellFormed s
      → WellFormed (delete_targets lib es tags s)
  unfolding delete_targets
  delete_targets-WellFormed [] s v = v
  delete_targets-WellFormed (tag ∷ tags) s v =
      delete_targets-WellFormed tags (delete_target lib es s tag) (delete_target-WellFormed s tag v)

  unlink_parent-WellFormed :
      (event : Event) (g : Group) (affected : List String) (s : GroupsState Db)
      → WellFormed s
      → Sat WellFormed (unlink_parent lib es s event g affected)
  unfolding unlink_parent
  unlink_parent-WellFormed event g affected s v = elim (Bool-cases (g.parent == "")) [
    | inl top ↦ rw top v
    | inr some_parent ↦
        rw some_parent (remove_parent_child-WellFormed s affected g.parent g.id event.created_at v)
  ]

  drop_group-WellFormed :
      (event : Event) (g : Group) (affected : List String) (s : GroupsState Db)
      → WellFormed s
      → Sat WellFormed (drop_group lib es s event g affected)
  unfolding drop_group
  drop_group-WellFormed event g affected s v =
      and_then-Sat WellFormed (unlink_parent lib es s event g affected) _
        (unlink_parent-WellFormed event g affected s v)
        λ s affected v.
          let w = dropped s g.id v in
          record { groups_ok = w.groups_ok; cache_ok = w.cache_ok; counts_ok = w.counts_ok }

  apply_action-WellFormed :
      ApplyKeepsId lib
      → (event : Event) (act : Action) (k : String) (s : GroupsState Db)
      → lib.prepare_moderation_action event ≡ prepared act
      → WellFormed s
      → WellFormed (apply_action lib es act k s)
  unfolding apply_action
  apply_action-WellFormed same_id event act k s e v = record {
    groups_ok =
        update_group-Entries IsGroupAt s.groups k (λ g. record g { nip = act.apply g.nip })
          v.groups_ok λ g ok. (same_id event act e g.nip ∙ ok.0, ok.1);
    cache_ok = v.cache_ok;
    counts_ok = update_all_members-CountsOk act.shape s.all_members v.counts_ok;
  }

  by_kind-WellFormed :
      (event : Event) (k : String) (s : GroupsState Db) (affected : List String)
      → WellFormed s
      → Sat WellFormed (by_kind lib es event k s affected)
  unfolding by_kind
  by_kind-WellFormed event k s affected v = elim (Bool-cases (event.kind == Kinds.delete_event)) [
    | inl deletes ↦ rw deletes (delete_targets-WellFormed (lib.find_all event.tags "e") s v)
    | inr other ↦ elim (Bool-cases (event.kind == Kinds.delete_group)) [
      | inl drops ↦ elim (Option-cases (load s.groups k)) [
        | inl gone ↦ rw (other, drops, gone, Sat, by_kind) tt
        | inr (g, found) ↦
            rw (other, drops, found, Sat, by_kind) (drop_group-WellFormed event g affected s v)
      ]
      | inr neither ↦ rw (other, neither) v
    ]
  ]

  act_on-WellFormed :
      ApplyKeepsId lib
      → (event : Event) (act : Action) (k : String) (s : GroupsState Db) (affected : List String)
      → lib.prepare_moderation_action event ≡ prepared act
      → WellFormed s
      → Sat WellFormed (act_on lib es event act k s affected)
  unfolding act_on
  act_on-WellFormed same_id event act k s affected e v =
      by_kind-WellFormed event k (apply_action lib es act k s) affected
        (apply_action-WellFormed same_id event act k s e v)

  pub moderate-WellFormed :
      ApplyKeepsId lib
      → (event : Event) (act : Action) (s : GroupsState Db)
      → lib.prepare_moderation_action event ≡ prepared act
      → WellFormed s
      → Sat WellFormed (moderate lib es rec s event act)
  unfolding moderate
  moderate-WellFormed same_id event act s e v =
      elim (Bool-cases (event.kind == Kinds.create_group)) [
        | inl creates ↦ elim (Option-cases (get_group_id_from_event lib event)) [
          | inl nowhere ↦ rw (creates, nowhere, Sat, moderate) v
          | inr (k, at) ↦
              rw (creates, at, Sat, moderate)
                (and_then-Sat WellFormed (create lib es rec s event k) (act_on lib es event act k)
                  (create-WellFormed event k s v)
                  λ s affected v. act_on-WellFormed same_id event act k s affected e v)
        ]
        | inr acts ↦ elim (Option-cases (get_group_id_from_event lib event)) [
          | inl nowhere ↦ rw (acts, nowhere, Sat, moderate) tt
          | inr (k, at) ↦ elim (Option-cases (load s.groups k)) [
            | inl gone ↦ rw (acts, at, gone, Sat, moderate) tt
            | inr (g, found) ↦
                rw (acts, at, found, Sat, moderate) (act_on-WellFormed same_id event act k s [] e v)
          ]
        ]
      ]
