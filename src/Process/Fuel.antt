-- ===== src/Process/Fuel.antt =====
-- The recursion of ProcessEvent in process_event.go ends: it calls itself only on events that put or
-- remove a user, and those call it no more.
use croissant.Base.{
  ℕ, suc, Bool, Option, none, some, List, [], ◌∷◌, String, load, has, append_unique, ◌&&◌, ◌==◌,
  nat_eq, string_eq, ◌≡◌, ◌≢◌, ◌⊎◌, inl, inr, arith, refl, Option-cases, Bool-cases,
}
use croissant.Nostr.{Timestamp, NostrLib, EventStore, Event, Kind, Action, Prepared-cases}
use croissant.Nostr.Kinds
use croissant.Groups.{Group, GroupsState}
use croissant.Groups.Tags.{get_group_id_from_event}
use croissant.Groups.Children.{add_parent_child, remove_parent_child}
use croissant.Process.Phases.{
  Outcome, panics, out_of_fuel, processed, Phase, returns, goes_on, and_then, finish, note_parent,
  issue, issue_saved, after_nested, with_signature, push_last50,
}
use croissant.Process.Moderation.{
  add_creator, put_creator, create, link_parent, drop_group, unlink_parent, apply_action, by_kind,
  act_on, moderate, fresh_group,
}
use croissant.Process.Reactions.{add_user, self_removal, join, leave, remember, react}
use croissant.Process.{process_with, process_event}

abbrev IsRoster : Kind → Type 0
IsRoster k = (k ≡ Kinds.put_user) ⊎ (k ≡ Kinds.remove_user)

abbrev Fueled : {Db : Type 0} → Phase Db → Type 0
Fueled (returns o) = o ≢ out_of_fuel
Fueled (goes_on s affected) = Unit

module _ {Db : Type 0} where
  and_then-Fueled :
      (p : Phase Db) (f : GroupsState Db → List String → Phase Db)
      → Fueled p
      → ((s : GroupsState Db) (affected : List String) → Fueled (f s affected))
      → Fueled (and_then p f)
  and_then-Fueled (returns o) f h k = h
  and_then-Fueled (goes_on s affected) f h k = k s affected

  finish-Fueled : (p : Phase Db) → Fueled p → finish p ≢ out_of_fuel
  finish-Fueled (returns o) h = h
  finish-Fueled (goes_on s affected) h = λ e. cc

  note_parent-Fueled :
      (affected : List String) (r : GroupsState Db × Option String × Bool)
      → Fueled (note_parent affected r)
  note_parent-Fueled affected (s, none, changed) = tt
  note_parent-Fueled affected (s, some parent, changed) = tt

  after_nested-Fueled :
      (event : Event) (affected : List String) (o : Outcome Db)
      → o ≢ out_of_fuel
      → Fueled (after_nested event affected o)
  after_nested-Fueled event affected panics h = h
  after_nested-Fueled event affected out_of_fuel h = h
  after_nested-Fueled event affected (processed s nested) h = tt

-- `event` is the event that is processed; its recursive calls have fuel.
module _ (lib : NostrLib) {Db E : Type 0} (es : EventStore Db E)
    (rec : GroupsState Db → Event → Outcome Db) (event : Event)
    (calls : (s : GroupsState Db) (e : Event)
      → IsRoster e.kind
      → ¬ IsRoster event.kind
      → rec s e ≢ out_of_fuel) where
  issue_saved-Fueled :
      (e : Event) (affected : List String) (s : GroupsState Db) (saved : Db × Option E)
      → IsRoster e.kind
      → ¬ IsRoster event.kind
      → Fueled (issue_saved lib es rec e affected s saved)
  unfolding issue_saved
  issue_saved-Fueled e affected s (db, some err) r top = λ h. cc
  issue_saved-Fueled e affected s (db, none) r top =
      after_nested-Fueled e affected _ (calls (record s { db = db }) e r top)

  issue-Fueled :
      (e : Event) (affected : List String) (s : GroupsState Db)
      → IsRoster e.kind
      → ¬ IsRoster event.kind
      → Fueled (issue lib es rec e affected s)
  unfolding issue
  issue-Fueled e affected s r top = elim (Option-cases (lib.sign e)) [
    | inl unsigned ↦ rw (unsigned, Fueled, issue) (λ h. cc)
    | inr (signed, done) ↦
        rw (done, Fueled, issue) (issue_saved-Fueled (with_signature e signed) affected s _ r top)
  ]

  put_creator-Fueled :
      (k : String) (roles affected : List String) (s : GroupsState Db)
      → ¬ IsRoster event.kind
      → Fueled (put_creator lib es rec event k roles affected s)
  put_creator-Fueled k [] affected s top = λ h. cc
  put_creator-Fueled k (role ∷ roles) affected s top =
      issue-Fueled (add_creator lib es event k role) affected s (inl refl) top

  link_parent-Fueled :
      (k parent : String) (s : GroupsState Db) → Fueled (link_parent lib es s event k parent)
  unfolding link_parent
  link_parent-Fueled k parent s = elim (Bool-cases (parent == "")) [
    | inl top ↦ rw top tt
    | inr some_parent ↦
        rw some_parent (note_parent-Fueled [] (add_parent_child s parent k event.created_at))
  ]

  create-Fueled :
      (k : String) (s : GroupsState Db)
      → ¬ IsRoster event.kind
      → Fueled (create lib es rec s event k)
  unfolding create
  create-Fueled k s top =
      let g = fresh_group lib es s event k in
      and_then-Fueled (link_parent lib es _ event k g.parent) _ (link_parent-Fueled k g.parent _)
        λ s affected. put_creator-Fueled k g.roles _ s top

  unlink_parent-Fueled :
      (g : Group) (affected : List String) (s : GroupsState Db)
      → Fueled (unlink_parent lib es s event g affected)
  unfolding unlink_parent
  unlink_parent-Fueled g affected s = elim (Bool-cases (g.parent == "")) [
    | inl top ↦ rw top tt
    | inr some_parent ↦
        rw some_parent
          (note_parent-Fueled affected (remove_parent_child s g.parent g.id event.created_at))
  ]

  drop_group-Fueled :
      (g : Group) (affected : List String) (s : GroupsState Db)
      → Fueled (drop_group lib es s event g affected)
  unfolding drop_group
  drop_group-Fueled g affected s =
      and_then-Fueled (unlink_parent lib es s event g affected) _
        (unlink_parent-Fueled g affected s) λ s affected. λ h. cc

  by_kind-Fueled :
      (k : String) (s : GroupsState Db) (affected : List String)
      → Fueled (by_kind lib es event k s affected)
  unfolding by_kind
  by_kind-Fueled k s affected = elim (Bool-cases (event.kind == Kinds.delete_event)) [
    | inl deletes ↦ rw deletes tt
    | inr other ↦ elim (Bool-cases (event.kind == Kinds.delete_group)) [
      | inl drops ↦ elim (Option-cases (load s.groups k)) [
        | inl gone ↦ rw (other, drops, gone, Fueled, by_kind) (λ h. cc)
        | inr (g, found) ↦
            rw (other, drops, found, Fueled, by_kind) (drop_group-Fueled g affected s)
      ]
      | inr neither ↦ rw (other, neither) tt
    ]
  ]

  act_on-Fueled :
      (act : Action) (k : String) (s : GroupsState Db) (affected : List String)
      → Fueled (act_on lib es event act k s affected)
  unfolding act_on
  act_on-Fueled act k s affected = by_kind-Fueled k (apply_action lib es act k s) affected

  moderate-Fueled : (act : Action) (s : GroupsState Db) → Fueled (moderate lib es rec s event act)
  unfolding moderate
  moderate-Fueled act s = elim (Bool-cases (event.kind == Kinds.create_group)) [
    | inl creates ↦ elim (Option-cases (get_group_id_from_event lib event)) [
      | inl nowhere ↦ rw (creates, nowhere, Fueled, moderate) (λ h. cc)
      | inr (k, at) ↦
          rw (creates, at, Fueled, moderate)
            (and_then-Fueled (create lib es rec s event k) (act_on lib es event act k)
              (create-Fueled k s (λ r. ground (arith, creates))) (act_on-Fueled act k))
    ]
    | inr acts ↦ elim (Option-cases (get_group_id_from_event lib event)) [
      | inl nowhere ↦ rw (acts, nowhere, Fueled, moderate) (λ h. cc)
      | inr (k, at) ↦ elim (Option-cases (load s.groups k)) [
        | inl gone ↦ rw (acts, at, gone, Fueled, moderate) (λ h. cc)
        | inr (g, found) ↦ rw (acts, at, found, Fueled, moderate) (act_on-Fueled act k s [])
      ]
    ]
  ]

  module _ (now : Timestamp) where
    join-Fueled :
        (g : Group) (s : GroupsState Db) (affected : List String)
        → Fueled (join lib es now rec event g s affected)
    unfolding join
    join-Fueled g s affected = elim (Bool-cases (event.kind == Kinds.join_request)) [
      | inl joins ↦ rw joins (
          issue-Fueled (add_user lib es now event g.id) affected s (inl refl)
            (λ r. ground (arith, joins)))
      | inr other ↦ rw other tt
    ]

    leave-Fueled :
        (g : Group) (s : GroupsState Db) (affected : List String)
        → Fueled (leave lib es now rec event g s affected)
    unfolding leave
    leave-Fueled g s affected =
        elim (Bool-cases (event.kind == Kinds.leave_request && has g.members event.pub_key)) [
          | inl leaves ↦ rw leaves (
              issue-Fueled (self_removal lib es now event g.id) affected s (inr refl)
                (λ r. ground (arith, leaves)))
          | inr other ↦ rw other tt
        ]

    remember-Fueled :
        (k : String) (s : GroupsState Db) (affected : List String)
        → Fueled (remember lib es now event k s affected)
    unfolding remember
    remember-Fueled k s affected = elim (Option-cases (load s.groups k)) [
      | inl gone ↦ rw (gone, Fueled, remember) tt
      | inr (g, found) ↦ elim (Option-cases (push_last50 g event.id)) [
        | inl out ↦ rw (found, Fueled, remember) (rw (out, Fueled) (λ h. cc))
        | inr (h, pushed) ↦ rw (found, Fueled, remember) (rw (pushed, Fueled) tt)
      ]
    ]

    react-Fueled :
        (s : GroupsState Db) (affected : List String)
        → Fueled (react lib es now rec event s affected)
    unfolding react
    react-Fueled s affected = elim (Option-cases (get_group_id_from_event lib event)) [
      | inl nowhere ↦ rw (nowhere, Fueled, react) tt
      | inr (k, at) ↦ elim (Option-cases (load s.groups k)) [
        | inl gone ↦ rw (at, gone, Fueled, react) tt
        | inr (g, found) ↦
            rw (at, found, Fueled, react)
              (and_then-Fueled (join lib es now rec event g s (append_unique affected k)) _
                (join-Fueled g s (append_unique affected k))
                λ s affected.
                  and_then-Fueled (leave lib es now rec event g s affected) _
                    (leave-Fueled g s affected) (remember-Fueled k))
      ]
    ]

    process_with-Fueled : (s : GroupsState Db) → process_with lib es now rec s event ≢ out_of_fuel
    unfolding process_with
    process_with-Fueled s = elim (Prepared-cases (lib.prepare_moderation_action event)) [
      | inl (why, e) ↦
          rw (e, process_with) (finish-Fueled (react lib es now rec event s []) (react-Fueled s []))
      | inr (act, e) ↦
          rw (e, process_with)
            (finish-Fueled _ (
              and_then-Fueled (moderate lib es rec s event act) (react lib es now rec event)
                (moderate-Fueled act s) react-Fueled))
    ]

-- Fuel 2 is enough for every event and every state: ProcessEvent ends, having called itself at most
-- one level deep.
pub process_event_ends :
    (lib : NostrLib) {Db E : Type 0} (es : EventStore Db E) (now fuel : ℕ) (s : GroupsState Db)
    (event : Event)
    → process_event lib es now (suc (suc fuel)) s event ≢ out_of_fuel
unfolding process_event
process_event_ends lib es now fuel s event =
    process_with-Fueled lib es (process_event lib es now (suc fuel)) event
      (λ s e roster _.
        process_with-Fueled lib es (process_event lib es now fuel) e
          (λ s e _ top. absurd (top roster)) now s)
      now s
