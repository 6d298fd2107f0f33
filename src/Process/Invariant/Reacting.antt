-- ===== src/Process/Invariant/Reacting.antt =====
-- What process_event.go does with any event of a live group keeps the invariant.
use croissant.Base.{
  append_unique, has, ◌&&◌, ℕ, some, List, String, load, length-set, ◌==◌, nat_eq, string_eq, ◌≡◌,
  arith, Bool-cases, inl, inr, Option-cases,
}
use croissant.Nostr.{NostrLib, EventStore, Event, Timestamp}
use croissant.Nostr.Kinds
use croissant.Groups.{Group, GroupsState}
use croissant.Groups.Tags.{get_group_id_from_event}
use croissant.Process.Phases.{Outcome, push_last50, last_index}
use croissant.Process.Reactions.{add_user, self_removal, join, leave, remember, react}
use croissant.Process.Invariant.Defs.{IsGroupAt, WellFormed, Leads, Sat, and_then-Sat}
use croissant.Process.Invariant.States.{stored}
use croissant.Process.Invariant.Calls.{issue-WellFormed}

module _ (lib : NostrLib) {Db E : Type 0} (es : EventStore Db E)
    (rec : GroupsState Db → Event → Outcome Db)
    (keeps : (s : GroupsState Db) (event : Event)
      → WellFormed s
      → Leads WellFormed (rec s event)) where
  join-WellFormed :
      (now : Timestamp) (event : Event) (g : Group) (s : GroupsState Db) (affected : List String)
      → WellFormed s
      → Sat WellFormed (join lib es now rec event g s affected)
  unfolding join
  join-WellFormed now event g s affected v = elim (Bool-cases (event.kind == Kinds.join_request)) [
    | inl joins ↦
        rw joins (issue-WellFormed lib es rec keeps (add_user lib es now event g.id) affected s v)
    | inr other ↦ rw other v
  ]

  leave-WellFormed :
      (now : Timestamp) (event : Event) (g : Group) (s : GroupsState Db) (affected : List String)
      → WellFormed s
      → Sat WellFormed (leave lib es now rec event g s affected)
  unfolding leave
  leave-WellFormed now event g s affected v =
      elim (Bool-cases (event.kind == Kinds.leave_request && has g.members event.pub_key)) [
        | inl leaves ↦
            rw leaves
              (issue-WellFormed lib es rec keeps (self_removal lib es now event g.id) affected s v)
        | inr other ↦ rw other v
      ]

  push_last50-IsGroupAt :
      (k : String) (g h : Group) (id : ℕ)
      → push_last50 g id ≡ some h
      → IsGroupAt k g
      → IsGroupAt k h
  unfolding push_last50
  push_last50-IsGroupAt k g h id e ok = elim (Option-cases (last_index g.last50_index)) [
    | inl out ↦ cc (rw out at e)
    | inr (i, within) ↦
        let pushed = rw within at e in
        (ground (arith, pushed), ground (arith, pushed, length-set g.last50 i id))
  ]

  remember-WellFormed :
      (now : Timestamp) (event : Event) (k : String) (s : GroupsState Db) (affected : List String)
      → WellFormed s
      → Sat WellFormed (remember lib es now event k s affected)
  unfolding remember
  remember-WellFormed now event k s affected v = elim (Option-cases (load s.groups k)) [
    | inl gone ↦ rw (gone, Sat, remember) v
    | inr (g, found) ↦ elim (Option-cases (push_last50 g event.id)) [
      | inl out ↦ rw (found, Sat, remember) (rw (out, Sat) tt)
      | inr (h, pushed) ↦
          rw (found, Sat, remember)
            (rw (pushed, Sat)
              (stored s k h v
                (push_last50-IsGroupAt k g h event.id pushed (v.groups_ok k g found))))
    ]
  ]

  pub react-WellFormed :
      (now : Timestamp) (event : Event) (s : GroupsState Db) (affected : List String)
      → WellFormed s
      → Sat WellFormed (react lib es now rec event s affected)
  unfolding react
  react-WellFormed now event s affected v =
      elim (Option-cases (get_group_id_from_event lib event)) [
        | inl nowhere ↦ rw (nowhere, Sat, react) v
        | inr (k, at) ↦ elim (Option-cases (load s.groups k)) [
          | inl gone ↦ rw (at, gone, Sat, react) v
          | inr (g, found) ↦
              rw (at, found, Sat, react)
                (and_then-Sat WellFormed (join lib es now rec event g s (append_unique affected k))
                  _ (join-WellFormed now event g s (append_unique affected k) v)
                  λ s affected v.
                    and_then-Sat WellFormed (leave lib es now rec event g s affected) _
                      (leave-WellFormed now event g s affected v) (remember-WellFormed now event k))
        ]
      ]
