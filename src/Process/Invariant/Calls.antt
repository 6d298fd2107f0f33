-- ===== src/Process/Invariant/Calls.antt =====
-- The events that ProcessEvent of process_event.go issues itself keep the invariant.
use croissant.Base.{Option, none, some, List, String, nat_eq, string_eq, inl, inr, Option-cases}
use croissant.Nostr.{NostrLib, EventStore, Event}
use croissant.Groups.{GroupsState}
use croissant.Process.Phases.{
  Outcome, panics, out_of_fuel, processed, issue, issue_saved, after_nested, with_signature,
}
use croissant.Process.Invariant.Defs.{WellFormed, Leads, Sat}

module _ (lib : NostrLib) {Db E : Type 0} (es : EventStore Db E)
    (rec : GroupsState Db → Event → Outcome Db)
    (keeps : (s : GroupsState Db) (event : Event)
      → WellFormed s
      → Leads WellFormed (rec s event)) where
  after_nested-WellFormed :
      (event : Event) (affected : List String) (o : Outcome Db)
      → Leads WellFormed o
      → Sat WellFormed (after_nested event affected o)
  after_nested-WellFormed event affected panics h = tt
  after_nested-WellFormed event affected out_of_fuel h = tt
  after_nested-WellFormed event affected (processed s nested) v = record {
    groups_ok = v.groups_ok;
    cache_ok = v.cache_ok;
    counts_ok = v.counts_ok;
  }

  issue_saved-WellFormed :
      (event : Event) (affected : List String) (s : GroupsState Db) (saved : Db × Option E)
      → WellFormed s
      → Sat WellFormed (issue_saved lib es rec event affected s saved)
  unfolding issue_saved
  issue_saved-WellFormed event affected s (db, some e) v = record {
    groups_ok = v.groups_ok;
    cache_ok = v.cache_ok;
    counts_ok = v.counts_ok;
  }
  issue_saved-WellFormed event affected s (db, none) v = after_nested-WellFormed event affected _ (
      keeps (record s { db = db }) event
        (record { groups_ok = v.groups_ok; cache_ok = v.cache_ok; counts_ok = v.counts_ok }))

  pub issue-WellFormed :
      (event : Event) (affected : List String) (s : GroupsState Db)
      → WellFormed s
      → Sat WellFormed (issue lib es rec event affected s)
  unfolding issue
  issue-WellFormed event affected s v = elim (Option-cases (lib.sign event)) [
    | inl e ↦ rw (e, Sat, issue) v
    | inr (signed, e) ↦
        rw (e, Sat, issue) (issue_saved-WellFormed (with_signature event signed) affected s _ v)
  ]
