-- ===== src/Process/Phases.antt =====
-- How a part of ProcessEvent in process_event.go ends, and the steps that its parts share. A section's
-- parameters stand for what the function gets from elsewhere: the nostr library and the event store.
use croissant.Base.{
  ℕ, ◌+◌, ◌-◌, ◌%◌, Bool, Option, none, some, List, ◌∷◌, String, append_unique, set, length, ltb,
  ◌==◌, nat_eq, string_eq, if◌then◌else◌,
}
use croissant.Nostr.{NostrLib, EventStore, Event, EventId, Tag, Timestamp, Signed}
use croissant.Groups.{Group, GroupsState}

-- `panics` is a nil group or an index out of range; `out_of_fuel` is the model's own.
pub data Outcome (Db : Type 0) : Type 0 where
  panics : Outcome Db
  out_of_fuel : Outcome Db
  processed : GroupsState Db → List String → Outcome Db

-- A part of ProcessEvent either returns from it, or leaves the state and groupsAffected to the rest.
pub data Phase (Db : Type 0) : Type 0 where
  returns : Outcome Db → Phase Db
  goes_on : GroupsState Db → List String → Phase Db

abbrev pub and_then :
    {Db : Type 0} → Phase Db → (GroupsState Db → List String → Phase Db) → Phase Db
and_then (returns o) f = returns o
and_then (goes_on s affected) f = f s affected

abbrev pub finish : {Db : Type 0} → Phase Db → Outcome Db
finish (returns o) = o
finish (goes_on s affected) = processed s affected

-- The recursive call of ProcessEvent: its groups go to `nostr.AppendUnique(groupsAffected, affected)`,
-- whose result is dropped, and the event is broadcast.
abbrev pub after_nested : {Db : Type 0} → Event → List String → Outcome Db → Phase Db
after_nested event affected panics = returns panics
after_nested event affected out_of_fuel = returns out_of_fuel
after_nested event affected (processed s nested) =
    goes_on (record s { broadcasts = event ∷ s.broadcasts }) affected

-- lastIndex := last50index.Add(1) - 1, on an int32 whose bit pattern is kept; then the write at
-- lastIndex % 50, which is out of range where lastIndex is negative and no multiple of 50, or where
-- last50 is shorter.
abbrev pub last_index : ℕ → Option ℕ
last_index i =
    if ltb i 0x8000_0000
    then some (i % 50)
    else if (0x1_0000_0000 - i) % 50 == 0
    then some 0
    else none

abbrev pub push_at : Group → EventId → Option ℕ → Option Group
push_at g id none = none
push_at g id (some i) =
    if ltb i (length g.last50)
    then some (record g {
      last50 = set g.last50 i id;
      last50_index = (g.last50_index + 1) % 0x1_0000_0000;
    })
    else none

unfoldable pub push_last50 : Group → EventId → Option Group
push_last50 g id = push_at g id (last_index g.last50_index)

abbrev pub unsigned : Timestamp → ℕ → List Tag → Event
unsigned created_at kind tags = record {
  id = 0;
  pub_key = 0;
  created_at = created_at;
  kind = kind;
  tags = tags;
  content = "";
}

abbrev pub with_signature : Event → Signed → Event
with_signature event signed = record event { id = signed.id; pub_key = signed.pub_key }

-- groupsAffected with the parent that a change of its children returned.
abbrev pub note_parent :
    {Db : Type 0} → List String → GroupsState Db × Option String × Bool → Phase Db
note_parent affected (s, none, changed) = goes_on s affected
note_parent affected (s, some parent, changed) =
    goes_on s (if changed then append_unique affected parent else affected)

module _ (lib : NostrLib) {Db E : Type 0} (es : EventStore Db E) where
  -- Sign the event, save it, process it and broadcast it; a failure returns from ProcessEvent.
  unfoldable pub issue_saved :
      (GroupsState Db → Event → Outcome Db)
      → Event
      → List String
      → GroupsState Db
      → Db × Option E
      → Phase Db
  issue_saved rec event affected s (db, some e) =
      returns (processed (record s { db = db }) affected)
  issue_saved rec event affected s (db, none) =
      after_nested event affected (rec (record s { db = db }) event)

  unfoldable pub issue :
      (GroupsState Db → Event → Outcome Db) → Event → List String → GroupsState Db → Phase Db
  unfolding issue_saved
  issue rec event affected s = elim (lib.sign event) [
    | none ↦ returns (processed s affected)
    | some signed ↦
        let e = with_signature event signed in issue_saved rec e affected s (es.save_event s.db e)
  ]
