-- ===== src/Process/Invariant/Defs.antt =====
-- What holds of the state of process_event.go between two events, and what it means that a part of
-- ProcessEvent keeps it.
use croissant.Base.{Entries, ℕ, List, String, Map, length, nat_eq, string_eq, ◌≡◌, ◌<◌}
use croissant.Nostr.{NostrLib, Event, NipGroup, Action, prepared, PubKey}
use croissant.Groups.{Group, GroupsState}
use croissant.Process.Phases.{
  Outcome, panics, out_of_fuel, processed, Phase, returns, goes_on, and_then, finish,
}

-- A group stands under its own id, and its ring of recent ids has 50 places.
abbrev pub IsGroupAt : String → Group → Type 0
IsGroupAt k g = (g.id ≡ k) × (length g.last50 ≡ 50)

abbrev pub GroupsOk : Map String Group → Type 0
GroupsOk = Entries IsGroupAt

abbrev pub CountsOk : Map PubKey ℕ → Type 0
CountsOk = Entries λ pk n. 0 < n

pub record WellFormed {Db : Type 0} (s : GroupsState Db) : Type 0 where
  pub groups_ok : GroupsOk s.groups
  pub cache_ok : length s.deleted_cache ≡ 128
  pub counts_ok : CountsOk s.all_members

-- The library's actions never change the id of the group that they are applied to.
abbrev pub ApplyKeepsId : NostrLib → Type 0
ApplyKeepsId lib =
    (event : Event) (act : Action)
    → lib.prepare_moderation_action event ≡ prepared act
    → (g : NipGroup) → (act.apply g).id ≡ g.id

-- The states that a part of ProcessEvent can end in all satisfy `P`.
abbrev pub Leads : {Db : Type 0} → (GroupsState Db → Type 0) → Outcome Db → Type 0
Leads P panics = Unit
Leads P out_of_fuel = Unit
Leads P (processed s affected) = P s

abbrev pub Sat : {Db : Type 0} → (GroupsState Db → Type 0) → Phase Db → Type 0
Sat P (returns o) = Leads P o
Sat P (goes_on s affected) = P s

module _ {Db : Type 0} (P : GroupsState Db → Type 0) where
  pub and_then-Sat :
      (p : Phase Db) (f : GroupsState Db → List String → Phase Db)
      → Sat P p
      → ((s : GroupsState Db) (affected : List String) → P s → Sat P (f s affected))
      → Sat P (and_then p f)
  and_then-Sat (returns o) f h k = h
  and_then-Sat (goes_on s affected) f h k = k s affected h

  pub finish-Leads : (p : Phase Db) → Sat P p → Leads P (finish p)
  finish-Leads (returns o) h = h
  finish-Leads (goes_on s affected) h = h
