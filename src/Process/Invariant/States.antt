-- ===== src/Process/Invariant/States.antt =====
-- The changes of the counts and of the groups that process_event.go and group.go make keep the invariant.
use croissant.Base.{
  Entries, Entries-store, Entries-delete, ℕ, List, [], ◌∷◌, String, Map, load, store, delete,
  nat_eq, string_eq, ◌<◌, arith, Bool-cases, inl, inr, Option-cases, leb, contains, erase, ◌++◌,
}
use croissant.Nostr.{Shape, PubKeyRoles, PubKey, Timestamp}
use croissant.Groups.{Group, GroupsState, update_group}
use croissant.Groups.Children.{add_parent_child, remove_parent_child, with_children}
use croissant.Process.Members.{
  count_up, count_down, put_all, remove_all, update_all_members, count_of,
}
use croissant.Process.Phases.{note_parent}
use croissant.Process.Invariant.Defs.{IsGroupAt, CountsOk, WellFormed, Sat}

count_up-CountsOk : (m : Map PubKey ℕ) (pk : PubKey) → CountsOk m → CountsOk (count_up m pk)
unfolding count_up
count_up-CountsOk m pk h = Entries-store (λ pk n. 0 < n) m pk _ h (omega arith)

count_down-CountsOk : (m : Map PubKey ℕ) (pk : PubKey) → CountsOk m → CountsOk (count_down m pk)
unfolding count_down
count_down-CountsOk m pk h = elim (Bool-cases (leb (count_of (load m pk)) 1)) [
  | inl last ↦ rw last (Entries-delete (λ pk n. 0 < n) m pk h)
  | inr more ↦ rw more (Entries-store (λ pk n. 0 < n) m pk _ h (ground arith))
]

put_all-CountsOk :
    (targets : List PubKeyRoles) (m : Map PubKey ℕ) → CountsOk m → CountsOk (put_all targets m)
unfolding put_all
put_all-CountsOk [] m h = h
put_all-CountsOk (t ∷ targets) m h = put_all-CountsOk targets _ (count_up-CountsOk m t.pub_key h)

remove_all-CountsOk :
    (targets : List PubKey) (m : Map PubKey ℕ) → CountsOk m → CountsOk (remove_all targets m)
unfolding remove_all
remove_all-CountsOk [] m h = h
remove_all-CountsOk (t ∷ targets) m h = remove_all-CountsOk targets _ (count_down-CountsOk m t h)

pub update_all_members-CountsOk :
    (shape : Shape) (m : Map PubKey ℕ) → CountsOk m → CountsOk (update_all_members shape m)
unfolding update_all_members
update_all_members-CountsOk (Shape.put_user targets) m h = put_all-CountsOk targets m h
update_all_members-CountsOk (Shape.remove_user targets) m h = remove_all-CountsOk targets m h
update_all_members-CountsOk _ m h = h

-- The laws under which one more group, or one fewer, keeps the state well formed.
module _ {Db : Type 0} (s : GroupsState Db) where
  pub stored :
      (k : String) (g : Group)
      → WellFormed s
      → IsGroupAt k g
      → WellFormed (record s { groups = store s.groups k g })
  stored k g v ok = record {
    groups_ok = Entries-store IsGroupAt s.groups k g v.groups_ok ok;
    cache_ok = v.cache_ok;
    counts_ok = v.counts_ok;
  }

  pub dropped : (k : String) → WellFormed s → WellFormed (record s { groups = delete s.groups k })
  dropped k v = record {
    groups_ok = Entries-delete IsGroupAt s.groups k v.groups_ok;
    cache_ok = v.cache_ok;
    counts_ok = v.counts_ok;
  }

pub update_group-Entries :
    (P : String → Group → Type 0) (m : Map String Group) (k : String) (f : Group → Group)
    → Entries P m
    → ((g : Group) → P k g → P k (f g))
    → Entries P (update_group m k f)
update_group-Entries P m k f all changed = elim (Option-cases (load m k)) [
  | inl gone ↦ rw (gone, update_group) all
  | inr (g, found) ↦
      rw (found, update_group) (Entries-store P m k (f g) all (changed g (all k g found)))
]

with_children-IsGroupAt :
    (k : String) (g : Group) (children : List String) (when : Timestamp)
    → IsGroupAt k g
    → IsGroupAt k (with_children g children when)
with_children-IsGroupAt k g children when h = ground arith

module _ {Db : Type 0} (s : GroupsState Db) (affected : List String) (parent_id child_id : String)
    (when : Timestamp) where
  pub add_parent_child-WellFormed :
      WellFormed s
      → Sat WellFormed (note_parent affected (add_parent_child s parent_id child_id when))
  unfolding add_parent_child
  add_parent_child-WellFormed v = elim (Option-cases (load s.groups parent_id)) [
    | inl e ↦ rw e v
    | inr (parent, e) ↦ elim (Bool-cases (contains parent.children child_id)) [
      | inl known ↦ rw e (rw known v)
      | inr new ↦ rw e (
          rw new (
            stored s parent_id _ v (
              with_children-IsGroupAt parent_id parent (parent.children ++ child_id ∷ []) when
                (v.groups_ok parent_id parent e))))
    ]
  ]

  pub remove_parent_child-WellFormed :
      WellFormed s
      → Sat WellFormed (note_parent affected (remove_parent_child s parent_id child_id when))
  unfolding remove_parent_child
  remove_parent_child-WellFormed v = elim (Option-cases (load s.groups parent_id)) [
    | inl e ↦ rw e v
    | inr (parent, e) ↦ elim (Bool-cases (contains parent.children child_id)) [
      | inl known ↦ rw e (
          rw known (
            stored s parent_id _ v (
              with_children-IsGroupAt parent_id parent (erase parent.children child_id) when
                (v.groups_ok parent_id parent e))))
      | inr new ↦ rw e (rw new v)
    ]
  ]
