-- ===== src/Process/Effects/Counts.antt =====
-- The counts of AllMembers after a PutUser or a RemoveUser of process_event.go.
use croissant.Base.{
  ℕ, suc, ◌+◌, ◌-◌, List, [], ◌∷◌, Map, load, store, delete, count, map, leb, Bool-cases,
  load-store_self, load-store_other, load-delete_self, load-delete_other, eq_of_beq, ◌==◌, nat_eq,
  if◌then◌else◌, ◌≡◌, arith, inl, inr, subst,
}
use croissant.Nostr.{PubKey, PubKeyRoles, Shape}
use croissant.Process.Members.{
  count_of, count_up, count_down, put_all, remove_all, update_all_members,
}

-- How often a key is counted.
abbrev pub members_count : Map PubKey ℕ → PubKey → ℕ
members_count m pk = count_of (load m pk)

count_up-members_count :
    (m : Map PubKey ℕ) (pk j : PubKey)
    → members_count (count_up m pk) j ≡ members_count m j + (if pk == j then 1 else 0)
unfolding count_up
count_up-members_count m pk j = elim (Bool-cases (pk == j)) [
  | inl same ↦
      subst
        (λ j.
          members_count (store m pk (suc (members_count m pk))) j
          ≡ members_count m j + (if pk == j then 1 else 0))
        (eq_of_beq pk j same) (rw (load-store_self m pk (suc (members_count m pk))) (ground arith))
  | inr other ↦ rw (load-store_other m pk (suc (members_count m pk)) j other, other) (omega arith)
]

count_down-members_count :
    (m : Map PubKey ℕ) (pk j : PubKey)
    → members_count (count_down m pk) j ≡ members_count m j - (if pk == j then 1 else 0)
unfolding count_down
count_down-members_count m pk j = elim (Bool-cases (leb (members_count m pk) 1)) [
  | inl last ↦ elim (Bool-cases (pk == j)) [
    | inl same ↦
        subst
          (λ j.
            members_count
              (if leb (members_count m pk) 1
                then delete m pk
                else store m pk (members_count m pk - 1))
              j
            ≡ members_count m j - (if pk == j then 1 else 0))
          (eq_of_beq pk j same) (rw (last, load-delete_self m pk) (ground arith))
    | inr other ↦ rw (last, load-delete_other m pk j other, other) (omega arith)
  ]
  | inr more ↦ elim (Bool-cases (pk == j)) [
    | inl same ↦
        subst
          (λ j.
            members_count
              (if leb (members_count m pk) 1
                then delete m pk
                else store m pk (members_count m pk - 1))
              j
            ≡ members_count m j - (if pk == j then 1 else 0))
          (eq_of_beq pk j same)
          (rw (more, load-store_self m pk (members_count m pk - 1)) (ground arith))
    | inr other ↦
        rw (more, load-store_other m pk (members_count m pk - 1) j other, other) (omega arith)
  ]
]

put_all-members_count :
    (targets : List PubKeyRoles) (m : Map PubKey ℕ) (pk : PubKey)
    → members_count (put_all targets m) pk
      ≡ members_count m pk + count pk (map (λ t. t.pub_key) targets)
unfolding put_all
put_all-members_count [] m pk = omega arith
put_all-members_count (t ∷ targets) m pk = ground (
  arith,
  put_all-members_count targets (count_up m t.pub_key) pk,
  count_up-members_count m t.pub_key pk,
)

remove_all-members_count :
    (targets : List PubKey) (m : Map PubKey ℕ) (pk : PubKey)
    → members_count (remove_all targets m) pk ≡ members_count m pk - count pk targets
unfolding remove_all
remove_all-members_count [] m pk = omega arith
remove_all-members_count (t ∷ targets) m pk =
    ground
      (arith, remove_all-members_count targets (count_down m t) pk, count_down-members_count m t pk)

-- A PutUser counts each key once more for every time that it stands among the targets, members of the
-- group included; a RemoveUser counts it once less for every time, down to 0, members or not.
pub update_all_members-counts :
    (m : Map PubKey ℕ) (pk : PubKey)
    → ((targets : List PubKeyRoles)
        → members_count (update_all_members (Shape.put_user targets) m) pk
          ≡ members_count m pk + count pk (map (λ t. t.pub_key) targets))
      × ((targets : List PubKey)
          → members_count (update_all_members (Shape.remove_user targets) m) pk
            ≡ members_count m pk - count pk targets)
unfolding update_all_members
update_all_members-counts m pk = (
  λ targets. put_all-members_count targets m pk,
  λ targets. remove_all-members_count targets m pk,
)
