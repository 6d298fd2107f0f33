-- ===== src/Groups/Hierarchy.antt =====
-- wouldCreateCycle of group.go, and the chain of parents that it walks.
use croissant.Base.{
  ℕ, zero, suc, none, some, String, Bool, true, false, Map, load, store, delete, ◌==◌, string_eq,
  if◌then◌else◌, refl, ◌≡◌, arith, load-store_other, load-store_self, load-delete_self,
  load-delete_other, beq_comm_false, subst, Option-cases, Bool-cases, inl, inr, eq_of_beq, ◌∙◌,
}
use croissant.Groups.{Group, GroupsState}

abbrev pub max_depth : ℕ
max_depth = 1024

-- The loop of wouldCreateCycle, on the rounds that are left.
unfoldable pub cycle_loop : ℕ → Map String Group → String → String → Bool
cycle_loop zero groups new_id cur = true
cycle_loop (suc n) groups new_id cur = if cur == new_id then true else elim (load groups cur) [
  | none ↦ false
  | some group ↦ if group.parent == "" then false else cycle_loop n groups new_id group.parent
]

unfoldable pub would_create_cycle : {Db : Type 0} → GroupsState Db → String → String → Bool
would_create_cycle s new_id parent_id = cycle_loop max_depth s.groups new_id parent_id

-- The chain of parents from a group ends: at an id with no live group, or at a group with no parent.
pub data Ends (groups : Map String Group) : String → Type 0 where
  gone : (id : String) → load groups id ≡ none → Ends groups id
  root : (id : String) (g : Group) → load groups id ≡ some g → g.parent ≡ "" → Ends groups id
  under :
      (id : String) (g : Group) → load groups id ≡ some g → Ends groups g.parent → Ends groups id

-- The loop answers false only where the chain ends and never meets the new id, so also after the new
-- group is stored, whatever its parent.
cycle_loop-Ends :
    (n : ℕ) (groups : Map String Group) (new_id cur : String) (g : Group)
    → cycle_loop n groups new_id cur ≡ false
    → Ends (store groups new_id g) cur
unfolding cycle_loop
cycle_loop-Ends zero groups new_id cur g h = cc
cycle_loop-Ends (suc n) groups new_id cur g h = elim (Bool-cases (cur == new_id)) [
  | inl met ↦ ground (arith, h, met)
  | inr other ↦
      let kept = load-store_other groups new_id g cur (beq_comm_false cur new_id other) in
      elim (Option-cases (load groups cur)) [
        | inl e ↦ gone cur (kept ∙ e)
        | inr (c, e) ↦ elim (Bool-cases (c.parent == "")) [
          | inl top ↦ root cur c (kept ∙ e) (eq_of_beq c.parent "" top)
          | inr more ↦
              under cur c (kept ∙ e)
                (cycle_loop-Ends n groups new_id c.parent g (ground (arith, h, other, e, more)))
        ]
      ]
]

module _ (groups : Map String Group) (new_id : String) (g : Group) where
  -- If the chain from the new group ends, then so does every chain that ended before.
  Ends-store :
      Ends (store groups new_id g) new_id
      → {id : String} → Ends groups id
      → Ends (store groups new_id g) id
  Ends-store new (gone id e) = elim (Bool-cases (new_id == id)) [
    | inl same ↦ subst (Ends (store groups new_id g)) (eq_of_beq new_id id same) new
    | inr other ↦ gone id (load-store_other groups new_id g id other ∙ e)
  ]
  Ends-store new (root id c e top) = elim (Bool-cases (new_id == id)) [
    | inl same ↦ subst (Ends (store groups new_id g)) (eq_of_beq new_id id same) new
    | inr other ↦ root id c (load-store_other groups new_id g id other ∙ e) top
  ]
  Ends-store new (under id c e up) = elim (Bool-cases (new_id == id)) [
    | inl same ↦ subst (Ends (store groups new_id g)) (eq_of_beq new_id id same) new
    | inr other ↦ under id c (load-store_other groups new_id g id other ∙ e) (Ends-store new up)
  ]

-- What stands under the new id does not matter to the walk.
cycle_loop-store :
    (n : ℕ) (groups : Map String Group) (new_id cur : String) (g : Group)
    → cycle_loop n (store groups new_id g) new_id cur ≡ cycle_loop n groups new_id cur
unfolding cycle_loop
cycle_loop-store zero groups new_id cur g = refl
cycle_loop-store (suc n) groups new_id cur g = elim (Bool-cases (cur == new_id)) [
  | inl met ↦ rw met
  | inr other ↦
      rw (other, load-store_other groups new_id g cur (beq_comm_false cur new_id other))
        (elim (Option-cases (load groups cur)) [
          | inl missing ↦ rw missing
          | inr (c, e) ↦ rw e (ground (arith, cycle_loop-store n groups new_id c.parent g))
        ])
]

pub would_create_cycle-store :
    {Db : Type 0} (s : GroupsState Db) (new_id parent_id : String) (g : Group)
    → would_create_cycle (record s { groups = store s.groups new_id g }) new_id parent_id
      ≡ would_create_cycle s new_id parent_id
unfolding would_create_cycle
would_create_cycle-store s new_id parent_id g =
    cycle_loop-store max_depth s.groups new_id parent_id g

-- Storing a group with no parent leaves no endless chain.
pub root_keeps_Ends :
    (groups : Map String Group) (new_id : String) (g : Group)
    → g.parent ≡ ""
    → ((id : String) → Ends groups id)
    → (id : String) → Ends (store groups new_id g) id
root_keeps_Ends groups new_id g top ends id =
    Ends-store groups new_id g (root new_id g (load-store_self groups new_id g) top) (ends id)

-- Where wouldCreateCycle answers false for a new group and its parent, and every chain of parents ends,
-- storing the new group with that parent leaves no endless chain: no group becomes its own ancestor.
-- Nothing is assumed of the group that was stored under the new id before.
pub create_keeps_Ends :
    {Db : Type 0} (s : GroupsState Db) (new_id : String) (g : Group)
    → would_create_cycle s new_id g.parent ≡ false
    → ((id : String) → Ends s.groups id)
    → (id : String) → Ends (store s.groups new_id g) id
unfolding would_create_cycle
create_keeps_Ends s new_id g h ends id =
    Ends-store s.groups new_id g
      (under new_id g (load-store_self s.groups new_id g)
        (cycle_loop-Ends max_depth s.groups new_id g.parent g h))
      (ends id)

module _ (groups : Map String Group) (old_id : String) where
  Ends-delete : {id : String} → Ends groups id → Ends (delete groups old_id) id
  Ends-delete (gone id e) = elim (Bool-cases (old_id == id)) [
    | inl same ↦
        subst (Ends (delete groups old_id)) (eq_of_beq old_id id same)
          (gone old_id (load-delete_self groups old_id))
    | inr other ↦ gone id (load-delete_other groups old_id id other ∙ e)
  ]
  Ends-delete (root id c e top) = elim (Bool-cases (old_id == id)) [
    | inl same ↦
        subst (Ends (delete groups old_id)) (eq_of_beq old_id id same)
          (gone old_id (load-delete_self groups old_id))
    | inr other ↦ root id c (load-delete_other groups old_id id other ∙ e) top
  ]
  Ends-delete (under id c e up) = elim (Bool-cases (old_id == id)) [
    | inl same ↦
        subst (Ends (delete groups old_id)) (eq_of_beq old_id id same)
          (gone old_id (load-delete_self groups old_id))
    | inr other ↦ under id c (load-delete_other groups old_id id other ∙ e) (Ends-delete up)
  ]
