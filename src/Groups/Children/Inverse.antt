-- ===== src/Groups/Children/Inverse.antt =====
-- addParentChild and removeParentChild of group.go undo each other.
use croissant.Base.{
  true, false, some, List, [], ◌∷◌, ◌++◌, String, load, store, contains, erase, ◌==◌, string_eq,
  nat_eq, eq_self, contains-snoc_self, load-store_self, load-store_other, Bool-cases, inl, inr, ◌≡◌,
  refl, ap, ◌∙◌,
}
use croissant.Nostr.{Timestamp}
use croissant.Groups.{Group, GroupsState}
use croissant.Groups.Children.{with_children, add_parent_child, remove_parent_child}

erase-last : (xs : List String) (a : String) → contains xs a ≡ false → erase (xs ++ a ∷ []) a ≡ xs
erase-last [] a h = rw (eq_self a) refl
erase-last (x ∷ xs) a h = elim (Bool-cases (x == a)) [
  | inl hit ↦ cc (rw hit at h)
  | inr miss ↦ rw miss (ap (◌∷◌ x) (erase-last xs a (rw miss at h)))
]

module _ {Db : Type 0} (parent_id child_id : String) where
  -- What the two functions do with a live parent.
  add_new :
      (s : GroupsState Db) (when : Timestamp) {parent : Group}
      → load s.groups parent_id ≡ some parent
      → contains parent.children child_id ≡ false
      → add_parent_child s parent_id child_id when ≡ (
        record s {
          groups =
              store s.groups parent_id
                (with_children parent (parent.children ++ child_id ∷ []) when);
        },
        some parent_id,
        true,
      )
  unfolding add_parent_child
  add_new s when found absent = rw (found, absent) refl

  add_again :
      (s : GroupsState Db) (when : Timestamp) {parent : Group}
      → load s.groups parent_id ≡ some parent
      → contains parent.children child_id ≡ true
      → add_parent_child s parent_id child_id when ≡ (s, some parent_id, false)
  unfolding add_parent_child
  add_again s when found here = rw (found, here) refl

  remove_old :
      (s : GroupsState Db) (when : Timestamp) {parent : Group}
      → load s.groups parent_id ≡ some parent
      → contains parent.children child_id ≡ true
      → remove_parent_child s parent_id child_id when ≡ (
        record s {
          groups =
              store s.groups parent_id (with_children parent (erase parent.children child_id) when);
        },
        some parent_id,
        true,
      )
  unfolding remove_parent_child
  remove_old s when found here = rw (found, here) refl

  -- Where the parent is live and does not list the child, addParentChild reports a change, a second
  -- call of it changes nothing and says so, and removeParentChild after it reports a change and gives
  -- the parent the list of children back that it had; no other group's entry is touched.
  pub remove_parent_child-add_parent_child :
      (s : GroupsState Db) (when later : Timestamp) {parent : Group}
      → load s.groups parent_id ≡ some parent
      → contains parent.children child_id ≡ false
      → let (s1, _, added) = add_parent_child s parent_id child_id when in
        let (s2, _, removed) = remove_parent_child s1 parent_id child_id later in
        (added ≡ true)
        × (add_parent_child s1 parent_id child_id later ≡ (s1, some parent_id, false))
        × (removed ≡ true)
        × ((p : Group) × (load s2.groups parent_id ≡ some p) × (p.children ≡ parent.children))
        × ((j : String) → (parent_id == j) ≡ false → load s2.groups j ≡ load s.groups j)
  remove_parent_child-add_parent_child s when later {parent} found absent =
      let p1 : Group = with_children parent (parent.children ++ child_id ∷ []) when in
      let s1 : GroupsState Db = record s { groups = store s.groups parent_id p1 } in
      let here = contains-snoc_self parent.children child_id in
      let found1 = load-store_self s.groups parent_id p1 in
      let p2 : Group = with_children p1 (erase p1.children child_id) later in
      rw (add_new s when found absent, remove_old s1 later found1 here)
        (
          refl,
          add_again s1 later found1 here,
          refl,
          (p2, load-store_self s1.groups parent_id p2, erase-last parent.children child_id absent),
          λ j other.
              load-store_other s1.groups parent_id p2 j other
              ∙ load-store_other s.groups parent_id p1 j other,
        )
