-- ===== src/Process/Members.antt =====
-- The counts of AllMembers in process_event.go (and the same updates in group.go and wipe.go).
use croissant.Base.{
  ℕ, suc, ◌-◌, Option, none, some, List, [], ◌∷◌, Map, load, store, delete, leb, if◌then◌else◌,
  nat_eq,
}
use croissant.Nostr.{PubKey, PubKeyRoles, Shape}

abbrev pub count_of : Option ℕ → ℕ
count_of none = 0
count_of (some n) = n

-- Compute(pk, count + 1)
unfoldable pub count_up : Map PubKey ℕ → PubKey → Map PubKey ℕ
count_up m pk = store m pk (suc (count_of (load m pk)))

-- Compute(pk, count - 1, delete if count <= 1), where a missing key counts 0
unfoldable pub count_down : Map PubKey ℕ → PubKey → Map PubKey ℕ
count_down m pk =
    let count = count_of (load m pk) in if leb count 1 then delete m pk else store m pk (count - 1)

unfoldable pub put_all : List PubKeyRoles → Map PubKey ℕ → Map PubKey ℕ
put_all [] m = m
put_all (target ∷ targets) m = put_all targets (count_up m target.pub_key)

unfoldable pub remove_all : List PubKey → Map PubKey ℕ → Map PubKey ℕ
remove_all [] m = m
remove_all (target ∷ targets) m = remove_all targets (count_down m target)

unfoldable pub update_all_members : Shape → Map PubKey ℕ → Map PubKey ℕ
unfolding put_all remove_all
update_all_members (Shape.put_user targets) m = put_all targets m
update_all_members (Shape.remove_user targets) m = remove_all targets m
update_all_members _ m = m
