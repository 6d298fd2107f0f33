-- ===== src/Roles.antt =====
-- sameRoles of utils.go. The slice `roleNames` is changed in place, so the function returns it as the
-- caller finds it afterwards, beside the answer.
pub mod Same
use croissant.Base.{
  ℕ, zero, suc, Bool, true, false, Option, none, some, List, [], ◌∷◌, String, index, get_elem?, set,
  length, ◌==◌, nat_eq, string_eq, if◌then◌else◌,
}

-- names[0], names[idx] = names[idx], names[0]
pub swap_front : List String → ℕ → List String
swap_front [] idx = []
swap_front (n ∷ ns) zero = n ∷ ns
swap_front (n ∷ ns) (suc j) = elim (get_elem? ns j) [ none ↦ n ∷ ns | some m ↦ m ∷ set ns j n ]

-- The first name is settled; the loop goes on behind it.
abbrev behind_first : (List String → Bool × List String) → List String → Bool × List String
behind_first loop [] = loop []
behind_first loop (n ∷ ns) = let (same, ns') = loop ns in (same, n ∷ ns')

-- for i, role := range roles, on the part roleNames[i:]
pub match_roles : List String → List String → Bool × List String
unfolding swap_front
match_roles [] names = (true, names)
match_roles (role ∷ roles) names = elim (index names role) [
  | none ↦ (false, names)
  | some idx ↦ behind_first (match_roles roles) (swap_front names idx)
]

unfoldable pub same_roles : List String → List String → Bool × List String
unfolding match_roles
same_roles roles role_names =
    if length roles == length role_names then match_roles roles role_names else (false, role_names)
