-- ===== src/Tests/Roles.antt =====
-- Two roles, in the other order.
use croissant.Base.{true, List, [], ◌∷◌, String, ◌≡◌, ◌↔◌, count, nat_eq, string_eq}
use croissant.Roles.{same_roles}
use croissant.Roles.Same.{same_roles_iff}

abbrev ours : List String
ours = "admin" ∷ "moderator" ∷ []

abbrev theirs : List String
theirs = "moderator" ∷ "admin" ∷ []

same_roles_iff_example :
    ((same_roles ours theirs).0 ≡ true) ↔ ((a : String) → count a ours ≡ count a theirs)
same_roles_iff_example = same_roles_iff ours theirs
