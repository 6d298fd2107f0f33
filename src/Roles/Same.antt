-- ===== src/Roles/Same.antt =====
-- What sameRoles of utils.go decides, and what it does to its argument.
use croissant.Base.{
  ℕ, zero, suc, Bool, true, false, none, some, List, [], ◌∷◌, String, index, get_elem?, set, length,
  count, ◌==◌, nat_eq, string_eq, ◌≡◌, ◌∙◌, refl, sym, arith, Option-cases, inl, inr, index-some,
  index-none, count-set, ◌↔◌, ap, eq_self, Bool-cases, length-set, length_of_counts,
}
use croissant.Roles.{swap_front, match_roles, same_roles}

swap_front-suc :
    (n : String) (ns : List String) (j : ℕ) {m : String}
    → get_elem? ns j ≡ some m
    → swap_front (n ∷ ns) (suc j) ≡ m ∷ set ns j n
unfolding swap_front
swap_front-suc n ns j e = rw (e, swap_front)

swap_front-none :
    (n : String) (ns : List String) (j : ℕ)
    → get_elem? ns j ≡ none
    → swap_front (n ∷ ns) (suc j) ≡ n ∷ ns
unfolding swap_front
swap_front-none n ns j e = rw (e, swap_front)

swap_front-count :
    (names : List String) (idx : ℕ) (a : String) → count a (swap_front names idx) ≡ count a names
swap_front-count [] idx a = unfold swap_front in refl
swap_front-count (n ∷ ns) zero a = unfold swap_front in refl
swap_front-count (n ∷ ns) (suc j) a = elim (Option-cases (get_elem? ns j)) [
  | inl e ↦ ap (count a) (swap_front-none n ns j e)
  | inr (m, e) ↦ ap (count a) (swap_front-suc n ns j e) ∙ ground (arith, count-set ns j n a e)
]

swap_front-length : (names : List String) (idx : ℕ) → length (swap_front names idx) ≡ length names
swap_front-length [] idx = unfold swap_front in refl
swap_front-length (n ∷ ns) zero = unfold swap_front in refl
swap_front-length (n ∷ ns) (suc j) = elim (Option-cases (get_elem? ns j)) [
  | inl e ↦ ap length (swap_front-none n ns j e)
  | inr (m, e) ↦ ap length (swap_front-suc n ns j e) ∙ ap suc (length-set ns j n)
]

-- The swap brings the name at `idx` to the front.
swap_front-head :
    (names : List String) (idx : ℕ) (role : String)
    → get_elem? names idx ≡ some role
    → (rest : List String) × (swap_front names idx ≡ role ∷ rest)
swap_front-head [] idx role h = cc
swap_front-head (n ∷ ns) zero role h = (ns, unfold swap_front in ground arith)
swap_front-head (n ∷ ns) (suc j) role h = (set ns j n, swap_front-suc n ns j h)

match_roles-missing :
    (role : String) (roles names : List String)
    → index names role ≡ none
    → match_roles (role ∷ roles) names ≡ (false, names)
unfolding match_roles
match_roles-missing role roles names e = rw (e, match_roles)

-- One round that finds the role: the names are reordered with the role in front, and the loop goes on.
record Round (role : String) (roles names : List String) : Type 0 where
  rest : List String
  kept : (a : String) → count a (role ∷ rest) ≡ count a names
  long : suc (length rest) ≡ length names
  goes_on :
      match_roles (role ∷ roles) names
      ≡ ((match_roles roles rest).0, role ∷ (match_roles roles rest).1)

round :
    (role : String) (roles names : List String) {idx : ℕ}
    → index names role ≡ some idx
    → Round role roles names
unfolding match_roles
round role roles names {idx} e =
    let (rest, swapped) = swap_front-head names idx role (index-some names role idx e) in
    record {
      rest = rest;
      kept = λ a. ap (count a) (sym swapped) ∙ swap_front-count names idx a;
      long = ground (arith, ap length swapped, swap_front-length names idx);
      goes_on = rw (e, match_roles) (rw (swapped, match_roles));
    }

-- What the loop does to the names, and what its answer says, when there are as many names as roles.
record Outcome (roles names : List String) (same : Bool) (names' : List String) : Type 0 where
  reordered : (a : String) → count a names' ≡ count a names
  accepted : same ≡ true → names' ≡ roles
  complete : ((a : String) → count a roles ≡ count a names) → same ≡ true

match_roles-Outcome :
    (roles names : List String)
    → length roles ≡ length names
    → Outcome roles names (match_roles roles names).0 (match_roles roles names).1
match_roles-Outcome [] [] l =
    unfold match_roles in
    record { reordered = λ a. refl; accepted = λ h. refl; complete = λ h. refl }
match_roles-Outcome [] (n ∷ ns) l = absurd (omega arith)
match_roles-Outcome (role ∷ roles) names l = elim (Option-cases (index names role)) [
  | inl e ↦ rw (match_roles-missing role roles names e) (record {
    reordered = λ a. refl;
    accepted = λ h. cc;
    complete = λ h. absurd (ground (arith, h role, index-none names role e, eq_self role));
  })
  | inr (idx, e) ↦
      let r = round role roles names e in
      let o = match_roles-Outcome roles r.rest (omega (arith, r.long)) in
      rw r.goes_on (record {
        reordered = λ a. ground (arith, r.kept a, o.reordered a);
        accepted = λ h. ap (◌∷◌ role) (o.accepted h);
        complete = λ h. o.complete (λ a. ground (arith, h a, r.kept a));
      })
]

-- sameRoles answers true exactly when the two lists hold the same names, each as often.
pub same_roles_iff :
    (roles names : List String)
    → ((same_roles roles names).0 ≡ true) ↔ ((a : String) → count a roles ≡ count a names)
unfolding same_roles
same_roles_iff roles names = elim (Bool-cases (length roles == length names)) [
  | inl long ↦
      let o = match_roles-Outcome roles names (ground arith) in
      rw long (λ h a. ground (arith, ap (count a) (o.accepted h), o.reordered a), o.complete)
  | inr off ↦ rw off (λ h. cc, λ h. ground (arith, length_of_counts roles names h))
]

-- sameRoles reorders the names that it is given: afterwards the caller's slice holds the same names,
-- each as often, and when the answer is true it holds them in the order of the roles.
pub same_roles_reorders :
    (roles names : List String)
    → ((a : String) → count a (same_roles roles names).1 ≡ count a names)
      × ((same_roles roles names).0 ≡ true → (same_roles roles names).1 ≡ roles)
unfolding same_roles
same_roles_reorders roles names = elim (Bool-cases (length roles == length names)) [
  | inl long ↦
      let o = match_roles-Outcome roles names (ground arith) in rw long (o.reordered, o.accepted)
  | inr off ↦ rw off (λ a. refl, λ h. cc)
]
