-- ===== src/Read/Recipients.antt =====
-- authedAreTheSameAsPTagged of giftwrap.go decides that the p tags name the authenticated keys.
use croissant.Base.{
  suc, true, List, [], ◌∷◌, String, length, contains, erase, count, map, ◌==◌, nat_eq, string_eq,
  ◌≡◌, refl, arith, Bool-cases, inl, inr, eq_of_beq, ◌↔◌, count-erase, count-pos, contains-count,
  eq_self, ap, contains_of_count, length-erase, sym, length_of_counts, ◌≤◌, ◌<◌,
}
use croissant.Nostr.{PubKey}
use croissant.Read.{all_p_tagged, authed_are_the_same_as_p_tagged}

-- No string stands twice in the list.
abbrev pub IsDistinct : List String → Type 0
IsDistinct xs = (a : String) → count a xs ≤ 1

length-map :
    (hex : PubKey → String) (authed : List PubKey) → length (map hex authed) ≡ length authed
length-map hex [] = refl
length-map hex (k ∷ authed) = ap suc (length-map hex authed)

-- Every string of `xs` stands in `ys`, when each stands in `xs` once at most and the test passes.
covered-count :
    (xs ys : List String)
    → ((a : String) → contains xs a ≡ true → contains ys a ≡ true)
    → IsDistinct xs
    → (a : String) → count a xs ≤ count a ys
covered-count xs ys covers distinct a = elim (Bool-cases (contains xs a)) [
  | inl here ↦ ground (arith, distinct a, count-pos ys a (covers a here))
  | inr absent ↦ ground (arith, contains-count xs a absent)
]

equal_counts :
    (xs ys : List String)
    → ((a : String) → count a xs ≤ count a ys)
    → length xs ≡ length ys
    → (a : String) → count a xs ≡ count a ys
equal_counts [] [] le same a = refl
equal_counts [] (y ∷ ys) le same a = absurd (omega arith)
equal_counts (x ∷ xs) ys le same a =
    let some_x : 0 < count x ys = ground (arith, le x, eq_self x) in
    let here = contains_of_count ys x some_x in
    let rest =
      equal_counts xs (erase ys x) (λ b. ground (arith, le b, count-erase ys x b, here))
        (omega (arith, length-erase ys x some_x)) a in
    ground (arith, rest, count-erase ys x a, here)

all_p_tagged-covers :
    (hex : PubKey → String) (authed : List PubKey) (p_tags : List String)
    → all_p_tagged hex authed p_tags ≡ true
    → (a : String) → contains (map hex authed) a ≡ true
    → contains p_tags a ≡ true
all_p_tagged-covers hex [] p_tags h a here = cc
all_p_tagged-covers hex (k ∷ authed) p_tags h a here = elim (Bool-cases (hex k == a)) [
  | inl same ↦ ground (arith, eq_of_beq (hex k) a same, h)
  | inr other ↦ all_p_tagged-covers hex authed p_tags (ground arith) a (ground (arith, other))
]

all_p_tagged_of :
    (hex : PubKey → String) (authed : List PubKey) (p_tags : List String)
    → ((a : String) → contains (map hex authed) a ≡ true → contains p_tags a ≡ true)
    → all_p_tagged hex authed p_tags ≡ true
all_p_tagged_of hex [] p_tags covers = refl
all_p_tagged_of hex (k ∷ authed) p_tags covers = ground (
  arith,
  covers (hex k),
  eq_self (hex k),
  all_p_tagged_of hex authed p_tags (λ a here. covers a (ground (arith, here))),
)

-- When the authenticated keys are distinct, the test passes exactly when the p tags are those keys in
-- hexadecimal, each once, in any order: a client cannot ask for the gift-wraps of any other key.
pub p_tags_are_authed :
    (hex : PubKey → String) (authed : List PubKey) (p_tags : List String)
    → IsDistinct (map hex authed)
    → (authed_are_the_same_as_p_tagged hex authed p_tags ≡ true)
      ↔ ((a : String) → count a p_tags ≡ count a (map hex authed))
unfolding authed_are_the_same_as_p_tagged
p_tags_are_authed hex authed p_tags distinct = (
  λ h a. sym (
      equal_counts (map hex authed) p_tags
        (covered-count (map hex authed) p_tags
          (all_p_tagged-covers hex authed p_tags (ground arith)) distinct)
        (ground (arith, length-map hex authed)) a),
  λ same. ground (
    arith,
    length_of_counts p_tags (map hex authed) same,
    length-map hex authed,
    all_p_tagged_of hex authed p_tags (λ a here.
        contains_of_count p_tags a (ground (arith, same a, count-pos (map hex authed) a here))),
  ),
)
