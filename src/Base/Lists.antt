-- ===== src/Base/Lists.antt =====
-- Lists over the native numbers, with a Boolean equality test.
use Prim.Native.Nat.{ℕ, zero, suc, ◌+◌, ◌<◌, ◌≤◌}
use mathlib.Core.Path.{◌≡◌, refl, ap}
use mathlib.Core.Logic.{◌⊎◌, inl, inr}
use mathlib.Core.Bool.{Bool, true, false, ◌||◌, ◌&&◌}
use mathlib.Core.Option
use mathlib.Core.Option.{Option, none, some}
use mathlib.Core.List.{List, [], ◌∷◌, ◌++◌}
use native.Mathlib.Omega.{arith}
use croissant.Base.Eq.{Eq, ◌==◌, if◌then◌else◌, Bool-cases, eq_self, eq_of_beq}

module _ {ℓ} {A : Type ℓ} where
  abbrev pub length : List A → ℕ
  length [] = 0
  length (x ∷ xs) = suc (length xs)

  abbrev pub is_empty : List A → Bool
  is_empty [] = true
  is_empty (x ∷ xs) = false

  abbrev pub get_elem? : List A → ℕ → Option A
  get_elem? [] i = none
  get_elem? (x ∷ xs) zero = some x
  get_elem? (x ∷ xs) (suc i) = get_elem? xs i

  -- A write out of bounds changes nothing.
  abbrev pub set : List A → ℕ → A → List A
  set [] i v = []
  set (x ∷ xs) zero v = v ∷ xs
  set (x ∷ xs) (suc i) v = x ∷ set xs i v

  abbrev pub replicate : ℕ → A → List A
  replicate zero a = []
  replicate (suc n) a = a ∷ replicate n a

  abbrev pub any : (A → Bool) → List A → Bool
  any p [] = false
  any p (x ∷ xs) = p x || any p xs

  abbrev pub filter : (A → Bool) → List A → List A
  filter p [] = []
  filter p (x ∷ xs) = if p x then x ∷ filter p xs else filter p xs

  abbrev pub All {κ} : (A → Type κ) → List A → Type κ
  All P [] = Unit
  All P (x ∷ xs) = P x × All P xs

  pub length-set : (xs : List A) (i : ℕ) (v : A) → length (set xs i v) ≡ length xs
  length-set [] i v = refl
  length-set (x ∷ xs) zero v = refl
  length-set (x ∷ xs) (suc i) v = ap suc (length-set xs i v)

  length-append : (xs ys : List A) → length (xs ++ ys) ≡ length xs + length ys
  length-append [] ys = omega arith
  length-append (x ∷ xs) ys = omega (arith, length-append xs ys)

  pub Option-cases : (o : Option A) → (o ≡ none) ⊎ ((a : A) × (o ≡ some a))
  Option-cases none = inl refl
  Option-cases (some a) = inr (a, refl)

module _ {ℓ} {A : Type ℓ} ⦃e : Eq A⦄ where
  -- slices.Contains
  abbrev pub contains : List A → A → Bool
  contains [] a = false
  contains (x ∷ xs) a = x == a || contains xs a

  -- nostr.AppendUnique: the list with `a` at its end, unless it holds `a`.
  abbrev pub append_unique : List A → A → List A
  append_unique xs a = if contains xs a then xs else xs ++ a ∷ []

  -- The list without its first `a`: slices.Delete at slices.Index.
  abbrev pub erase : List A → A → List A
  erase [] a = []
  erase (x ∷ xs) a = if x == a then xs else x ∷ erase xs a

  -- How often `a` stands in the list.
  abbrev pub count : A → List A → ℕ
  count a [] = 0
  count a (x ∷ xs) = if x == a then suc (count a xs) else count a xs

  contains-append :
      (xs ys : List A) (a : A) → contains (xs ++ ys) a ≡ (contains xs a || contains ys a)
  contains-append [] ys a = refl
  contains-append (x ∷ xs) ys a = ground (arith, contains-append xs ys a)

  pub contains-snoc :
      (xs : List A) (b a : A) → contains (xs ++ b ∷ []) a ≡ (contains xs a || b == a)
  contains-snoc xs b a = ground (arith, contains-append xs (b ∷ []) a)

  pub contains-snoc_self : (xs : List A) (a : A) → contains (xs ++ a ∷ []) a ≡ true
  contains-snoc_self xs a = ground (arith, contains-snoc xs a a, eq_self a)

  pub count-snoc :
      (xs : List A) (b a : A) → count a (xs ++ b ∷ []) ≡ count a xs + (if b == a then 1 else 0)
  count-snoc [] b a = ground arith
  count-snoc (x ∷ xs) b a = ground (arith, count-snoc xs b a)

  pub contains-count : (xs : List A) (a : A) → contains xs a ≡ false → count a xs ≡ 0
  contains-count [] a h = refl
  contains-count (x ∷ xs) a h = ground (arith, contains-count xs a)

  pub count-pos : (xs : List A) (a : A) → contains xs a ≡ true → 0 < count a xs
  count-pos [] a h = elim (Bool-cases false) [ inl e ↦ ground arith | inr e ↦ ground arith ]
  count-pos (x ∷ xs) a h = ground (arith, count-pos xs a)

  pub count-erase :
      (xs : List A) (b a : A)
      → count a (erase xs b) + (if contains xs b && b == a then 1 else 0) ≡ count a xs
  count-erase [] b a = ground arith
  count-erase (x ∷ xs) b a = elim (Bool-cases (x == b)) [
    | inl hit ↦ ground (arith, eq_of_beq x b hit)
    | inr miss ↦ ground (arith, count-erase xs b a)
  ]

module _ {ℓ} {A : Type ℓ} ⦃e : Eq A⦄ where
  -- slices.Index, with `none` for -1.
  abbrev pub index : List A → A → Option ℕ
  index [] a = none
  index (x ∷ xs) a = if x == a then some 0 else Option.map suc (index xs a)

  pub index-some : (xs : List A) (a : A) (i : ℕ) → index xs a ≡ some i → get_elem? xs i ≡ some a
  index-some [] a i h = cc
  index-some (x ∷ xs) a zero h = elim (Bool-cases (x == a)) [
    | inl hit ↦ ap some (eq_of_beq x a hit)
    | inr miss ↦ ground (arith, h)
  ]
  index-some (x ∷ xs) a (suc i) h = ground (arith, index-some xs a i)

  pub index-none : (xs : List A) (a : A) → index xs a ≡ none → count a xs ≡ 0
  index-none [] a h = refl
  index-none (x ∷ xs) a h = ground (arith, index-none xs a)

  pub count-set :
      (xs : List A) (i : ℕ) (b : A) {c : A} (a : A)
      → get_elem? xs i ≡ some c
      → count a (set xs i b) + (if c == a then 1 else 0) ≡ count a xs + (if b == a then 1 else 0)
  count-set [] i b a h = cc
  count-set (x ∷ xs) zero b a h = ground arith
  count-set (x ∷ xs) (suc i) b {c} a h = ground (arith, count-set xs i b a h)

module _ {ℓ} {A : Type ℓ} ⦃e : Eq A⦄ where
  pub length-erase : (xs : List A) (a : A) → 0 < count a xs → suc (length (erase xs a)) ≡ length xs
  length-erase [] a h = absurd (omega arith)
  length-erase (x ∷ xs) a h = ground (arith, length-erase xs a)

  pub contains_of_count : (xs : List A) (a : A) → 0 < count a xs → contains xs a ≡ true
  contains_of_count [] a h = absurd (omega arith)
  contains_of_count (x ∷ xs) a h = ground (arith, contains_of_count xs a)

  -- Lists that hold every item equally often are equally long.
  pub length_of_counts :
      (xs ys : List A) → ((a : A) → count a xs ≡ count a ys) → length xs ≡ length ys
  length_of_counts [] [] h = refl
  length_of_counts [] (y ∷ ys) h = absurd (ground (arith, h y, eq_self y))
  length_of_counts (x ∷ xs) ys h =
      let some_x : 0 < count x ys = ground (arith, h x, eq_self x) in
      ground (
        arith,
        length-erase ys x some_x,
        length_of_counts xs (erase ys x)
            (λ a. ground (arith, h a, count-erase ys x a, contains_of_count ys x some_x)),
      )

module _ {ℓ} {A : Type ℓ} ⦃e : Eq A⦄ (p : A → Bool) where
  any-append : (xs ys : List A) → any p (xs ++ ys) ≡ (any p xs || any p ys)
  any-append [] ys = refl
  any-append (x ∷ xs) ys = ground (arith, any-append xs ys)

  any-contains : (xs : List A) (a : A) → contains xs a ≡ true → p a ≡ true → any p xs ≡ true
  any-contains [] a here h = cc
  any-contains (x ∷ xs) a here h = elim (Bool-cases (x == a)) [
    | inl same ↦ ground (arith, ap p (eq_of_beq x a same))
    | inr other ↦ ground (arith, any-contains xs a)
  ]

  pub any-append_unique : (xs : List A) (a : A) → any p (append_unique xs a) ≡ (any p xs || p a)
  any-append_unique xs a = elim (Bool-cases (contains xs a)) [
    | inl here ↦ rw here (ground (arith, any-contains xs a here))
    | inr new ↦ rw new (ground (arith, any-append xs (a ∷ [])))
  ]

abbrev pub sum : List ℕ → ℕ
sum [] = 0
sum (x ∷ xs) = x + sum xs

pub sum-set :
    (xs : List ℕ) (i b : ℕ) {a : ℕ} → get_elem? xs i ≡ some a → sum (set xs i b) + a ≡ sum xs + b
sum-set [] i b h = cc
sum-set (x ∷ xs) zero b h = ground arith
sum-set (x ∷ xs) (suc i) b h = omega (arith, sum-set xs i b h)

pub get_elem?-le-sum : (xs : List ℕ) (i : ℕ) {a : ℕ} → get_elem? xs i ≡ some a → a ≤ sum xs
get_elem?-le-sum [] i h = cc
get_elem?-le-sum (x ∷ xs) zero h = ground arith
get_elem?-le-sum (x ∷ xs) (suc i) h = omega (arith, get_elem?-le-sum xs i h)

-- A list of numbers with a positive sum has a positive entry.
pub positive_entry : (xs : List ℕ) → 0 < sum xs → (i k : ℕ) × (get_elem? xs i ≡ some (suc k))
positive_entry [] h = absurd (omega arith)
positive_entry (zero ∷ xs) h = let (i, k, e) = positive_entry xs (omega arith) in (suc i, k, e)
positive_entry (suc x ∷ xs) h = (0, x, refl)

pub sum-replicate : (n : ℕ) → sum (replicate n 0) ≡ 0
sum-replicate zero = refl
sum-replicate (suc n) = omega (arith, sum-replicate n)

module _ {ℓ μ} {A : Type ℓ} (P : A → Type μ) where
  pub All-append : (xs ys : List A) → All P xs → All P ys → All P (xs ++ ys)
  All-append [] ys h k = k
  All-append (x ∷ xs) ys (p, h) k = (p, All-append xs ys h k)

  pub All-map : (Q : A → Type μ) → ((a : A) → P a → Q a) → (xs : List A) → All P xs → All Q xs
  All-map Q f [] h = tt
  All-map Q f (x ∷ xs) (p, h) = (f x p, All-map Q f xs h)
