-- ===== src/Base/Maps.antt =====
-- Finite maps as association lists, read at the first entry of a key.
use mathlib.Core.Path.{◌≡◌, sym, ap, ◌∙◌, subst}
use mathlib.Core.Logic.{inl, inr}
use mathlib.Core.Bool.{Bool, true, false}
use mathlib.Core.Option.{Option, none, some}
use mathlib.Core.List.{List, [], ◌∷◌}
use native.Mathlib.Omega.{arith}
use croissant.Base.Lists.{All}
use croissant.Base.Eq.{Eq, ◌==◌, if◌then◌else◌, Bool-cases, eq_self, eq_of_beq}

abbrev pub Map {ℓ κ} : Type ℓ → Type κ → Type (ℓ ⊔ κ)
Map K V = List (K × V)

module _ {ℓ κ} {K : Type ℓ} {V : Type κ} ⦃e : Eq K⦄ where
  abbrev pub load : Map K V → K → Option V
  load [] k = none
  load ((j, v) ∷ m) k = if j == k then some v else load m k

  -- All entries of the key go.
  abbrev pub delete : Map K V → K → Map K V
  delete [] k = []
  delete ((j, v) ∷ m) k = if j == k then delete m k else (j, v) ∷ delete m k

  abbrev pub store : Map K V → K → V → Map K V
  store m k v = (k, v) ∷ delete m k

  abbrev pub has : Map K V → K → Bool
  has m k = elim (load m k) [ none ↦ false | some v ↦ true ]

  abbrev pub keys : Map K V → List K
  keys [] = []
  keys ((j, v) ∷ m) = j ∷ keys m

  load-delete : (m : Map K V) (k j : K) → load (delete m k) j ≡ (if k == j then none else load m j)
  load-delete [] k j = ground arith
  load-delete ((i, v) ∷ m) k j = elim (Bool-cases (i == k)) [
    | inl hit ↦ ground (arith, eq_of_beq i k hit, load-delete m k j)
    | inr miss ↦ elim (Bool-cases (k == j)) [
      | inl same ↦ ground (arith, eq_of_beq k j same, load-delete m k j)
      | inr other ↦ ground (arith, load-delete m k j)
    ]
  ]

  pub load-store :
      (m : Map K V) (k : K) (v : V) (j : K)
      → load (store m k v) j ≡ (if k == j then some v else load m j)
  load-store m k v j = ground (arith, load-delete m k j)

  pub load-store_self : (m : Map K V) (k : K) (v : V) → load (store m k v) k ≡ some v
  load-store_self m k v = rw (eq_self k)

  pub load-store_other :
      (m : Map K V) (k : K) (v : V) (j : K) → (k == j) ≡ false → load (store m k v) j ≡ load m j
  load-store_other m k v j h = rw (load-store m k v j, h)

  pub load-delete_self : (m : Map K V) (k : K) → load (delete m k) k ≡ none
  load-delete_self m k = rw (load-delete m k k, eq_self k)

  pub load-delete_other :
      (m : Map K V) (k j : K) → (k == j) ≡ false → load (delete m k) j ≡ load m j
  load-delete_other m k j h = rw (load-delete m k j, h)

  -- What holds of every entry that can be read.
  abbrev pub Entries {μ} : (K → V → Type μ) → Map K V → Type (ℓ ⊔ κ ⊔ μ)
  Entries P m = (k : K) (v : V) → load m k ≡ some v → P k v

  pub Entries-store {μ} :
      (P : K → V → Type μ) (m : Map K V) (k : K) (v : V)
      → Entries P m
      → P k v
      → Entries P (store m k v)
  Entries-store P m k v all new j w e = elim (Bool-cases (k == j)) [
    | inl same ↦
        let at : some v ≡ some w =
          sym (load-store_self m k v) ∙ ap (load (store m k v)) (eq_of_beq k j same) ∙ e in
        let found : v ≡ w = cc at in subst (P j) found (subst (λ x. P x v) (eq_of_beq k j same) new)
    | inr other ↦ all j w (sym (load-store_other m k v j other) ∙ e)
  ]

  pub Entries-delete {μ} :
      (P : K → V → Type μ) (m : Map K V) (k : K) → Entries P m → Entries P (delete m k)
  Entries-delete P m k all j w e = elim (Bool-cases (k == j)) [
    | inl same ↦
        let at : none ≡ some w =
          sym (load-delete_self m k) ∙ ap (load (delete m k)) (eq_of_beq k j same) ∙ e in
        cc at
    | inr other ↦ all j w (sym (load-delete_other m k j other) ∙ e)
  ]

  -- What all entries satisfy, an entry that is read does.
  pub load-All {μ} :
      (P : K → V → Type μ) (m : Map K V)
      → All (λ e. P e.0 e.1) m
      → (k : K) {v : V} → load m k ≡ some v
      → P k v
  load-All P [] h k e = cc
  load-All P ((j, w) ∷ m) (p, h) k {v} e = elim (Bool-cases (j == k)) [
    | inl same ↦
        let found : w ≡ v = cc (rw same at e) in
        subst (P k) found (subst (λ x. P x w) (eq_of_beq j k same) p)
    | inr other ↦ load-All P m h k (rw other at e)
  ]
