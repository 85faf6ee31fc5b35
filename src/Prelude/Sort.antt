-- ===== src/Prelude/Sort.antt =====
-- A stable sort by a test, and what it keeps.
use mathlib.Core.Path.{◌≡◌}
use mathlib.Core.Logic.{inl, inr}
use mathlib.Core.Bool.{Bool, true, false}
use mathlib.Core.List.{List, [], ◌∷◌, ◌++◌, Perm}
use mathlib.Core.List.Perm
use native.Mathlib.Omega.{arith}
use netops_console.Prelude.Tests.{Bool-cases}
use netops_console.Prelude.Lists.{All, All-mono, All-append, All-keep, any, keep}

-- Lists without two entries that are the same to a test.
abbrev pub Distinct {ℓ} : {A : Type ℓ} → (A → A → Bool) → List A → Type 0
Distinct same [] = Unit
Distinct same (x ∷ xs) = All (λ y. same x y ≡ false) xs × Distinct same xs

module _ {A : Type 0} where
  -- What `any` did not find.
  pub any_none : (p : A → Bool) (xs : List A) → any p xs ≡ false → All (λ x. p x ≡ false) xs
  unfolding any
  any_none p [] h = tt
  any_none p (x ∷ xs) h = (ground arith, any_none p xs (ground arith))

  module _ (same : A → A → Bool) where
    pub Distinct-append :
        (xs : List A) (y : A)
        → Distinct same xs
        → All (λ x. same x y ≡ false) xs
        → Distinct same (xs ++ y ∷ [])
    Distinct-append [] y h k = (tt, tt)
    Distinct-append (x ∷ xs) y h k =
        (All-append (λ z. same x z ≡ false) xs (y ∷ []) h.0 (k.0, tt), Distinct-append xs y h.1 k.1)

    pub Distinct-keep : (p : A → Bool) (xs : List A) → Distinct same xs → Distinct same (keep p xs)
    unfolding keep
    Distinct-keep p [] h = tt
    Distinct-keep p (x ∷ xs) h =
        elim (p x) as (λ b. Distinct same (elim b [ true ↦ x ∷ keep p xs | false ↦ keep p xs ])) [
          | true ↦ (All-keep (λ z. same x z ≡ false) p xs h.0, Distinct-keep p xs h.1)
          | false ↦ Distinct-keep p xs h.1
        ]

module _ {A : Type 0} (before : A → A → Bool) where
  unfoldable pub insert : A → List A → List A
  insert x [] = x ∷ []
  insert x (y ∷ ys) =
      let rest = insert x ys in elim (before x y) [ true ↦ x ∷ y ∷ ys | false ↦ y ∷ rest ]

  -- `sorted(xs)`, where `before` is the order with its equality.
  unfoldable pub sort : List A → List A
  sort [] = []
  sort (x ∷ xs) = insert x (sort xs)

  -- Each entry comes before all the later ones.
  abbrev pub Sorted : List A → Type 0
  Sorted [] = Unit
  Sorted (x ∷ xs) = All (λ y. before x y ≡ true) xs × Sorted xs

  pub insert-Perm : (x : A) (xs : List A) → Perm (insert x xs) (x ∷ xs)
  unfolding insert
  insert-Perm x [] = Perm.refl (x ∷ [])
  insert-Perm x (y ∷ ys) =
      elim (before x y)
        as (λ b. Perm (elim b [ true ↦ x ∷ y ∷ ys | false ↦ y ∷ insert x ys ]) (x ∷ y ∷ ys)) [
          | true ↦ Perm.refl (x ∷ y ∷ ys)
          | false ↦ Perm.trans (Perm.cons y (insert-Perm x ys)) (Perm.swap x y ys)
        ]

  pub sort-Perm : (xs : List A) → Perm (sort xs) xs
  unfolding sort
  sort-Perm [] = Perm.refl []
  sort-Perm (x ∷ xs) = Perm.trans (insert-Perm x (sort xs)) (Perm.cons x (sort-Perm xs))

  pub All-insert : (P : A → Type 0) (x : A) (xs : List A) → P x → All P xs → All P (insert x xs)
  unfolding insert
  All-insert P x [] h k = (h, k)
  All-insert P x (y ∷ ys) h k =
      elim (before x y) as (λ b. All P (elim b [ true ↦ x ∷ y ∷ ys | false ↦ y ∷ insert x ys ])) [
        | true ↦ (h, k)
        | false ↦ (k.0, All-insert P x ys h k.1)
      ]

  pub All-sort : (P : A → Type 0) (xs : List A) → All P xs → All P (sort xs)
  unfolding sort
  All-sort P [] h = tt
  All-sort P (x ∷ xs) h = All-insert P x (sort xs) h.0 (All-sort P xs h.1)

  module _ (total : (x y : A) → before x y ≡ false → before y x ≡ true)
      (trans : (x y z : A) → before x y ≡ true → before y z ≡ true → before x z ≡ true) where
    pub insert-Sorted : (x : A) (xs : List A) → Sorted xs → Sorted (insert x xs)
    unfolding insert
    insert-Sorted x [] h = (tt, tt)
    insert-Sorted x (y ∷ ys) h = elim (Bool-cases (before x y)) [
      | inl e ↦ rw (e, Sorted) ((e, All-mono _ _ (λ z k. trans x y z e k) ys h.0), h)
      | inr e ↦
          rw (e, Sorted)
            (All-insert (λ z. before y z ≡ true) x ys (total x y e) h.0, insert-Sorted x ys h.1)
    ]

    pub sort-Sorted : (xs : List A) → Sorted (sort xs)
    unfolding sort
    sort-Sorted [] = tt
    sort-Sorted (x ∷ xs) = insert-Sorted x (sort xs) (sort-Sorted xs)
