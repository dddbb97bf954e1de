-- ===== src/Common/Sort.antt =====
-- sort.SliceStable and sort.Slice by a Go `less` function: a stable insertion sort.
use Prim.Native.Nat.{suc}
use mathlib.Core.Path.{◌≡◌, refl}
use mathlib.Core.Logic.{◌⊎◌, inl, inr}
use mathlib.Core.Bool.{Bool, true, false}
use mathlib.Core.List.{List, [], ◌∷◌, Perm}
use mathlib.Core.List.Perm
use native.Mathlib.Omega.{arith}
use hybridblockchain.Common.Tests.{if◌then◌else◌, Bool-cases}
use hybridblockchain.Common.Lists.{length, All}

module _ {ℓ} {A : Type ℓ} (less : A → A → Bool) where
  -- Places `x` before the first element that is not less than it: `x` stood before all of these.
  unfoldable pub sort_insert : A → List A → List A
  sort_insert x [] = x ∷ []
  sort_insert x (y ∷ ys) = if less y x then y ∷ sort_insert x ys else x ∷ y ∷ ys

  unfoldable pub sort_stable : List A → List A
  unfolding sort_insert
  sort_stable [] = []
  sort_stable (x ∷ xs) = sort_insert x (sort_stable xs)

  -- No element is less than one that stands before it.
  abbrev pub IsSorted : List A → Type ℓ
  IsSorted [] = Unit
  IsSorted (x ∷ xs) = All (λ y. less y x ≡ false) xs × IsSorted xs

  module _ {κ} (P : A → Type κ) where
    All-sort_insert : (x : A) (xs : List A) → P x → All P xs → All P (sort_insert x xs)
    unfolding sort_insert
    All-sort_insert x [] p h = (p, tt)
    All-sort_insert x (y ∷ ys) p h = elim (Bool-cases (less y x)) [
      | inl e ↦ rw e (h.0, All-sort_insert x ys p h.1)
      | inr e ↦ rw e (p, h)
    ]

    pub All-sort_stable : (xs : List A) → All P xs → All P (sort_stable xs)
    unfolding sort_stable
    All-sort_stable [] h = tt
    All-sort_stable (x ∷ xs) h = All-sort_insert x (sort_stable xs) h.0 (All-sort_stable xs h.1)

  length-sort_insert : (x : A) (xs : List A) → length (sort_insert x xs) ≡ suc (length xs)
  unfolding sort_insert
  length-sort_insert x [] = refl
  length-sort_insert x (y ∷ ys) = ground (arith, length-sort_insert x ys)

  pub length-sort_stable : (xs : List A) → length (sort_stable xs) ≡ length xs
  unfolding sort_stable
  length-sort_stable [] = refl
  length-sort_stable (x ∷ xs) =
      omega (arith, length-sort_insert x (sort_stable xs), length-sort_stable xs)

  sort_insert-perm : (x : A) (xs : List A) → Perm (sort_insert x xs) (x ∷ xs)
  unfolding sort_insert
  sort_insert-perm x [] = Perm.refl (x ∷ [])
  sort_insert-perm x (y ∷ ys) = elim (Bool-cases (less y x)) [
    | inl e ↦ rw e (Perm.trans (Perm.cons y (sort_insert-perm x ys)) (Perm.swap x y ys))
    | inr e ↦ rw e (Perm.refl (x ∷ y ∷ ys))
  ]

  pub sort_stable-perm : (xs : List A) → Perm (sort_stable xs) xs
  unfolding sort_stable
  sort_stable-perm [] = Perm.refl []
  sort_stable-perm (x ∷ xs) =
      Perm.trans (sort_insert-perm x (sort_stable xs)) (Perm.cons x (sort_stable-perm xs))

  -- `Comparable` elements are those between which the order is not undecided (no NaN).
  module _ {κ} (Comparable : A → Type κ) (asym : (a b : A) → less a b ≡ true → less b a ≡ false)
      (cotrans : (a b c : A)
        → Comparable b
        → less a c ≡ true
        → (less a b ≡ true) ⊎ (less b c ≡ true)) where
    not_less_trans :
        (x y z : A) → Comparable y → less z y ≡ false → less y x ≡ false → less z x ≡ false
    not_less_trans x y z c h k = elim (Bool-cases (less z x)) [
      | inl e ↦ elim (cotrans z y x c e) [ inl p ↦ cc | inr p ↦ cc ]
      | inr e ↦ e
    ]

    All-not_less :
        (x y : A) (zs : List A)
        → Comparable y
        → less y x ≡ false
        → All (λ z. less z y ≡ false) zs
        → All (λ z. less z x ≡ false) zs
    All-not_less x y [] c h k = tt
    All-not_less x y (z ∷ zs) c h k = (not_less_trans x y z c k.0 h, All-not_less x y zs c h k.1)

    sort_insert-IsSorted :
        (x : A) (xs : List A) → All Comparable xs → IsSorted xs → IsSorted (sort_insert x xs)
    unfolding sort_insert
    sort_insert-IsSorted x [] c s = (tt, tt)
    sort_insert-IsSorted x (y ∷ ys) c s = elim (Bool-cases (less y x)) [
      | inl e ↦ rw e (
        All-sort_insert (λ z. less z y ≡ false) x ys (asym y x e) s.0,
        sort_insert-IsSorted x ys c.1 s.1,
      )
      | inr e ↦ rw e ((e, All-not_less x y ys c.0 e s.0), (s.0, s.1))
    ]

    pub sort_stable-IsSorted : (xs : List A) → All Comparable xs → IsSorted (sort_stable xs)
    unfolding sort_stable
    sort_stable-IsSorted [] c = tt
    sort_stable-IsSorted (x ∷ xs) c =
        sort_insert-IsSorted x (sort_stable xs) (All-sort_stable Comparable xs c.1)
          (sort_stable-IsSorted xs c.1)
