-- ===== src/Common/Sorting.antt =====
-- Stable insertion by a numeric key, as ORDER BY of one column.
use Prim.Native.Nat.{ℕ, ◌+◌, ◌≤◌}
use mathlib.Core.Path.{◌≡◌, refl, ap, ◌∙◌}
use mathlib.Core.Bool.{Bool, ◌||◌, ◌&&◌}
use mathlib.Core.List.{List, [], ◌∷◌}
use mathlib.Core.Logic.{inl, inr}
use native.Mathlib.Omega.{arith}
use go_claw.Common.Tests.{if◌then◌else◌, ltb, Bool-cases}
use go_claw.Common.Lists.{any, count_if, filter, All, All-imp}

module _ {ℓ} {A : Type ℓ} (key : A → ℕ) where
  abbrev pub insert_by : A → List A → List A
  insert_by x [] = x ∷ []
  insert_by x (y ∷ ys) =
      let rest = insert_by x ys in if ltb (key y) (key x) then y ∷ rest else x ∷ y ∷ ys

  abbrev pub sort_by : List A → List A
  sort_by [] = []
  sort_by (x ∷ xs) = insert_by x (sort_by xs)

  any-insert_by : (f : A → Bool) (x : A) (xs : List A) → any f (insert_by x xs) ≡ (f x || any f xs)
  any-insert_by f x [] = refl
  any-insert_by f x (y ∷ xs) = ground (arith, any-insert_by f x xs)

  pub any-sort_by : (f : A → Bool) (xs : List A) → any f (sort_by xs) ≡ any f xs
  any-sort_by f [] = refl
  any-sort_by f (x ∷ xs) = any-insert_by f x (sort_by xs) ∙ ap (λ b. f x || b) (any-sort_by f xs)

  count-insert_by :
      (f : A → Bool) (x : A) (xs : List A)
      → count_if f (insert_by x xs) ≡ (if f x then 1 else 0) + count_if f xs
  count-insert_by f x [] = refl
  count-insert_by f x (y ∷ xs) = ground (arith, count-insert_by f x xs)

  pub count-sort_by : (f : A → Bool) (xs : List A) → count_if f (sort_by xs) ≡ count_if f xs
  count-sort_by f [] = refl
  count-sort_by f (x ∷ xs) =
      count-insert_by f x (sort_by xs) ∙ ap (λ n. (if f x then 1 else 0) + n) (count-sort_by f xs)

  -- No element's key is above that of a later one.
  abbrev pub Ascending : List A → Type ℓ
  Ascending [] = Unit
  Ascending (x ∷ xs) = All (λ y. key x ≤ key y) xs × Ascending xs

  All-insert_by : (P : A → Type 0) (x : A) (xs : List A) → P x → All P xs → All P (insert_by x xs)
  All-insert_by P x [] p h = (p, tt)
  All-insert_by P x (y ∷ xs) p h = elim (Bool-cases (ltb (key y) (key x))) [
    | inl t ↦ rw t (h.0, All-insert_by P x xs p h.1)
    | inr f ↦ rw f (p, h)
  ]

  pub All-sort_by : (P : A → Type 0) (xs : List A) → All P xs → All P (sort_by xs)
  All-sort_by P [] h = tt
  All-sort_by P (x ∷ xs) h = All-insert_by P x (sort_by xs) h.0 (All-sort_by P xs h.1)

  insert_by-Ascending : (x : A) (xs : List A) → Ascending xs → Ascending (insert_by x xs)
  insert_by-Ascending x [] a = (tt, tt)
  insert_by-Ascending x (y ∷ xs) a = elim (Bool-cases (ltb (key y) (key x))) [
    | inl t ↦
        rw t
          (All-insert_by (λ z. key y ≤ key z) x xs (ground arith) a.0, insert_by-Ascending x xs a.1)
    | inr f ↦
        let le : key x ≤ key y = ground arith in
        rw f ((le, All-imp _ _ xs (λ z l. omega arith) a.0), a)
  ]

  pub sort_by-Ascending : (xs : List A) → Ascending (sort_by xs)
  sort_by-Ascending [] = tt
  sort_by-Ascending (x ∷ xs) = insert_by-Ascending x (sort_by xs) (sort_by-Ascending xs)

-- A list that holds, in ascending order of a key and each as often, what passes a test in another one.
pub record IsOrdered {ℓ} {A : Type ℓ} (key : A → ℕ) (p : A → Bool) (xs ys : List A) : Type ℓ where
  pub ascending : Ascending key ys
  pub counted : (f : A → Bool) → count_if f ys ≡ count_if (λ x. p x && f x) xs

count-filter {ℓ} :
    {A : Type ℓ} (p f : A → Bool) (xs : List A)
    → count_if f (filter p xs) ≡ count_if (λ x. p x && f x) xs
count-filter p f [] = refl
count-filter p f (x ∷ xs) = ground (arith, count-filter p f xs)

pub sort_by-IsOrdered {ℓ} :
    {A : Type ℓ} (key : A → ℕ) (p : A → Bool) (xs : List A)
    → IsOrdered key p xs (sort_by key (filter p xs))
sort_by-IsOrdered key p xs = record {
  ascending = sort_by-Ascending key (filter p xs);
  counted = λ f. count-sort_by key f (filter p xs) ∙ count-filter p f xs;
}
