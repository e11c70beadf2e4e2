-- ===== src/Common/Keys.antt =====
-- Unique columns, and what holds of all rows.
use mathlib.Core.Path.{◌≡◌, refl, subst}
use mathlib.Core.Bool.{Bool, true, false}
use mathlib.Core.Option.{some}
use mathlib.Core.List.{List, [], ◌∷◌, ◌++◌, map}
use native.Mathlib.Omega.{arith}
use Prim.Native.String.{String}
use text.Mathlib.TextEquality.{eq_iff}
use sps_v.Common.Tests.{◌==◌, string_eq, is_some, Bool-cases}
use mathlib.Core.Logic.{inl, inr}
use sps_v.Common.Tables.{find, elem, filter}
use sps_v.Common.TableLaws.{Exists}

-- Every row satisfies `P`.
abbrev pub All {ℓ} : {A : Type ℓ} → (A → Type 0) → List A → Type 0
All P [] = Unit
All P (x ∷ xs) = P x × All P xs

-- No two rows have the same key.
abbrev pub Unique {ℓ} : {A : Type ℓ} → (A → String) → List A → Type 0
Unique key [] = Unit
Unique key (x ∷ xs) = (is_some (find (λ y. key y == key x) xs) ≡ false) × Unique key xs

module _ {ℓ} {A : Type ℓ} where
  pub All-append : (P : A → Type 0) (xs : List A) (a : A) → All P xs → P a → All P (xs ++ a ∷ [])
  All-append P [] a h p = (p, tt)
  All-append P (x ∷ xs) a (q, h) p = (q, All-append P xs a h p)

  pub All-map : (P Q : A → Type 0) → ((a : A) → P a → Q a) → (xs : List A) → All P xs → All Q xs
  All-map P Q f [] h = tt
  All-map P Q f (x ∷ xs) (p, h) = (f x p, All-map P Q f xs h)

  find-append_none :
      (p : A → Bool) (xs : List A) (a : A)
      → is_some (find p xs) ≡ false
      → p a ≡ false
      → is_some (find p (xs ++ a ∷ [])) ≡ false
  unfolding find
  find-append_none p [] a e h = ground arith
  find-append_none p (x ∷ xs) a e h = ground (arith, find-append_none p xs a)

  -- A row with a new key keeps the keys unique.
  pub Unique-append :
      (key : A → String) (xs : List A) (a : A)
      → Unique key xs
      → is_some (find (λ y. key y == key a) xs) ≡ false
      → Unique key (xs ++ a ∷ [])
  unfolding find
  Unique-append key [] a h new = (refl, tt)
  Unique-append key (x ∷ xs) a (e, h) new = (
    find-append_none (λ y. key y == key x) xs a e
        (ground (arith, eq_iff (key a) (key x), eq_iff (key x) (key a))),
    Unique-append key xs a h (ground arith),
  )

module _ {ℓ} {A : Type ℓ} (p : A → Bool) where
  -- What holds of all rows holds of the one that is found.
  pub All-find : (P : A → Type 0) (xs : List A) (a : A) → All P xs → find p xs ≡ some a → P a
  unfolding find
  All-find P [] a h e = absurd (cc)
  All-find P (x ∷ xs) a (here, there) e = elim (Bool-cases (p x)) [
    | inl first ↦ subst P (ground arith) here
    | inr past ↦ All-find P xs a there (ground arith)
  ]

-- A value is in a column of the selected rows exactly if one of them has it.
module _ {A : Type 0} (key : A → String) (p : A → Bool) (s : String) where
  pub Exists-elem :
      (xs : List A)
      → elem s (map key (filter p xs)) ≡ true
      → Exists (λ x. (key x ≡ s) × (p x ≡ true)) xs
  unfolding elem filter
  Exists-elem [] h = absurd (cc)
  Exists-elem (x ∷ xs) h = elim (Bool-cases (p x)) [
    | inr past ↦ inr (Exists-elem xs (ground arith))
    | inl here ↦ elim (Bool-cases (key x == s)) [
      | inl same ↦ inl ((eq_iff (key x) s).0 same, here)
      | inr other ↦ inr (Exists-elem xs (ground arith))
    ]
  ]

  pub elem_of_Exists :
      (xs : List A)
      → Exists (λ x. (key x ≡ s) × (p x ≡ true)) xs
      → elem s (map key (filter p xs)) ≡ true
  unfolding elem filter
  elem_of_Exists [] h = absurd h
  elem_of_Exists (x ∷ xs) (inl here) = ground (arith, eq_iff (key x) s)
  elem_of_Exists (x ∷ xs) (inr there) = ground (arith, elem_of_Exists xs there)
