-- ===== src/Common/TableLaws.antt =====
-- What the queries find.
use mathlib.Core.Path.{◌≡◌, refl}
use mathlib.Core.Bool.{Bool, true, false}
use mathlib.Core.Option.{none, some}
use mathlib.Core.List.{List, [], ◌∷◌, ◌++◌}
use native.Mathlib.Omega.{arith}
use Prim.Native.Nat.{ℕ, ◌≤◌, ◌+◌}
use mathlib.Core.Logic.{◌⊎◌, inl, inr}
use sps_v.Common.Tests.{if◌then◌else◌, is_some, Bool-cases, Option-cases, ltb}
use sps_v.Common.Tables.{find, filter, update, latest, count}

-- Some row satisfies `P`.
abbrev pub Exists {ℓ} : {A : Type ℓ} → (A → Type 0) → List A → Type 0
Exists P [] = ⊥
Exists P (x ∷ xs) = P x ⊎ Exists P xs

pub List-cases {ℓ} :
    {A : Type ℓ} (xs : List A) → (xs ≡ []) ⊎ ((x : A) × (r : List A) × (xs ≡ x ∷ r))
List-cases [] = inl refl
List-cases (x ∷ r) = inr (x, r, refl)

-- No row, one, or more.
pub count_cases {ℓ} :
    {A : Type ℓ} (xs : List A)
    → (xs ≡ [])
      ⊎ (((x : A) × (xs ≡ x ∷ [])) ⊎ ((x : A) × (y : A) × (r : List A) × (xs ≡ x ∷ y ∷ r)))
count_cases [] = inl refl
count_cases (x ∷ []) = inr (inl (x, refl))
count_cases (x ∷ y ∷ r) = inr (inr (x, y, r, refl))

pub Exists-map {ℓ} :
    {A : Type ℓ} {P Q : A → Type 0}
    → ((x : A) → P x → Q x)
    → (xs : List A) → Exists P xs
    → Exists Q xs
Exists-map f [] h = h
Exists-map f (x ∷ xs) (inl here) = inl (f x here)
Exists-map f (x ∷ xs) (inr there) = inr (Exists-map f xs there)

-- What follows from each row that satisfies `P`.
pub Exists-elim {ℓ} :
    {A : Type ℓ} {P : A → Type 0} {Q : Type 0}
    → ((x : A) → P x → Q)
    → (xs : List A) → Exists P xs
    → Q
Exists-elim f [] h = absurd h
Exists-elim f (x ∷ xs) (inl here) = f x here
Exists-elim f (x ∷ xs) (inr there) = Exists-elim f xs there

module _ {ℓ} {A : Type ℓ} (p : A → Bool) where
  -- A row that is appended is found where no earlier one was.
  pub find-append_new :
      (xs : List A) (y : A) → find p xs ≡ none → p y ≡ true → find p (xs ++ y ∷ []) ≡ some y
  unfolding find
  find-append_new [] y e h = rw h
  find-append_new (x ∷ xs) y e h = ground (arith, find-append_new xs y)

  -- A row that was found stays found.
  pub find-append_old : (xs ys : List A) (a : A) → find p xs ≡ some a → find p (xs ++ ys) ≡ some a
  unfolding find
  find-append_old [] ys a e = cc
  find-append_old (x ∷ xs) ys a e = ground (arith, find-append_old xs ys a)

  pub find-satisfies : (xs : List A) (a : A) → find p xs ≡ some a → p a ≡ true
  unfolding find
  find-satisfies [] a e = cc
  find-satisfies (x ∷ xs) a e = ground (arith, find-satisfies xs a)

  -- An update that keeps the test is seen by the search.
  pub find-update_self :
      (f : A → A) (xs : List A) (a : A)
      → p (f a) ≡ true
      → find p xs ≡ some a
      → find p (update p f xs) ≡ some (f a)
  unfolding find update
  find-update_self f [] a h e = cc
  find-update_self f (x ∷ xs) a h e = ground (arith, find-update_self f xs a h)

  -- An update of other rows is not.
  pub find-update_ne :
      (q : A → Bool) (f : A → A) (xs : List A)
      → ((a : A) → q a ≡ true → (p a ≡ false) × (p (f a) ≡ false))
      → find p (update q f xs) ≡ find p xs
  unfolding find update
  find-update_ne q f [] h = refl
  find-update_ne q f (x ∷ xs) h = ground (arith, h x, find-update_ne q f xs h)

  -- The search and the existence of a row.
  pub Exists-find : (xs : List A) → is_some (find p xs) ≡ true → Exists (λ x. p x ≡ true) xs
  unfolding find
  Exists-find [] h = absurd (cc)
  Exists-find (x ∷ xs) h = elim (Bool-cases (p x)) [
    | inl here ↦ inl here
    | inr there ↦ inr (Exists-find xs (ground arith))
  ]

  pub find_of_Exists : (xs : List A) → Exists (λ x. p x ≡ true) xs → is_some (find p xs) ≡ true
  unfolding find
  find_of_Exists [] h = absurd h
  find_of_Exists (x ∷ xs) (inl here) = ground arith
  find_of_Exists (x ∷ xs) (inr there) = ground (arith, find_of_Exists xs there)

  module _ (key : A → ℕ) where
    -- The newest of the selected rows is one of them.
    pub Exists-latest :
        (xs : List A) (a : A)
        → latest key (filter p xs) ≡ some a
        → Exists (λ x. (p x ≡ true) × (key x ≡ key a)) xs
    unfolding latest filter
    Exists-latest [] a e = absurd (cc)
    Exists-latest (x ∷ xs) a e = elim (Bool-cases (p x)) [
      | inr old ↦ inr (Exists-latest xs a (ground arith))
      | inl new ↦ elim (Option-cases (latest key (filter p xs))) [
        | inl empty ↦ inl (new, ground arith)
        | inr (y, q) ↦ elim (Bool-cases (ltb (key x) (key y))) [
          | inl less ↦ inr (Exists-latest xs a (ground arith))
          | inr more ↦ inl (new, ground arith)
        ]
      ]
    ]

    -- It is as new as any of them.
    pub latest_of_Exists :
        (n : ℕ) (xs : List A)
        → Exists (λ x. (p x ≡ true) × (n ≤ key x)) xs
        → (a : A) × (latest key (filter p xs) ≡ some a) × (n ≤ key a)
    unfolding latest filter
    latest_of_Exists n [] h = absurd h
    latest_of_Exists n (x ∷ xs) (inl here) = elim (Option-cases (latest key (filter p xs))) [
      | inl empty ↦ (x, ground arith, here.1)
      | inr (y, q) ↦ elim (Bool-cases (ltb (key x) (key y))) [
        | inl less ↦ (y, ground arith, ground arith)
        | inr more ↦ (x, ground arith, here.1)
      ]
    ]
    latest_of_Exists n (x ∷ xs) (inr there) =
        let (y, q, le) = latest_of_Exists n xs there in
        elim (Bool-cases (p x)) [
          | inr old ↦ (y, ground arith, le)
          | inl new ↦ elim (Bool-cases (ltb (key x) (key y))) [
            | inl less ↦ (y, ground arith, le)
            | inr more ↦ (x, ground arith, ground arith)
          ]
        ]

  -- A row that is appended counts by its own test.
  pub count-append :
      (xs : List A) (y : A) → count p (xs ++ y ∷ []) ≡ count p xs + (if p y then 1 else 0)
  unfolding count
  count-append [] y = ground arith
  count-append (x ∷ xs) y = ground (arith, count-append xs y)

-- A narrower test counts no more.
pub count_mono {ℓ} :
    {A : Type ℓ} (p q : A → Bool)
    → ((a : A) → p a ≡ true → q a ≡ true)
    → (xs : List A) → count p xs ≤ count q xs
unfolding count
count_mono p q h [] = omega arith
count_mono p q h (x ∷ xs) = ground (arith, h x, count_mono p q h xs)

-- A test that holds of no row, and one that implies it.
module _ {ℓ} {A : Type ℓ} (p q : A → Bool) (implies : (a : A) → p a ≡ true → q a ≡ true) where
  pub find-implies_none : (xs : List A) → is_some (find q xs) ≡ false → find p xs ≡ none
  unfolding find
  find-implies_none [] h = refl
  find-implies_none (x ∷ xs) h = ground (arith, implies x, find-implies_none xs)

  pub filter-implies_none : (xs : List A) → is_some (find q xs) ≡ false → filter p xs ≡ []
  unfolding find filter
  filter-implies_none [] h = refl
  filter-implies_none (x ∷ xs) h = ground (arith, implies x, filter-implies_none xs)

-- The one appended row that passes a test that no other does.
pub filter-append_one {ℓ} :
    {A : Type ℓ} (p : A → Bool) (xs : List A) (y : A)
    → filter p xs ≡ []
    → p y ≡ true
    → filter p (xs ++ y ∷ []) ≡ y ∷ []
unfolding filter
filter-append_one p [] y e h = ground arith
filter-append_one p (x ∷ xs) y e h = ground (arith, filter-append_one p xs y)

pub Exists-last {ℓ} :
    {A : Type ℓ} (P : A → Type 0) (xs : List A) (a : A) → P a → Exists P (xs ++ a ∷ [])
Exists-last P [] a h = inl h
Exists-last P (x ∷ xs) a h = inr (Exists-last P xs a h)
