-- ===== src/Admin/Tables.antt =====
-- Laws of tables with a unique column.
use sps_v.Common.{
  String, ◌≡◌, refl, ◌∙◌, subst, inl, inr, Bool, true, false, Bool-cases, Option-cases, ℕ, ltb,
  filter, latest, some, List, [], ◌∷◌, ◌++◌, ◌==◌, string_eq, eq_iff, is_some, find, update, All,
  All-map, Unique, Exists, arith,
}

module _ {A : Type 0} where
  pub Exists-append : (P : A → Type 0) (xs ys : List A) → Exists P xs → Exists P (xs ++ ys)
  Exists-append P [] ys h = absurd h
  Exists-append P (x ∷ xs) ys (inl here) = inl here
  Exists-append P (x ∷ xs) ys (inr there) = inr (Exists-append P xs ys there)

  -- What an update keeps of a row.
  pub Exists-update :
      (P : A → Type 0) (p : A → Bool) (f : A → A)
      → ((x : A) → P x → P (f x))
      → (xs : List A) → Exists P xs
      → Exists P (update p f xs)
  unfolding update
  Exists-update P p f keeps [] h = absurd h
  Exists-update P p f keeps (x ∷ xs) h = elim (Bool-cases (p x)) [
    | inl here ↦ rw here (elim h [
      | inl first ↦ inl (keeps x first)
      | inr later ↦ inr (Exists-update P p f keeps xs later)
    ])
    | inr other ↦
        rw other
          (elim h [ inl first ↦ inl first | inr later ↦ inr (Exists-update P p f keeps xs later) ])
  ]

  pub update_none :
      (p : A → Bool) (f : A → A) (xs : List A) → is_some (find p xs) ≡ false → update p f xs ≡ xs
  unfolding update find
  update_none p f [] h = refl
  update_none p f (x ∷ xs) h = ground (arith, update_none p f xs)

  -- The row that is found is one of the table.
  pub Exists-find_row :
      (p : A → Bool) (xs : List A) (a : A)
      → find p xs ≡ some a
      → Exists (λ x. (x ≡ a) × (p x ≡ true)) xs
  unfolding find
  Exists-find_row p [] a e = absurd (cc)
  Exists-find_row p (x ∷ xs) a e = elim (Bool-cases (p x)) [
    | inl here ↦ inl (ground arith, here)
    | inr past ↦ inr (Exists-find_row p xs a (ground arith))
  ]

  -- The latest of the rows that a test selects is one of them.
  pub Exists-latest_row :
      (p : A → Bool) (at : A → ℕ) (xs : List A) (a : A)
      → latest at (filter p xs) ≡ some a
      → Exists (λ x. (x ≡ a) × (p x ≡ true)) xs
  unfolding latest filter
  Exists-latest_row p at [] a e = absurd (cc)
  Exists-latest_row p at (x ∷ xs) a e = elim (Bool-cases (p x)) [
    | inr past ↦ inr (Exists-latest_row p at xs a (ground arith))
    | inl here ↦ elim (Option-cases (latest at (filter p xs))) [
      | inl alone ↦ inl (ground arith, here)
      | inr (y, q) ↦ elim (Bool-cases (ltb (at x) (at y))) [
        | inl less ↦ inr (Exists-latest_row p at xs a (ground arith))
        | inr more ↦ inl (ground arith, here)
      ]
    ]
  ]

  module _ (key : A → String) (k : String) (f : A → A) where
    -- The one row that is found is the one that is updated.
    pub All-update :
        (P Q : A → Type 0)
        → ((x : A) → P x → Q x)
        → (xs : List A) (r : A) → Unique key xs
        → find (λ x. key x == k) xs ≡ some r
        → Q (f r)
        → All P xs
        → All Q (update (λ x. key x == k) f xs)
    unfolding update find
    All-update P Q keeps [] r u e q h = absurd (cc)
    All-update P Q keeps (x ∷ xs) r (new, u) e q (here, there) = elim (Bool-cases (key x == k)) [
      | inr other ↦ rw other (keeps x here, All-update P Q keeps xs r u (ground arith) q there)
      | inl same ↦
          let first : r ≡ x = ground arith in
          let k_is : key x ≡ k = ground (arith, eq_iff (key x) k) in
          let rest =
            update_none (λ y. key y == k) f xs
              (subst (λ c. is_some (find (λ y. key y == c) xs) ≡ false) k_is new) in
          rw (same, rest) (subst (λ y. Q (f y)) first q, All-map P Q keeps xs there)
    ]

    find-update_key :
        ((x : A) → key (f x) ≡ key x)
        → (c : String) (xs : List A)
        → is_some (find (λ y. key y == c) (update (λ x. key x == k) f xs))
          ≡ is_some (find (λ y. key y == c) xs)
    unfolding update find
    find-update_key same c [] = refl
    find-update_key same c (x ∷ xs) = ground (arith, same x, find-update_key same c xs)

    pub Unique-update :
        ((x : A) → key (f x) ≡ key x)
        → (xs : List A) → Unique key xs
        → Unique key (update (λ x. key x == k) f xs)
    unfolding update
    Unique-update same [] u = tt
    Unique-update same (x ∷ xs) (new, u) = elim (Bool-cases (key x == k)) [
      | inl here ↦
          rw here ((rw (same x) (find-update_key same (key x) xs)) ∙ new, Unique-update same xs u)
      | inr other ↦ rw other (find-update_key same (key x) xs ∙ new, Unique-update same xs u)
    ]
