-- ===== src/Common/Text/Sets.antt =====
-- A sorted set of texts has the elements of the list that it is made of, each once, in increasing order.
use Prim.Native.Char.{code}
use Prim.Native.Nat.{Ordering, ℕ, zero, suc, compare as compare_ℕ}
use Prim.Native.Nat.compare as Number
use Prim.Native.String.{compare, then}
use Prim.Native.String.compare as Texts
use sps_v.Common.{
  String, ◌≡◌, refl, sym, ◌∙◌, ap, subst, inl, inr, ◌||◌, List, [], ◌∷◌, ◌++◌, ◌==◌, string_eq,
  elem, ◌⊎◌, arith,
}
use sps_v.Common.Text.{insert_text, sorted_set}
use text.Mathlib.TextEquality.{path_by_compare}

abbrev flip : Ordering → Ordering
flip Ordering.lt = Ordering.gt
flip Ordering.eq = Ordering.eq
flip Ordering.gt = Ordering.lt

flip_number : (m n : ℕ) → compare_ℕ n m ≡ flip (compare_ℕ m n)
flip_number zero zero = Number.zero-zero ∙ ap flip (sym Number.zero-zero)
flip_number zero (suc n) = Number.suc-zero n ∙ ap flip (sym (Number.zero-suc n))
flip_number (suc m) zero = Number.zero-suc m ∙ ap flip (sym (Number.suc-zero m))
flip_number (suc m) (suc n) =
    Number.suc-suc n m ∙ (flip_number m n ∙ ap flip (sym (Number.suc-suc m n)))

flip-then : (o r : Ordering) → then (flip o) (flip r) ≡ flip (then o r)
flip-then Ordering.lt r = refl
flip-then Ordering.eq r = refl
flip-then Ordering.gt r = refl

flip_text : (s t : String) → compare t s ≡ flip (compare s t)
flip_text String.[] String.[] = Texts.nil-nil ∙ ap flip (sym Texts.nil-nil)
flip_text String.[] (String.◌∷◌ d t) = Texts.cons-nil d t ∙ ap flip (sym (Texts.nil-cons d t))
flip_text (String.◌∷◌ c s) String.[] = Texts.nil-cons c s ∙ ap flip (sym (Texts.cons-nil c s))
flip_text (String.◌∷◌ c s) (String.◌∷◌ d t) =
    Texts.cons-cons d c t s
    ∙ (ap (λ o. then o (compare t s)) (flip_number (code c) (code d))
        ∙ (ap (then (flip (compare_ℕ (code c) (code d)))) (flip_text s t)
            ∙ (flip-then (compare_ℕ (code c) (code d)) (compare s t)
                ∙ ap flip (sym (Texts.cons-cons c d s t)))))

-- Each text is less than the one after it.
abbrev pub IsIncreasing : List String → Type 0
IsIncreasing [] = Unit
IsIncreasing (x ∷ []) = Unit
IsIncreasing (x ∷ y ∷ r) = (compare x y ≡ Ordering.lt) × IsIncreasing (y ∷ r)

Ordering-cases : (o : Ordering) → (o ≡ Ordering.lt) ⊎ ((o ≡ Ordering.eq) ⊎ (o ≡ Ordering.gt))
Ordering-cases Ordering.lt = inl refl
Ordering-cases Ordering.eq = inr (inl refl)
Ordering-cases Ordering.gt = inr (inr refl)

module _ (s x : String) (xs : List String) where
  insert_lt : compare s x ≡ Ordering.lt → insert_text s (x ∷ xs) ≡ s ∷ x ∷ xs
  unfolding insert_text
  insert_lt e = rw (insert_text, e) refl

  insert_eq : compare s x ≡ Ordering.eq → insert_text s (x ∷ xs) ≡ x ∷ xs
  unfolding insert_text
  insert_eq e = rw (insert_text, e) refl

  insert_gt : compare s x ≡ Ordering.gt → insert_text s (x ∷ xs) ≡ x ∷ insert_text s xs
  unfolding insert_text
  insert_gt e = rw (insert_text, e) refl

elem-insert_text :
    (s t : String) (xs : List String) → elem t (insert_text s xs) ≡ (s == t || elem t xs)
unfolding elem insert_text
elem-insert_text s t [] = refl
elem-insert_text s t (x ∷ xs) = elim (Ordering-cases (compare s x)) [
  | inl less ↦ rw (insert_lt s x xs less) refl
  | inr (inl same) ↦
      let e = path_by_compare s x same in rw (insert_eq s x xs same) (ground (arith, e))
  | inr (inr more) ↦
      let rest = elem-insert_text s t xs in rw (insert_gt s x xs more) (ground (arith, rest))
]

-- What a text that is inserted after a lesser one leaves of the order.
after_lesser :
    (s x : String) (xs : List String)
    → compare x s ≡ Ordering.lt
    → IsIncreasing (x ∷ xs)
    → IsIncreasing (insert_text s xs)
    → IsIncreasing (x ∷ insert_text s xs)
unfolding insert_text
after_lesser s x [] less h k = (less, tt)
after_lesser s x (y ∷ r) less (first, h) k = elim (Ordering-cases (compare s y)) [
  | inl before ↦ rw (insert_lt s y r before) (less, (before, h))
  | inr (inl same) ↦ rw (insert_eq s y r same) (first, h)
  | inr (inr more) ↦
      let rest = subst IsIncreasing (insert_gt s y r more) k in
      rw (insert_gt s y r more) (first, rest)
]

IsIncreasing-tail : (x : String) (xs : List String) → IsIncreasing (x ∷ xs) → IsIncreasing xs
IsIncreasing-tail x [] h = tt
IsIncreasing-tail x (y ∷ r) h = h.1

insert_text-IsIncreasing :
    (s : String) (xs : List String) → IsIncreasing xs → IsIncreasing (insert_text s xs)
unfolding insert_text
insert_text-IsIncreasing s [] h = tt
insert_text-IsIncreasing s (x ∷ xs) h = elim (Ordering-cases (compare s x)) [
  | inl less ↦ rw (insert_lt s x xs less) (less, h)
  | inr (inl same) ↦ rw (insert_eq s x xs same) h
  | inr (inr more) ↦ rw (insert_gt s x xs more) (
      after_lesser s x xs (flip_text s x ∙ ap flip more) h
        (insert_text-IsIncreasing s xs (IsIncreasing-tail x xs h)))
]

pub sorted_set-IsIncreasing : (xs : List String) → IsIncreasing (sorted_set xs)
unfolding sorted_set
sorted_set-IsIncreasing [] = tt
sorted_set-IsIncreasing (x ∷ xs) =
    insert_text-IsIncreasing x (sorted_set xs) (sorted_set-IsIncreasing xs)

pub elem-sorted_set : (t : String) (xs : List String) → elem t (sorted_set xs) ≡ elem t xs
unfolding sorted_set elem
elem-sorted_set t [] = refl
elem-sorted_set t (x ∷ xs) =
    elem-insert_text x t (sorted_set xs) ∙ ap (λ b. x == t || b) (elem-sorted_set t xs)

pub elem-append : (t : String) (xs ys : List String) → elem t (xs ++ ys) ≡ (elem t xs || elem t ys)
unfolding elem
elem-append t [] ys = refl
elem-append t (x ∷ xs) ys = ground (arith, elem-append t xs ys)
