-- ===== src/Common/Tables.antt =====
-- Tables as lists of rows, and the queries that the code runs on them.
use Prim.Native.Nat.{ℕ, suc}
use Prim.Native.String.{String}
use mathlib.Core.Bool.{Bool, true, false, ◌||◌}
use mathlib.Core.Option.{Option, none, some}
use mathlib.Core.List.{List, [], ◌∷◌}
use sps_v.Common.Tests.{if◌then◌else◌, ltb, ◌==◌, string_eq}

module _ {ℓ} {A : Type ℓ} where
  -- `query.filter(p).first()`; with `p` a test of the primary key, `session.get`.
  unfoldable pub find : (A → Bool) → List A → Option A
  find p [] = none
  find p (x ∷ xs) = let rest = find p xs in if p x then some x else rest

  -- `query.filter(p).all()`
  unfoldable pub filter : (A → Bool) → List A → List A
  filter p [] = []
  filter p (x ∷ xs) = let rest = filter p xs in if p x then x ∷ rest else rest

  -- `count(...).filter(p).scalar()`
  unfoldable pub count : (A → Bool) → List A → ℕ
  count p [] = 0
  count p (x ∷ xs) = let rest = count p xs in if p x then suc rest else rest

  -- Native numbers, in the place of the library's function.
  abbrev pub length : List A → ℕ
  length xs = count (λ x. true) xs

  -- An assignment to the columns of the rows that `p` selects.
  unfoldable pub update : (A → Bool) → (A → A) → List A → List A
  update p f [] = []
  update p f (x ∷ xs) = let rest = update p f xs in if p x then f x ∷ rest else x ∷ rest

  -- The later of a row and an optional one, by `key`.
  abbrev pub later : (A → ℕ) → A → Option A → Option A
  later key x none = some x
  later key x (some y) = if ltb (key x) (key y) then some y else some x

  -- `query.order_by(key.desc()).first()`
  unfoldable pub latest : (A → ℕ) → List A → Option A
  latest key [] = none
  latest key (x ∷ xs) = later key x (latest key xs)

-- `s in xs`
unfoldable pub elem : String → List String → Bool
elem s [] = false
elem s (x ∷ xs) = x == s || elem s xs
