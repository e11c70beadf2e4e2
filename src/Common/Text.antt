-- ===== src/Common/Text.antt =====
-- The methods of `str` that the code uses. `upper` and `lower` change the letters of ASCII only.
pub mod Sets
use Prim.Native.Char.{Char, code}
use Prim.Native.String.{◌++◌, len, slice, compare}
use Prim.Native.Nat.{ℕ, ◌-◌, Ordering}
use sps_v.Common.{
  String, Bool, true, ◌&&◌, ◌||◌, List, [], ◌∷◌, ◌==◌, nat_eq, string_eq, if◌then◌else◌, leb, ◌≡◌,
  ◌≢◌, refl, arith,
}

between : ℕ → ℕ → ℕ → Bool
between a b n = leb a n && leb n b

-- `str.isspace` of the character with this number.
pub is_space : ℕ → Bool
unfolding between
is_space n =
    between 9 13 n
    || (between 28 32 n
        || (n == 133
            || (n == 160
                || (n == 5760
                    || (between 8192 8202 n
                        || (between 8232 8233 n || (n == 8239 || (n == 8287 || n == 12288))))))))

-- `not s.strip()`
unfoldable pub is_blank : String → Bool
unfolding is_space
is_blank String.[] = true
is_blank (String.◌∷◌ c s) = is_space (code c) && is_blank s

abbrev one : Char → String
one c = String.◌∷◌ c String.[]

lower_letter : Char → String
unfolding between
lower_letter c =
    if between 65 90 (code c)
    then slice "abcdefghijklmnopqrstuvwxyz" (code c - 65) (code c - 64)
    else one c

upper_letter : Char → String
unfolding between
upper_letter c =
    if between 97 122 (code c)
    then slice "ABCDEFGHIJKLMNOPQRSTUVWXYZ" (code c - 97) (code c - 96)
    else one c

-- `s.lower()`
unfoldable pub lower : String → String
unfolding lower_letter
lower String.[] = ""
lower (String.◌∷◌ c s) = lower_letter c ++ lower s

-- `s.upper()`
unfoldable pub upper : String → String
unfolding upper_letter
upper String.[] = ""
upper (String.◌∷◌ c s) = upper_letter c ++ upper s

abbrev word : String → List String → List String
word w ws = if w == "" then ws else w ∷ ws

-- The words of a text after what has been read of the first.
words_after : String → String → List String
unfolding is_space
words_after w String.[] = word w []
words_after w (String.◌∷◌ c s) =
    let is_end = is_space (code c) in
    let rest = words_after (if is_end then "" else w ++ one c) s in
    if is_end then word w rest else rest

-- `s.split()`
unfoldable pub split : String → List String
unfolding words_after
split s = words_after "" s

-- `s.endswith(t)`
unfoldable pub ends_with : String → String → Bool
ends_with s t = leb (len t) (len s) && slice s (len s - len t) (len s) == t

-- `sorted({*texts})`
insert_text : String → List String → List String
insert_text s [] = s ∷ []
insert_text s (x ∷ xs) =
    let rest = insert_text s xs in
    elim (compare s x) [ Ordering.lt ↦ s ∷ x ∷ xs | Ordering.eq ↦ x ∷ xs | Ordering.gt ↦ x ∷ rest ]

unfoldable pub sorted_set : List String → List String
unfolding insert_text
sorted_set [] = []
sorted_set (x ∷ xs) = insert_text x (sorted_set xs)

insert_text-ne : (s : String) (xs : List String) → insert_text s xs ≢ []
unfolding insert_text
insert_text-ne s [] h = cc
insert_text-ne s (x ∷ xs) h = ground arith

pub sorted_set-nil : (xs : List String) → sorted_set xs ≡ [] → xs ≡ []
unfolding sorted_set
sorted_set-nil [] h = refl
sorted_set-nil (x ∷ xs) h = absurd (insert_text-ne x (sorted_set xs) h)

lowers : lower "BeaRer-1" ≡ "bearer-1"
unfolding lower
lowers = refl

splits : split "  Bearer\tabc " ≡ "Bearer" ∷ "abc" ∷ []
unfolding split
splits = refl

ends : ends_with "scope:HIGH_RISK" "HIGH_RISK" ≡ true
unfolding ends_with
ends = refl
