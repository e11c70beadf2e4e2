-- ===== src/Assertions.antt =====
-- src/sps/guards/guard_assertions.py: the registry of guard assertions and its lookup.
use sps_v.Common.{String, Option, none, some, List, [], ◌∷◌, ◌==◌, string_eq, if◌then◌else◌}

-- A parsed entry of the YAML list: what `a.get` gives where it has the type that is tested for.
pub record RawAssertion : Type 0 where
  pub guard_assertion_id : Option String
  pub normalized_business_invariants : Option (List String)

abbrev pub Registry : Type 0
Registry = List (String × List String)

-- `out[guard_id] = list(invs)`
pub put : String → List String → Registry → Registry
put k v [] = (k, v) ∷ []
put k v ((j, w) ∷ m) = if j == k then (k, v) ∷ m else (j, w) ∷ put k v m

pub get : String → Registry → Option (List String)
get k [] = none
get k ((j, w) ∷ m) = if j == k then some w else get k m

abbrev put_entry : Option String → Option (List String) → Registry → Registry
put_entry (some k) (some v) out = put k v out
put_entry _ _ out = out

load_from : List (Option RawAssertion) → Registry → Registry
unfolding put
load_from [] out = out
load_from (none ∷ rest) out = load_from rest out
load_from (some a ∷ rest) out =
    load_from rest (put_entry a.guard_assertion_id a.normalized_business_invariants out)

-- The loop of `_load_guard_assertion_map`; an entry that is no dictionary is `none`.
unfoldable pub load_guard_assertion_map : List (Option RawAssertion) → Registry
unfolding load_from
load_guard_assertion_map assertions = load_from assertions []

abbrev or_empty : Option (List String) → List String
or_empty none = []
or_empty (some invs) = invs

unfoldable pub get_normalized_business_invariants : Registry → String → List String
unfolding get
get_normalized_business_invariants m guard_assertion_id = or_empty (get guard_assertion_id m)
