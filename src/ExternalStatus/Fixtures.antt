-- ===== src/ExternalStatus/Fixtures.antt =====
-- The status mapping of a case by the data sets of src/sps/fixtures/phase7.py; the sets as they are
-- parsed, and the override of the case in the environment, less blanks, are parameters.
use sps_v.Common.{
  String, ◌≡◌, refl, subst, inl, inr, true, false, not, Bool-cases, Option, none, some,
  Option-cases, List, [], ◌∷◌, map, ◌==◌, string_eq, eq_iff, str_refl, if◌then◌else◌, is_some, find,
  filter, elem, Unique, Result, ok, err, Error, Result-cases, ◌>>=◌, arith,
}
use sps_v.ExternalStatus.{StatusMappingEntry, StatusMappingSelection, value_of}

-- The two fields that are read.
pub record SubmissionAdapterFixture : Type 0 where
  pub case_id : String
  pub target_portal_family : String

pub record StatusMappingFixture : Type 0 where
  pub adapter_family : String
  pub mapping_version : String
  pub mappings : List StatusMappingEntry

-- `resolve_phase7_fixture_case_id`
unfoldable pub resolve_phase7_fixture_case_id : Option String → String → String
resolve_phase7_fixture_case_id none case_id = case_id
resolve_phase7_fixture_case_id (some override) case_id =
    if override == "" then case_id else override

-- The one element of the set of the texts; `none` where there is not one.
unfoldable pub only : List String → Option String
only [] = none
only (f ∷ fs) = if is_some (find (λ g. not (g == f)) fs) then none else some f

-- `_resolve_adapter_family_for_case`
unfoldable pub resolve_adapter_family_for_case :
    Option String → List SubmissionAdapterFixture → String → Result String
resolve_adapter_family_for_case override inputs case_id =
    let id = resolve_phase7_fixture_case_id override case_id in
    elim (only (map (λ f. f.target_portal_family) (filter (λ f. f.case_id == id) inputs))) [
      | none ↦ err Error.value_error
      | some family ↦ ok family
    ]

-- `_index_status_mappings`, with the statuses that it has seen.
unfoldable pub index_status_mappings :
    List String → List StatusMappingEntry → Result (List (String × StatusMappingEntry))
index_status_mappings seen [] = ok []
index_status_mappings seen (m ∷ ms) =
    let rest = index_status_mappings (m.raw_status ∷ seen) ms in
    if elem m.raw_status seen
    then err Error.value_error
    else rest >>= λ index. ok ((m.raw_status, m) ∷ index)

-- `select_status_mapping_for_case`, without the fixture's case, which it returns too.
unfoldable pub select_status_mapping_for_case :
    Option String
    → List SubmissionAdapterFixture
    → List StatusMappingFixture
    → String
    → Result StatusMappingSelection
select_status_mapping_for_case override inputs status_maps case_id =
    resolve_adapter_family_for_case override inputs case_id >>= λ family.
    elim (find (λ m. m.adapter_family == family) status_maps) [
      | none ↦ err Error.value_error
      | some status_map ↦ index_status_mappings [] status_map.mappings >>= λ index. ok (record {
        adapter_family = family;
        mapping_version = status_map.mapping_version;
        mappings = index;
      })
    ]

index_new :
    (seen : List String) (ms : List StatusMappingEntry) (index : List (String × StatusMappingEntry))
    → index_status_mappings seen ms ≡ ok index
    → (s : String) → elem s seen ≡ true
    → is_some (find (λ m. m.raw_status == s) ms) ≡ false
unfolding index_status_mappings find elem
index_new seen [] index e s h = refl
index_new seen (m ∷ ms) index e s h = elim (Bool-cases (elem m.raw_status seen)) [
  | inl again ↦ absurd (ground arith)
  | inr new ↦ elim (Result-cases (index_status_mappings (m.raw_status ∷ seen) ms)) [
    | inl (x, failed) ↦ absurd (ground arith)
    | inr (rest, done) ↦
        let later = index_new (m.raw_status ∷ seen) ms rest done s (ground arith) in
        ground (arith, eq_iff m.raw_status s)
  ]
]

abbrev pub entry_or_error : Option StatusMappingEntry → Result StatusMappingEntry
entry_or_error none = err Error.value_error
entry_or_error (some m) = ok m

index_status_mappings_lem :
    (seen : List String) (ms : List StatusMappingEntry) (index : List (String × StatusMappingEntry))
    → index_status_mappings seen ms ≡ ok index
    → Unique (λ m. m.raw_status) ms
      × ((s : String) → value_of index s ≡ entry_or_error (find (λ m. m.raw_status == s) ms))
unfolding index_status_mappings find value_of elem
index_status_mappings_lem seen [] index e = (
  tt,
  λ s.
      let is : [] ≡ index = ground arith in
      subst (λ xs. value_of xs s ≡ err Error.value_error) is refl,
)
index_status_mappings_lem seen (x ∷ ms) index e = elim (Bool-cases (elem x.raw_status seen)) [
  | inl again ↦ absurd (ground arith)
  | inr new ↦ elim (Result-cases (index_status_mappings (x.raw_status ∷ seen) ms)) [
    | inl (f, failed) ↦ absurd (ground arith)
    | inr (rest, done) ↦
        let (unique, reads) = index_status_mappings_lem (x.raw_status ∷ seen) ms rest done in
        let is : (x.raw_status, x) ∷ rest ≡ index = ground arith in
        (
          (
            index_new (x.raw_status ∷ seen) ms rest done x.raw_status
                (ground (arith, str_refl x.raw_status)),
            unique,
          ),
          λ s.
              subst (λ xs. value_of xs s ≡ entry_or_error (find (λ m. m.raw_status == s) (x ∷ ms)))
                is
                (elim (Bool-cases (x.raw_status == s)) [
                  | inl here ↦ rw here refl
                  | inr other ↦ rw other (reads s)
                ]),
        )
  ]
]

-- A selection is that of a status map of the data set, in which no status is listed twice, and maps
-- each status to the entry that the map has for it.
pub select_status_mapping_for_case_lem :
    (override : Option String) (inputs : List SubmissionAdapterFixture)
    (status_maps : List StatusMappingFixture) (case_id : String)
    (selection : StatusMappingSelection)
    → select_status_mapping_for_case override inputs status_maps case_id ≡ ok selection
    → (m : StatusMappingFixture) × (find
          (λ x. x.adapter_family == selection.adapter_family)
          status_maps
        ≡ some m)
      × (selection.mapping_version ≡ m.mapping_version)
      × Unique (λ x. x.raw_status) m.mappings
      × ((s : String)
          → value_of selection.mappings s
            ≡ entry_or_error (find (λ x. x.raw_status == s) m.mappings))
unfolding select_status_mapping_for_case
select_status_mapping_for_case_lem override inputs status_maps case_id selection e =
    elim (Result-cases (resolve_adapter_family_for_case override inputs case_id)) [
      | inl (x, failed) ↦ absurd (ground arith)
      | inr (family, resolved) ↦
          elim (Option-cases (find (λ m. m.adapter_family == family) status_maps)) [
            | inl missing ↦ absurd (ground arith)
            | inr (m, found) ↦ elim (Result-cases (index_status_mappings [] m.mappings)) [
              | inl (x, failed) ↦ absurd (ground arith)
              | inr (index, indexed) ↦
                  let (unique, reads) = index_status_mappings_lem [] m.mappings index indexed in
                  let family_is : family ≡ selection.adapter_family = ground arith in
                  let index_is : index ≡ selection.mappings = ground arith in
                  (
                    m,
                    subst (λ f. find (λ x. x.adapter_family == f) status_maps ≡ some m) family_is
                        found,
                    ground arith,
                    unique,
                    λ s.
                        subst
                          (λ xs.
                            value_of xs s
                            ≡ entry_or_error (find (λ x. x.raw_status == s) m.mappings))
                          index_is (reads s),
                  )
            ]
          ]
    ]
