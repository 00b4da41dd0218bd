-- ===== src/Detail/Names.antt =====
-- RRegistry/include/RRegistry/Detail.hpp: entries by name, and their descriptions.
pub mod Lookup
use rbase.Base.{
  ℕ, suc, Option, none, some, List, [], ◌∷◌, map, String, str_eq, get_elem?, if◌then◌else◌,
}
use rbase.Entries.{
  EntryType, int8, int16, int32, int64, uint8, uint16, uint32, uint64, float, double, bool, string,
  entry_count, type_of_num,
}
use rbase.Detail.Entry.{EntryDetail}
use rbase.Detail.Tables.{
  int8_detail, int16_detail, int32_detail, int64_detail, uint8_detail, uint16_detail, uint32_detail,
  uint64_detail, float_detail, double_detail, bool_detail, string_detail,
}

-- `CLASS##Detail`, for the types that have defaults.
abbrev pub detail_of : EntryType → List EntryDetail
detail_of int8 = int8_detail
detail_of int16 = int16_detail
detail_of int32 = int32_detail
detail_of int64 = int64_detail
detail_of uint8 = uint8_detail
detail_of uint16 = uint16_detail
detail_of uint32 = uint32_detail
detail_of uint64 = uint64_detail
detail_of float = float_detail
detail_of double = double_detail
detail_of bool = bool_detail
detail_of string = []

-- `CLASS##Detail[i].name` for every i.
abbrev pub names_of : EntryType → List String
names_of string = map (λ d. d.name) string_detail
names_of int8 = map (λ d. d.name) int8_detail
names_of other = map (λ d. d.name) (detail_of other)

-- `CLASS##Detail[i].brief` for every i.
abbrev pub briefs_of : EntryType → List String
briefs_of string = map (λ d. d.brief) string_detail
briefs_of int8 = map (λ d. d.brief) int8_detail
briefs_of other = map (λ d. d.brief) (detail_of other)

-- `CLASS##Detail[i].detailed` for every i.
abbrev pub details_of : EntryType → List String
details_of string = map (λ d. d.detailed) string_detail
details_of int8 = map (λ d. d.detailed) int8_detail
details_of other = map (λ d. d.detailed) (detail_of other)

-- The loop of `GetValueOfName##CLASS`: the first index whose name is `name`, or `_COUNT`.
pub index_of_name : String → ℕ → List String → ℕ → ℕ
index_of_name name count [] i = count
index_of_name name count (s ∷ rest) i =
    let later = index_of_name name count rest (suc i) in if str_eq name s then i else later

pub get_value_of_name_in : EntryType → String → ℕ
unfolding index_of_name
get_value_of_name_in t name = index_of_name name (entry_count t) (names_of t) 0

-- `GetValueOfName`; an unknown type gives 0.
pub get_value_of_name : ℕ → String → ℕ
get_value_of_name type name = elim (type_of_num type) [
  | none ↦ 0
  | some t ↦ get_value_of_name_in t name
]

-- `GetNameOfEntryClass`. `none` is a read out of the table's bounds.
pub get_name_of_entry_class : ℕ → ℕ → Option String
get_name_of_entry_class type property = elim (type_of_num type) [
  | none ↦ some ""
  | some t ↦ get_elem? (names_of t) property
]

-- `GetBriefDescriptionOfEntryClass`.
pub get_brief_description : ℕ → ℕ → Option String
get_brief_description type property = elim (type_of_num type) [
  | none ↦ some ""
  | some t ↦ get_elem? (briefs_of t) property
]

-- `GetDetailedDescriptionOfEntryClass`, whose macro reads `.brief`.
pub get_detailed_description : ℕ → ℕ → Option String
get_detailed_description type property = elim (type_of_num type) [
  | none ↦ some ""
  | some t ↦ get_elem? (briefs_of t) property
]
