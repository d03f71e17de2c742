-- ===== src/Cve/Scanner/Vectors.antt =====
-- src/boxmunge/cve/scanner.py: the attack vector in Trivy's `CVSS` block, and the vendors' ratings.
pub mod Laws
pub mod Priority
use boxmunge.Prelude.{
  ℕ, zero, suc, ◌+◌, ◌-◌, ◌*◌, ◌/◌, ◌%◌, ◌^◌, ◌≤◌, ◌<◌, min, max, String, ◌≡◌, refl, sym, ap, ◌∙◌,
  subst, ◌≢◌, ◌↔◌, ◌⊎◌, inl, inr, Bool, true, false, not, ◌&&◌, ◌||◌, Option, none, some, List, [],
  ◌∷◌, ◌++◌, map, Perm, arith, eq_iff, eq_refl, ltb, leb, ◌==◌, if◌then◌else◌, Bool-cases,
  Option-cases, is_some, get_or_else, length, any, all, keep, All, Some, here, there, Dict, lookup,
  insert, keys, values, str_eq, str_le, elem, subset, sorted, insert_sorted, IsSorted, Value, null,
  bool, int, float, str, day, instant, arr, obj, Date, Instant, date_lt, as_dict, codes, dict_of,
}
use boxmunge.Cve.Scanner.{
  AttackVector, network, adjacent, local, physical, Severity, low, medium, high, critical,
}

-- vector.split("/"), on code points
abbrev pub onto_first : ℕ → List (List ℕ) → List (List ℕ)
onto_first c [] = (c ∷ []) ∷ []
onto_first c (t ∷ ts) = (c ∷ t) ∷ ts

unfoldable pub split_slash : List ℕ → List (List ℕ)
split_slash [] = [] ∷ []
split_slash (c ∷ cs) =
    let rest = split_slash cs in if c == b'/' then [] ∷ rest else onto_first c rest

-- token[3:] of a token that starts with "AV:"
abbrev pub av_value : List ℕ → Option (List ℕ)
av_value (a ∷ v ∷ colon ∷ rest) =
    if a == b'A' && v == b'V' && colon == b':' then some rest else none
av_value _ = none

-- The white space that strip() takes off, as Prelude/Strip has it.
abbrev pub space_code : ℕ → Bool
space_code c = (leb 9 c && leb c 13) || (leb 28 c && leb c 32)

unfoldable pub drop_spaces : List ℕ → List ℕ
drop_spaces [] = []
drop_spaces (c ∷ cs) = let rest = drop_spaces cs in if space_code c then rest else c ∷ cs

-- `_AV_TOKEN_MAP`, on an upper-case letter
abbrev pub av_of_letter : ℕ → Option AttackVector
av_of_letter c =
    if c == b'N'
    then some network
    else if c == b'A'
    then some adjacent
    else if c == b'L'
    then some local
    else if c == b'P'
    then some physical
    else none

abbrev pub upper_letter : ℕ → ℕ
upper_letter c = if leb b'a' c && leb c b'z' then c - 32 else c

-- _AV_TOKEN_MAP.get(value.strip().upper()): all the keys are single letters
abbrev pub av_of_stripped : List ℕ → Option AttackVector
av_of_stripped [] = none
av_of_stripped (c ∷ rest) = if all space_code rest then av_of_letter (upper_letter c) else none

-- The loop over the tokens: the first that starts with "AV:" decides.
abbrev pub av_or_later : Option (List ℕ) → Option AttackVector → Option AttackVector
av_or_later none later = later
av_or_later (some value) later = av_of_stripped (drop_spaces value)

unfoldable pub av_of_tokens : List (List ℕ) → Option AttackVector
av_of_tokens [] = none
av_of_tokens (t ∷ ts) = av_or_later (av_value t) (av_of_tokens ts)

-- `_extract_av_from_vector`; an empty text has no such token
unfoldable pub extract_av_from_vector : Option Value → Option AttackVector
unfolding split_slash av_of_tokens
extract_av_from_vector (some (str vector)) = av_of_tokens (split_slash (codes vector))
extract_av_from_vector _ = none

abbrev pub or_later : Option AttackVector → Option AttackVector → Option AttackVector
or_later none later = later
or_later (some av) later = some av

-- the body of the loop over the sources: V3 before V4
abbrev pub entry_av : Option (Dict Value) → Option AttackVector
entry_av none = none
entry_av (some entry) =
    or_later (extract_av_from_vector (lookup "V3Vector" entry))
      (extract_av_from_vector (lookup "V40Vector" entry))

abbrev pub dict_entry : Option Value → Option (Dict Value)
dict_entry none = none
dict_entry (some v) = as_dict v

unfoldable pub source_av : Dict Value → String → Option AttackVector
source_av cvss source = entry_av (dict_entry (lookup source cvss))

unfoldable pub first_av : Dict Value → List String → Option AttackVector
first_av cvss [] = none
first_av cvss (source ∷ rest) = or_later (source_av cvss source) (first_av cvss rest)

-- `_CVSS_SOURCE_PRIORITY`
abbrev pub cvss_source_priority : List String
cvss_source_priority = "nvd" ∷ "redhat" ∷ "ghsa" ∷ []

abbrev pub ordered_sources : Dict Value → List String
ordered_sources cvss =
    cvss_source_priority
    ++ sorted str_le (keep (λ k. not (elem k cvss_source_priority)) (keys cvss))

-- `_parse_attack_vector`, on `vuln.get("CVSS") or {}`
unfoldable pub parse_attack_vector : Option Value → Option AttackVector
unfolding first_av
parse_attack_vector (some (obj fields)) =
    let cvss = dict_of fields in first_av cvss (ordered_sources cvss)
parse_attack_vector _ = none
