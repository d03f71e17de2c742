-- ===== src/Cve/Relevance.antt =====
-- src/boxmunge/cve/relevance.py: is the project able to run the affected package at all?
pub mod Gate
use boxmunge.Prelude.{
  ℕ, ◌+◌, ◌-◌, String, Bool, true, false, not, ◌&&◌, ◌||◌, Option, none, some, List, [], ◌∷◌, ◌++◌,
  map, leb, ◌==◌, if◌then◌else◌, is_some, any, keep, Dict, lookup, keys, values, str_eq, elem,
  subset, Value, str, as_list, codes,
}
use boxmunge.Cve.Scanner.{Finding, PkgClass, os}

-- `_TRIVY_TYPE_TO_ECOSYSTEM`
abbrev pub trivy_type_to_ecosystem : Dict String
trivy_type_to_ecosystem =
    ("python-pkg", "python")
    ∷ ("pip", "python")
    ∷ ("poetry", "python")
    ∷ ("node-pkg", "node")
    ∷ ("npm", "node")
    ∷ ("yarn", "node")
    ∷ ("pnpm", "node")
    ∷ ("gobinary", "go")
    ∷ ("gomod", "go")
    ∷ ("gemspec", "ruby")
    ∷ ("bundler", "ruby")
    ∷ ("composer", "php")
    ∷ ("jar", "java")
    ∷ ("pom", "java")
    ∷ ("gradle", "java")
    ∷ ("cargo", "rust")
    ∷ ("nuget", "dotnet")
    ∷ ("dotnet-core", "dotnet")
    ∷ []

-- The parts of the patterns that the table uses: a character, `*`, and `[0-9]`.
pub data Piece : Type 0 where
  char : ℕ → Piece
  star digit : Piece

abbrev pub Glob : Type 0
Glob = List Piece

abbrev literally : String → Glob
literally s = map char (codes s)

-- The standard library's fnmatchcase, for those patterns.
unfoldable pub glob_match : Glob → List ℕ → Bool
glob_match [] [] = true
glob_match [] (c ∷ cs) = false
glob_match (char d ∷ ps) [] = false
glob_match (char d ∷ ps) (c ∷ cs) = c == d && glob_match ps cs
glob_match (digit ∷ ps) [] = false
glob_match (digit ∷ ps) (c ∷ cs) = (leb b'0' c && leb c b'9') && glob_match ps cs
glob_match (star ∷ ps) [] = glob_match ps []
glob_match (star ∷ ps) (c ∷ cs) =
    let skip = glob_match (star ∷ ps) cs in glob_match ps (c ∷ cs) || skip

-- `_RUNTIME_FAMILIES`
abbrev pub runtime_families : Dict (List Glob)
runtime_families =
    (
      "perl",
      literally "perl" ∷ literally "perl-base" ∷ (literally "perl-modules-" ++ star ∷ []) ∷ [],
    )
    ∷ ("ruby", literally "ruby" ∷ (literally "ruby" ++ digit ∷ star ∷ []) ∷ [])
    ∷ (
      "php",
      literally "php"
          ∷ (literally "php" ++ digit ∷ star ∷ [])
          ∷ (literally "php-" ++ star ∷ [])
          ∷ [],
    )
    ∷ (
      "python",
      literally "python3"
          ∷ (literally "python3." ++ star ∷ [])
          ∷ (literally "python3-" ++ star ∷ [])
          ∷ [],
    )
    ∷ ("node", literally "nodejs" ∷ [])
    ∷ ("tcl", literally "tcl" ∷ (literally "tcl" ++ digit ∷ star ∷ []) ∷ [])
    ∷ ("lua", literally "lua" ∷ (literally "lua" ++ digit ∷ star ∷ []) ∷ [])
    ∷ []

-- `VALID_ECOSYSTEMS`, as a list in which a name may stand twice
abbrev pub valid_ecosystems : List String
valid_ecosystems = values trivy_type_to_ecosystem ++ keys runtime_families

abbrev cons_found : Option String → List String → List String
cons_found none rest = rest
cons_found (some eco) rest = eco ∷ rest

-- A frozenset is a list: only membership is asked of it.
unfoldable pub infer_runtimes : List String → List String
infer_runtimes [] = []
infer_runtimes (lang_type ∷ rest) =
    cons_found (lookup lang_type trivy_type_to_ecosystem) (infer_runtimes rest)

unfoldable pub unrecognised_lang_types : List String → List String
unrecognised_lang_types lang_types =
    keep (λ t. not (is_some (lookup t trivy_type_to_ecosystem))) lang_types

-- the loop of ecosystem_for_package over the families
unfoldable pub first_family : List ℕ → Dict (List Glob) → Option String
unfolding glob_match
first_family package_codes [] = none
first_family package_codes ((ecosystem, patterns) ∷ rest) =
    let later = first_family package_codes rest in
    if any (λ pat. glob_match pat package_codes) patterns then some ecosystem else later

unfoldable pub ecosystem_for_package : String → Option String
ecosystem_for_package name =
    if str_eq name "" then none else first_family (codes name) runtime_families

pub data RuntimesError : Type 0 where
  not_a_list empty_list unrecognised : RuntimesError

pub data Declared : Type 0 where
  accepted : List String → Declared
  refused : RuntimesError → Declared

-- The items of a YAML list that are texts; `none` where another value stands in it, which is never
-- in VALID_ECOSYSTEMS.
abbrev cons_text : String → Option (List String) → Option (List String)
cons_text s none = none
cons_text s (some ss) = some (s ∷ ss)

abbrev texts_of : List Value → Option (List String)
texts_of [] = some []
texts_of (str s ∷ vs) = cons_text s (texts_of vs)
texts_of (_ ∷ vs) = none

abbrev checked_texts : Option (List String) → Declared
checked_texts none = refused unrecognised
checked_texts (some declared) =
    if subset declared valid_ecosystems then accepted declared else refused unrecognised

abbrev declared_runtimes : Option (List Value) → Declared
declared_runtimes none = refused not_a_list
declared_runtimes (some []) = refused empty_list
declared_runtimes (some (v ∷ vs)) = checked_texts (texts_of (v ∷ vs))

-- effective_runtimes; the errors are ValueErrors
unfoldable pub effective_runtimes : List String → Option Value → Declared
unfolding infer_runtimes
effective_runtimes lang_types none = accepted (infer_runtimes lang_types)
effective_runtimes lang_types (some declared) = declared_runtimes (as_list declared)

abbrev is_os : PkgClass → Bool
is_os os = true
is_os _ = false

abbrev unless_used : List String → Option String → Option String
unless_used runtimes none = none
unless_used runtimes (some ecosystem) = if elem ecosystem runtimes then none else some ecosystem

unfoldable pub irrelevant_ecosystem : Finding → List String → Option String
irrelevant_ecosystem finding runtimes =
    if is_os finding.pkg_class
    then unless_used runtimes (ecosystem_for_package finding.pkg_name)
    else none
