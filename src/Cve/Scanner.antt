-- ===== src/Cve/Scanner.antt =====
-- src/boxmunge/cve/scanner.py: the types of a scan result, and the distro's own severity.
pub mod Vectors
use boxmunge.Prelude.{
  ℕ, String, Option, none, some, Bool, true, false, List, [], ◌∷◌, Dict, lookup, upper, lower,
  codes, codes_eq, strip, Instant, if◌then◌else◌,
}

pub data Severity : Type 0 where
  low medium high critical unknown : Severity

pub data AttackVector : Type 0 where
  network adjacent local physical : AttackVector

pub data VulnStatus : Type 0 where
  affected fixed under_investigation will_not_fix fix_deferred end_of_life not_affected unknown :
      VulnStatus

pub data PkgClass : Type 0 where
  os lang unknown : PkgClass

-- Severity.from_trivy_string; a value outside the table and a missing one are unknown
unfoldable pub severity_from_trivy : Option String → Severity
unfolding upper codes_eq
severity_from_trivy none = Severity.unknown
severity_from_trivy (some raw) =
    let name = upper raw in
    if codes_eq name (codes "LOW")
    then low
    else if codes_eq name (codes "MEDIUM")
    then medium
    else if codes_eq name (codes "HIGH")
    then high
    else if codes_eq name (codes "CRITICAL")
    then critical
    else Severity.unknown

-- VulnStatus.from_trivy_string
unfoldable pub status_from_trivy : Option String → VulnStatus
unfolding lower strip codes_eq
status_from_trivy none = VulnStatus.unknown
status_from_trivy (some raw) =
    let name = lower (strip raw) in
    if codes_eq name (codes "affected")
    then affected
    else if codes_eq name (codes "fixed")
    then fixed
    else if codes_eq name (codes "under_investigation")
    then under_investigation
    else if codes_eq name (codes "will_not_fix")
    then will_not_fix
    else if codes_eq name (codes "fix_deferred")
    then fix_deferred
    else if codes_eq name (codes "end_of_life")
    then end_of_life
    else if codes_eq name (codes "not_affected")
    then not_affected
    else VulnStatus.unknown

-- PkgClass.from_trivy_string
unfoldable pub class_from_trivy : Option String → PkgClass
unfolding lower strip codes_eq
class_from_trivy none = PkgClass.unknown
class_from_trivy (some raw) =
    let name = lower (strip raw) in
    if codes_eq name (codes "os-pkgs")
    then os
    else if codes_eq name (codes "lang-pkgs")
    then lang
    else PkgClass.unknown

-- `_SEVERITY_RANK`, the same table as policy_types.py has
unfoldable pub severity_rank : Severity → ℕ
severity_rank critical = 4
severity_rank high = 3
severity_rank medium = 2
severity_rank low = 1
severity_rank Severity.unknown = 0

abbrev pub is_unknown : Severity → Bool
is_unknown Severity.unknown = true
is_unknown _ = false

abbrev pub is_network : Option AttackVector → Bool
is_network (some network) = true
is_network _ = false

-- `package` is a reserved word of this language: the field is `pkg_name`.
pub record Finding : Type 0 where
  pub cve_id : String
  pub severity : Severity
  pub pkg_name : String
  pub installed_version : String
  pub fixed_version : Option String
  pub title : String
  pub primary_url : Option String
  pub attack_vector : Option AttackVector
  pub status : VulnStatus
  pub vendor_severities : Dict Severity
  pub severity_source : Option String
  pub pkg_class : PkgClass
  pub pkg_type : Option String

-- Finding.fix_available
abbrev pub fix_available : Finding → Bool
fix_available f = elim f.fixed_version [ none ↦ false | some _ ↦ true ]

pub record ScanResult : Type 0 where
  pub image_ref : String
  pub findings : List Finding
  pub scanned_at : Instant
  pub db_version : Option String
  pub lang_types : List String

-- `_DISTRO_SOURCES`
abbrev pub distro_sources : List String
distro_sources =
    "debian" ∷ "ubuntu" ∷ "redhat" ∷ "alpine" ∷ "amazon" ∷ "oracle" ∷ "photon" ∷ "suse" ∷ "rocky"
    ∷ "alma" ∷ []

-- the loop's test: a rating that is there and is not unknown
abbrev pub rated : Option Severity → Option Severity
rated none = none
rated (some Severity.unknown) = none
rated (some sev) = some sev

abbrev pub first_rating : Option Severity → Option Severity → Option Severity
first_rating none rest = rest
first_rating (some sev) rest = some sev

unfoldable pub first_rated : List String → Dict Severity → Option Severity
first_rated [] ratings = none
first_rated (source ∷ sources) ratings =
    first_rating (rated (lookup source ratings)) (first_rated sources ratings)

-- distro_severity: the first rating of a distro, in the order of preference
unfoldable pub distro_severity : Finding → Option Severity
unfolding first_rated
distro_severity finding = first_rated distro_sources finding.vendor_severities
