-- ===== src/Tests/Relevance.antt =====
-- The relevance gate on a PHP package of the base image, in a project of other runtimes.
use boxmunge.Prelude.{
  ◌≡◌, refl, true, false, none, some, [], ◌∷◌, elem, subset, Value, str, arr, codes, items_of,
}
use boxmunge.Cve.Scanner.{Finding, high, network, affected, os}
use boxmunge.Cve.Relevance.{
  irrelevant_ecosystem, effective_runtimes, accepted, runtime_families, ecosystem_for_package,
  first_family,
}
use boxmunge.Cve.Relevance.Gate.{irrelevant_ecosystem_sound, IsFamily}

abbrev php : Finding
php = record {
  cve_id = "CVE-2026-2002";
  severity = high;
  pkg_name = "php8.2-cli";
  installed_version = "8.2.0";
  fixed_version = none;
  title = "overflow";
  primary_url = none;
  attack_vector = some network;
  status = affected;
  vendor_severities = ("debian", high) ∷ [];
  severity_source = some "debian";
  pkg_class = os;
  pkg_type = some "debian";
}

php_irrelevant : irrelevant_ecosystem php ("python" ∷ "node" ∷ []) ≡ some "php"
unfolding irrelevant_ecosystem ecosystem_for_package first_family elem
php_irrelevant = refl

fewer : subset ("python" ∷ []) ("python" ∷ "node" ∷ []) ≡ true
unfolding subset elem
fewer = refl

irrelevant_ecosystem_sound_example :
    (os ≡ os)
    × IsFamily "php" (codes "php8.2-cli") runtime_families
    × (elem "php" ("python" ∷ "node" ∷ []) ≡ false)
irrelevant_ecosystem_sound_example =
    irrelevant_ecosystem_sound php ("python" ∷ "node" ∷ []) "php" php_irrelevant

abbrev declared : Value
declared = arr (items_of (str "python" ∷ []))

declared_accepted : effective_runtimes ("jar" ∷ []) (some declared) ≡ accepted ("python" ∷ [])
unfolding effective_runtimes subset elem
declared_accepted = refl
