-- ===== src/Tests/Scanner.antt =====
-- The attack vector of a CVSS block with two sources.
use boxmunge.Prelude.{
  String, ◌≡◌, refl, none, some, [], ◌∷◌, str, obj, Fields, codes, dict_of, fields_of, ◌⊎◌,
}
use boxmunge.Cve.Scanner.{network, AttackVector}
use boxmunge.Cve.Scanner.Vectors.{extract_av_from_vector, parse_attack_vector, source_av}
use boxmunge.Cve.Scanner.Vectors.Laws.{extract_av_from_vector-joined}
use boxmunge.Cve.Scanner.Vectors.Priority.{IsFirst, parse_attack_vector-priority}

extract_av_from_vector-joined_example :
    extract_av_from_vector (some (str "CVSS:3.1/AV:N/AC:L")) ≡ some network
extract_av_from_vector-joined_example =
    extract_av_from_vector-joined "CVSS:3.1/AV:N/AC:L" network (codes "CVSS:3.1" ∷ [])
      (codes "AC:L" ∷ []) refl refl refl

abbrev block : Fields
block = fields_of (
    ("nvd", obj (fields_of (("V3Vector", str "CVSS:3.1/AC:L") ∷ [])))
    ∷ ("debian", obj (fields_of (("V40Vector", str "CVSS:4.0/AV:N") ∷ [])))
    ∷ [])

parse_attack_vector-priority_example :
    let found = parse_attack_vector (some (obj block)) in
    ((found ≡ none) × ((s : String) → source_av (dict_of block) s ≡ none))
    ⊎ ((av : AttackVector) × (s : String) × (found ≡ some av) × IsFirst (dict_of block) av s)
parse_attack_vector-priority_example = parse_attack_vector-priority block
