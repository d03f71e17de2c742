-- ===== src/Tests/Suppressions.antt =====
-- The suppressions file under a YAML library that keeps the document itself as its text.
use boxmunge.Prelude.{
  String, ◌≡◌, refl, true, not, none, some, List, [], ◌∷◌, ◌++◌, Perm, if◌then◌else◌, keep, lookup,
  str_eq, sorted, IsSorted, Value, Date, strip, is_space, as_dict,
}
use boxmunge.Cve.Suppressions.{
  Suppression, project, find_active_suppression, parse_entry, entry_value, ok, payload, by_cve,
  parse_entry, is_cve_id,
}
use boxmunge.Cve.Suppressions.File.{
  Yaml, FileState, missing, holds, load_suppressions, add_suppression, remove_suppression,
  first_for,
}
use boxmunge.Cve.Suppressions.Entries.{IsEntry, parse_entry-entry_value, EntryDays}
use boxmunge.Cve.Suppressions.Active.{or_else, hides}
use boxmunge.Cve.Suppressions.Edits.{IsYaml, load-serialise}
use boxmunge.Cve.Suppressions.Effects.{IsRequest, requested, add-load, remove-load}

abbrev plain : Yaml
plain = record { Text = Value; safe_load = λ v. some v; safe_dump = λ v. v }

abbrev plain-IsYaml : IsYaml plain
plain-IsYaml = record { load-dump = λ v. refl }

abbrev today : Date
today = record { year = 2026; month = 6; day_of_month = 1 }

abbrev next_year : Date
next_year = record { year = 2027; month = 6; day_of_month = 1 }

abbrev perl : Suppression
perl = record {
  cve_id = "CVE-2026-1001";
  until = next_year;
  reason = "not reachable";
  reviewed_by = "jo";
  added = today;
  scope = project;
}

abbrev zlib : Suppression
zlib = record perl { cve_id = "CVE-2025-0007"; until = today }

perl-IsEntry : IsEntry perl
unfolding is_cve_id strip is_space
perl-IsEntry = record {
  cve = refl;
  reason_stripped = refl;
  reason_filled = refl;
  reviewer_stripped = refl;
  reviewer_filled = refl;
  until_real = refl;
  added_real = refl;
  from_project = refl;
}

abbrev perl_file : FileState Value
perl_file = holds (payload (perl ∷ []))

empty_load : load_suppressions plain missing project ≡ ok []
unfolding load_suppressions
empty_load = refl

perl-IsRequest : IsRequest "CVE-2026-1001" next_year "not reachable" "jo" today
unfolding is_cve_id strip is_space
perl-IsRequest = record {
  cve_valid = refl;
  reason_filled = refl;
  reviewer_filled = refl;
  until_real = refl;
  today_real = refl;
}

abbrev added : Suppression
added = requested "CVE-2026-1001" next_year "not reachable" "jo" today

abbrev after_add : FileState Value
after_add =
    (add_suppression plain true missing "CVE-2026-1001" next_year "not reachable" "jo" today).1

add-load_example :
    ((add_suppression plain true missing "CVE-2026-1001" next_year "not reachable" "jo" today).0
      ≡ ok added)
    × ((ss : List Suppression) × (load_suppressions plain after_add project ≡ ok ss)
        × Perm ss ([] ++ added ∷ [])
        × IsSorted by_cve ss
        × ((j : String) (d : Date)
            → find_active_suppression ss j d
              ≡ or_else
                  (find_active_suppression [] j d)
                  (if hides j d added then some added else none)))
add-load_example =
    add-load plain plain-IsYaml missing [] "CVE-2026-1001" next_year "not reachable" "jo" today
      empty_load tt perl-IsRequest refl

perl_load : load_suppressions plain perl_file project ≡ ok (perl ∷ [])
unfolding sorted
perl_load = load-serialise plain plain-IsYaml (perl ∷ []) (perl-IsEntry, tt)

first_perl : first_for "CVE-2026-1001" (perl ∷ []) ≡ some perl
unfolding first_for
first_perl = refl

abbrev after_remove : FileState Value
after_remove = (remove_suppression plain true perl_file "CVE-2026-1001").1

remove-load_example :
    ((remove_suppression plain true perl_file "CVE-2026-1001").0 ≡ ok perl)
    × (perl.cve_id ≡ "CVE-2026-1001")
    × ((ss : List Suppression) × (load_suppressions plain after_remove project ≡ ok ss)
        × Perm ss (keep (λ s. not (str_eq s.cve_id "CVE-2026-1001")) (perl ∷ []))
        × IsSorted by_cve ss
        × ((j : String) (d : Date)
            → find_active_suppression ss j d ≡ (
                if str_eq "CVE-2026-1001" j
                then none
                else find_active_suppression (perl ∷ []) j d)))
remove-load_example =
    remove-load plain plain-IsYaml (payload (perl ∷ [])) (perl ∷ []) "CVE-2026-1001" perl perl_load
      (perl-IsEntry, tt) first_perl

perl_parsed : parse_entry (entry_value perl) 0 ≡ ok perl
perl_parsed = parse_entry-entry_value perl 0 perl-IsEntry

perl_real : EntryDays (as_dict (entry_value perl))
unfolding lookup
perl_real = record { until = tt; added = tt }
