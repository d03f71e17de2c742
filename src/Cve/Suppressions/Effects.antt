-- ===== src/Cve/Suppressions/Effects.antt =====
-- What a successful addition and a successful removal do, read through the next load.
use boxmunge.Prelude.{
  String, ◌≡◌, refl, ap, ◌∙◌, inl, inr, Bool, true, false, not, Option, none, some, List, [], ◌∷◌,
  ◌++◌, Perm, arith, eq_iff, if◌then◌else◌, Bool-cases, any, keep, All, str_eq, sorted, IsSorted,
  Date, strip, strip_idem, is_date, sorted-IsSorted, All-sorted, sorted-perm,
}
use boxmunge.Cve.Suppressions.{Suppression, by_cve, ok, is_cve_id, project, find_active_suppression}
use boxmunge.Cve.Suppressions.File.{
  Yaml, FileState, holds, add_suppression, load_suppressions, remove_suppression, serialise,
  first_for,
}
use boxmunge.Cve.Suppressions.Entries.{IsEntry}
use boxmunge.Cve.Suppressions.Active.{
  hides, or_else, find_active-append, find_active-cons, find_active-sorted, find_active-keep_ne,
}
use boxmunge.Cve.Suppressions.Edits.{
  IsYaml, load-serialise, by_cve_total, by_cve_trans, sorted_idem,
}

-- What the arguments of add_suppression must satisfy.
pub record IsRequest (cve : String) (until : Date) (reason by : String) (today : Date)
    : Type 0 where
  pub cve_valid : is_cve_id cve ≡ true
  pub reason_filled : str_eq (strip reason) "" ≡ false
  pub reviewer_filled : str_eq (strip by) "" ≡ false
  pub until_real : is_date until ≡ true
  pub today_real : is_date today ≡ true

abbrev pub requested : String → Date → String → String → Date → Suppression
requested cve until reason by today = record {
  cve_id = cve;
  until = until;
  reason = strip reason;
  reviewed_by = strip by;
  added = today;
  scope = project;
}

requested-IsEntry :
    (cve : String) (until : Date) (reason by : String) (today : Date)
    → IsRequest cve until reason by today
    → IsEntry (requested cve until reason by today)
requested-IsEntry cve until reason by today r = record {
  cve = r.cve_valid;
  reason_stripped = strip_idem reason;
  reason_filled = r.reason_filled;
  reviewer_stripped = strip_idem by;
  reviewer_filled = r.reviewer_filled;
  until_real = r.until_real;
  added_real = r.today_real;
  from_project = refl;
}

All-append : (xs ys : List Suppression) → All IsEntry xs → All IsEntry ys → All IsEntry (xs ++ ys)
All-append [] ys h k = k
All-append (x ∷ xs) ys h k = (h.0, All-append xs ys h.1 k)

All-keep :
    (p : Suppression → Bool) (xs : List Suppression) → All IsEntry xs → All IsEntry (keep p xs)
All-keep p [] h = tt
All-keep p (x ∷ xs) h = elim (Bool-cases (p x)) [
  | inl e ↦ rw e (h.0, All-keep p xs h.1)
  | inr e ↦ rw e (All-keep p xs h.1)
]

first_for-cve :
    (ss : List Suppression) (cve : String) (t : Suppression)
    → first_for cve ss ≡ some t
    → t.cve_id ≡ cve
unfolding first_for
first_for-cve [] cve t h = cc
first_for-cve (s ∷ ss) cve t h = ground (arith, eq_iff s.cve_id cve, first_for-cve ss cve t)

module _ (Y : Yaml) (law : IsYaml Y) where
  -- A file just written holds the entries, sorted, and the search on what is loaded answers as it
  -- does on the entries.
  saved-entries :
      (entries : List Suppression) {answer : String → Date → Option Suppression}
      → All IsEntry entries
      → ((j : String) (d : Date) → find_active_suppression entries j d ≡ answer j d)
      → (ss : List Suppression) × (load_suppressions Y
            (holds (serialise Y (sorted by_cve entries)))
            project
          ≡ ok ss)
        × Perm ss entries
        × IsSorted by_cve ss
        × ((j : String) (d : Date) → find_active_suppression ss j d ≡ answer j d)
  saved-entries entries well_formed find = (
    sorted by_cve entries,
    load-serialise Y law (sorted by_cve entries) (All-sorted by_cve IsEntry entries well_formed)
        ∙ ap ok (sorted_idem entries),
    sorted-perm by_cve entries,
    sorted-IsSorted by_cve by_cve_total by_cve_trans entries,
    λ j d. find_active-sorted entries j d ∙ find j d,
  )

  -- A valid addition of a CVE that the file has no entry for succeeds, and the next load has the
  -- old entries and the new one, in order; for every CVE and day the search then finds what it
  -- found before, and otherwise the new entry where that is for the CVE and active.
  pub add-load :
      (file : FileState Y.Text) (existing : List Suppression) (cve : String) (until : Date)
      (reason by : String) (today : Date)
      → load_suppressions Y file project ≡ ok existing
      → All IsEntry existing
      → IsRequest cve until reason by today
      → any (λ s. str_eq s.cve_id cve) existing ≡ false
      → let (result, after) = add_suppression Y true file cve until reason by today in
        let new_entry = requested cve until reason by today in
        (result ≡ ok new_entry)
        × ((ss : List Suppression) × (load_suppressions Y after project ≡ ok ss)
            × Perm ss (existing ++ new_entry ∷ [])
            × IsSorted by_cve ss
            × ((j : String) (d : Date)
                → find_active_suppression ss j d
                  ≡ or_else
                      (find_active_suppression existing j d)
                      (if hides j d new_entry then some new_entry else none)))
  unfolding add_suppression find_active_suppression
  add-load file existing cve until reason by today l e r fresh =
      let new_entry = requested cve until reason by today in
      let entries = existing ++ new_entry ∷ [] in
      let well_formed : All IsEntry entries =
        All-append existing (new_entry ∷ []) e
          (requested-IsEntry cve until reason by today r, tt) in
      rw (r.cve_valid) (
        rw (r.reason_filled) (
          rw (r.reviewer_filled) (
            rw l (
              rw fresh (
                refl,
                saved-entries entries well_formed (λ j d.
                    find_active-append existing (new_entry ∷ []) j d
                    ∙ ap (or_else (find_active_suppression existing j d))
                        (find_active-cons new_entry [] j d)),
              )))))

  -- A removal of a CVE that the file has an entry for succeeds, and returns its first entry; the
  -- next load has the entries of the other CVEs, in order; for every CVE and day the search finds
  -- nothing for the removed CVE and what it found before for the others.
  pub remove-load :
      (text : Y.Text) (existing : List Suppression) (cve : String) (target : Suppression)
      → load_suppressions Y (holds text) project ≡ ok existing
      → All IsEntry existing
      → first_for cve existing ≡ some target
      → let (result, after) = remove_suppression Y true (holds text) cve in
        (result ≡ ok target)
        × (target.cve_id ≡ cve)
        × ((ss : List Suppression) × (load_suppressions Y after project ≡ ok ss)
            × Perm ss (keep (λ s. not (str_eq s.cve_id cve)) existing)
            × IsSorted by_cve ss
            × ((j : String) (d : Date)
                → find_active_suppression ss j d
                  ≡ (if str_eq cve j then none else find_active_suppression existing j d)))
  unfolding remove_suppression
  remove-load text existing cve target l e t =
      let rest = keep (λ s. not (str_eq s.cve_id cve)) existing in
      let well_formed : All IsEntry rest = All-keep (λ s. not (str_eq s.cve_id cve)) existing e in
      rw l (
        rw t (
          refl,
          first_for-cve existing cve target t,
          (
            sorted by_cve rest,
            load-serialise Y law rest well_formed,
            sorted-perm by_cve rest,
            sorted-IsSorted by_cve by_cve_total by_cve_trans rest,
            λ j d. find_active-sorted rest j d ∙ find_active-keep_ne existing cve j d,
          ),
        ))
