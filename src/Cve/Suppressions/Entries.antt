-- ===== src/Cve/Suppressions/Entries.antt =====
-- Well-formed entries: what the parser accepts, and that the file's form of them is read back.
use boxmunge.Prelude.{
  ℕ, suc, ◌≡◌, refl, sym, String, Option, none, some, true, false, List, [], ◌∷◌, map, Dict, lookup,
  str_eq, Value, day, str, as_dict, Date, is_date, from_isoformat-isoformat, from_isoformat-IsDate,
  strip, strip_idem, list_of-items_of, All, Bool-cases, inl, inr, arith, ap, ◌∙◌, obj, dict_of,
  subst,
}
use boxmunge.Cve.Suppressions.{
  Suppression, project, ok, is_cve_id, parse_entry, parse_entries, entry_value, payload,
  coerce_date, EntryError, Error, cve_text, filled_text, require, bad_until, bad_added, Result,
  guard, has_required, ◌>>=◌, bad_entry, err, missing_fields,
}
use boxmunge.Cve.Suppressions.File.{document_entries}

-- An entry as add_suppression and the parser build it.
pub record IsEntry (s : Suppression) : Type 0 where
  pub cve : is_cve_id s.cve_id ≡ true
  pub reason_stripped : strip s.reason ≡ s.reason
  pub reason_filled : str_eq s.reason "" ≡ false
  pub reviewer_stripped : strip s.reviewed_by ≡ s.reviewed_by
  pub reviewer_filled : str_eq s.reviewed_by "" ≡ false
  pub until_real : is_date s.until ≡ true
  pub added_real : is_date s.added ≡ true
  pub from_project : s.scope ≡ project

-- An entry's form in the file is read back as the entry, at any index.
pub parse_entry-entry_value :
    (s : Suppression) (i : ℕ) → IsEntry s → parse_entry (entry_value s) i ≡ ok s
unfolding parse_entry lookup
parse_entry-entry_value s i h = rw (h.cve) (
    rw (h.reason_stripped) (
      rw (h.reason_filled) (
        rw (h.reviewer_stripped) (
          rw (h.reviewer_filled) (
            rw (from_isoformat-isoformat s.until h.until_real)
              (rw (from_isoformat-isoformat s.added h.added_real) (ground arith)))))))

parse_entries-map :
    (ss : List Suppression) (i : ℕ) → All IsEntry ss → parse_entries (map entry_value ss) i ≡ ok ss
unfolding parse_entries
parse_entries-map [] i h = refl
parse_entries-map (s ∷ ss) i h =
    rw (parse_entry-entry_value s i h.0) (rw (parse_entries-map ss (suc i) h.1))

-- The document that the program writes is read back as the same entries.
pub document_entries-payload :
    (ss : List Suppression) → All IsEntry ss → document_entries (payload ss) ≡ ok ss
unfolding document_entries payload lookup
document_entries-payload ss h =
    rw (list_of-items_of (map entry_value ss)) (parse_entries-map ss 0 h)

-- The days of a YAML document are days of the calendar.
abbrev RealDay : Option Value → Type 0
RealDay (some (day d)) = is_date d ≡ true
RealDay _ = Unit

pub record RealDays (raw : Dict Value) : Type 0 where
  pub until : RealDay (lookup "until" raw)
  pub added : RealDay (lookup "added" raw)

abbrev pub EntryDays : Option (Dict Value) → Type 0
EntryDays none = Unit
EntryDays (some raw) = RealDays raw

coerce_date-IsDate :
    (v : Option Value) (e : EntryError) (i : ℕ) (d : Date)
    → RealDay v
    → coerce_date v e i ≡ ok d
    → is_date d ≡ true
unfolding coerce_date
coerce_date-IsDate (some (day c)) e i d real h = ground arith
coerce_date-IsDate (some (str s)) e i d real h = from_isoformat-IsDate s d (ground arith)
coerce_date-IsDate none e i d real h = cc
coerce_date-IsDate (some _) e i d real h = cc

filled_text-stripped :
    (v : Option Value) (t : String) → filled_text v ≡ some t → (strip t ≡ t) × (str_eq t "" ≡ false)
filled_text-stripped (some (str s)) t h = elim (Bool-cases (str_eq (strip s) "")) [
  | inl e ↦ cc (rw e at h)
  | inr e ↦ let p : strip s ≡ t = ground arith in (ap strip (sym p) ∙ strip_idem s ∙ p, rw p at e)
]
filled_text-stripped none t h = cc
filled_text-stripped (some _) t h = cc

cve_text-IsCve : (v : Option Value) (t : String) → cve_text v ≡ some t → is_cve_id t ≡ true
cve_text-IsCve (some (str s)) t h = ground arith
cve_text-IsCve none t h = cc
cve_text-IsCve (some _) t h = cc

require-eq-ok {ℓ} :
    {A : Type ℓ} (o : Option A) (e : Error) {a : A} → require o e ≡ ok a → o ≡ some a
require-eq-ok none e h = cc
require-eq-ok (some a) e h = cc

-- A chain that ends well had its first part end well.
pub >>=-eq-ok {ℓ κ} :
    {A : Type ℓ} {B : Type κ} (first : Result A) (next : A → Result B) {last : B}
    → (first >>= next) ≡ ok last
    → (value : A) × (first ≡ ok value) × (next value ≡ ok last)
>>=-eq-ok (err raised) next h = cc
>>=-eq-ok (ok value) next h = (value, refl, h)

ok-injective : (s t : Suppression) → ok s ≡ ok t → s ≡ t
ok-injective s t h = cc

pub oks-injective : (s t : List Suppression) → ok s ≡ ok t → s ≡ t
oks-injective s t h = cc

-- Every entry that the parser accepts is well formed.
parse_entry-IsEntry :
    (v : Value) (i : ℕ) (s : Suppression)
    → EntryDays (as_dict v)
    → parse_entry v i ≡ ok s
    → IsEntry s
unfolding parse_entry
parse_entry-IsEntry (obj fs) i s days h =
    let raw : Dict Value = dict_of fs in
    let (_, _, h1) = >>=-eq-ok (guard (has_required raw) (bad_entry i missing_fields)) _ h in
    let (cve, ec, h2) = >>=-eq-ok (require (cve_text (lookup "cve" raw)) _) _ h1 in
    let (reason, er, h3) = >>=-eq-ok (require (filled_text (lookup "reason" raw)) _) _ h2 in
    let (by, eb, h4) = >>=-eq-ok (require (filled_text (lookup "reviewed_by" raw)) _) _ h3 in
    let (until, eu, h5) = >>=-eq-ok (coerce_date (lookup "until" raw) bad_until i) _ h4 in
    let (added, ea, h6) = >>=-eq-ok (coerce_date (lookup "added" raw) bad_added i) _ h5 in
    let (rs, rf) = filled_text-stripped _ reason (require-eq-ok _ _ er) in
    let (bs, bf) = filled_text-stripped _ by (require-eq-ok _ _ eb) in
    subst IsEntry (ok-injective _ s h6) (record {
      cve = cve_text-IsCve _ cve (require-eq-ok _ _ ec);
      reason_stripped = rs;
      reason_filled = rf;
      reviewer_stripped = bs;
      reviewer_filled = bf;
      until_real = coerce_date-IsDate _ bad_until i until days.until eu;
      added_real = coerce_date-IsDate _ bad_added i added days.added ea;
      from_project = refl;
    })
parse_entry-IsEntry _ i s days h = cc

abbrev AllDays : List Value → Type 0
AllDays = All (λ v. EntryDays (as_dict v))

parse_entries-IsEntry :
    (vs : List Value) (i : ℕ) (ss : List Suppression)
    → AllDays vs
    → parse_entries vs i ≡ ok ss
    → All IsEntry ss
unfolding parse_entries
parse_entries-IsEntry [] i ss days h = subst (All IsEntry) (oks-injective [] ss h) tt
parse_entries-IsEntry (v ∷ vs) i ss days h =
    let (s, es, h1) = >>=-eq-ok (parse_entry v i) _ h in
    let (rest, er, h2) = >>=-eq-ok (parse_entries vs (suc i)) _ h1 in
    subst (All IsEntry) (oks-injective (s ∷ rest) ss h2)
      (parse_entry-IsEntry v i s days.0 es, parse_entries-IsEntry vs (suc i) rest days.1 er)
