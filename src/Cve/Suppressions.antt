-- ===== src/Cve/Suppressions.antt =====
-- src/boxmunge/cve/suppressions.py: the suppression entries, their parsing and the file's edits.
pub mod File
pub mod Active
pub mod Entries
pub mod Edits
pub mod Effects
use boxmunge.Prelude.{
  ℕ, suc, String, Option, none, some, Bool, true, false, not, ◌&&◌, List, [], ◌∷◌, map, Dict,
  lookup, str_eq, str_le, codes, keep, Value, str, day, arr, obj, as_dict, items_of, fields_of,
  Date, date_lt, isoformat, from_isoformat, strip, leb, ◌==◌, is_some, if◌then◌else◌,
}

pub data Scope : Type 0 where
  project host : Scope

pub record Suppression : Type 0 where
  pub cve_id : String
  pub until : Date
  pub reason : String
  pub reviewed_by : String
  pub added : Date
  pub scope : Scope

-- Suppression.is_active
unfoldable pub is_active : Date → Suppression → Bool
is_active today s = date_lt today s.until

-- What a `SuppressionsError` says. An entry's errors carry its index.
pub data EntryError : Type 0 where
  not_mapping missing_fields bad_cve bad_reason bad_reviewed_by : EntryError
  bad_until bad_added : EntryError

pub data Error : Type 0 where
  unreadable bad_yaml empty_file bad_document no_suppressions_key bad_list : Error
  bad_entry : ℕ → EntryError → Error
  invalid_cve empty_reason empty_reviewed_by duplicate no_file no_entry : Error
  -- an OSError of the write, which the functions let through
  write_failed : Error

pub data Result {ℓ} (A : Type ℓ) : Type ℓ where
  err : Error → Result A
  ok : A → Result A

infixl 5 ◌>>=◌
abbrev pub ◌>>=◌ {ℓ κ} : {A : Type ℓ} {B : Type κ} → Result A → (A → Result B) → Result B
err raised >>= next = err raised
ok value >>= next = next value

-- The regular expressions match ASCII digits here; `$` also stands before one last newline.
abbrev is_digit : ℕ → Bool
is_digit c = leb b'0' c && leb c b'9'

abbrev at_end : List ℕ → Bool
at_end [] = true
at_end (c ∷ []) = c == 10
at_end _ = false

unfoldable digits_then_end : List ℕ → Bool
digits_then_end [] = true
digits_then_end (c ∷ cs) =
    let rest = digits_then_end cs in if is_digit c then rest else at_end (c ∷ cs)

abbrev digits_or_end : List ℕ → Bool
digits_or_end = digits_then_end

-- `_CVE_RE`: CVE-, four digits, a dash, four digits or more
cve_codes : List ℕ → Bool
cve_codes (a ∷ b ∷ c ∷ d ∷ y1 ∷ y2 ∷ y3 ∷ y4 ∷ e ∷ n1 ∷ n2 ∷ n3 ∷ n4 ∷ rest) =
    (a == b'C' && b == b'V')
    && (c == b'E' && d == b'-')
    && ((is_digit y1 && is_digit y2) && (is_digit y3 && is_digit y4))
    && (e == b'-' && ((is_digit n1 && is_digit n2) && (is_digit n3 && is_digit n4)))
    && digits_or_end rest
cve_codes _ = false

unfoldable pub is_cve_id : String → Bool
unfolding cve_codes digits_then_end
is_cve_id s = cve_codes (codes s)

abbrev require {ℓ} : {A : Type ℓ} → Option A → Error → Result A
require none e = err e
require (some a) e = ok a

-- `_ISO_DATE_RE` and `date.fromisoformat` accept together exactly the ISO texts of days.
unfoldable pub coerce_date : Option Value → EntryError → ℕ → Result Date
coerce_date (some (day d)) error index = ok d
coerce_date (some (str s)) error index = require (from_isoformat s) (bad_entry index error)
coerce_date _ error index = err (bad_entry index error)

-- isinstance(v, str) and v.strip()
abbrev filled_text : Option Value → Option String
filled_text (some (str s)) = if str_eq (strip s) "" then none else some (strip s)
filled_text _ = none

abbrev cve_text : Option Value → Option String
cve_text (some (str s)) = if is_cve_id s then some s else none
cve_text _ = none

abbrev pub guard : Bool → Error → Result (Unit {0})
guard true e = ok tt
guard false e = err e

abbrev has_required : Dict Value → Bool
has_required raw =
    is_some (lookup "cve" raw)
    && is_some (lookup "until" raw)
    && is_some (lookup "reason" raw)
    && is_some (lookup "reviewed_by" raw)
    && is_some (lookup "added" raw)

-- _parse_entry
unfoldable pub parse_entry : Value → ℕ → Result Suppression
unfolding coerce_date
parse_entry value index = do
  raw ← require (as_dict value) (bad_entry index not_mapping)
  _ ← guard (has_required raw) (bad_entry index missing_fields)
  cve_value ← require (cve_text (lookup "cve" raw)) (bad_entry index bad_cve)
  reason ← require (filled_text (lookup "reason" raw)) (bad_entry index bad_reason)
  reviewed_by ← require (filled_text (lookup "reviewed_by" raw)) (bad_entry index bad_reviewed_by)
  until ← coerce_date (lookup "until" raw) bad_until index
  added ← coerce_date (lookup "added" raw) bad_added index
  ok (record {
    cve_id = cve_value;
    until = until;
    reason = reason;
    reviewed_by = reviewed_by;
    added = added;
    scope = project;
  })

-- tuple(_parse_entry(raw, i) for i, raw in enumerate(raw_list))
unfoldable pub parse_entries : List Value → ℕ → Result (List Suppression)
unfolding parse_entry
parse_entries [] index = ok []
parse_entries (raw ∷ rest) index = do
  s ← parse_entry raw index
  ss ← parse_entries rest (suc index)
  ok (s ∷ ss)

abbrev pub by_cve : Suppression → Suppression → Bool
by_cve a b = str_le a.cve_id b.cve_id

abbrev pub in_scope : Scope → Suppression → Suppression
in_scope scope s = record s { scope = scope }

-- active_suppressions, expired_suppressions
unfoldable pub active_suppressions : List Suppression → Date → List Suppression
active_suppressions suppressions today = keep (is_active today) suppressions

unfoldable pub expired_suppressions : List Suppression → Date → List Suppression
expired_suppressions suppressions today = keep (λ s. not (is_active today s)) suppressions

-- find_active_suppression
unfoldable pub find_active_suppression : List Suppression → String → Date → Option Suppression
find_active_suppression [] cve_id today = none
find_active_suppression (s ∷ rest) cve_id today =
    let later = find_active_suppression rest cve_id today in
    if str_eq s.cve_id cve_id && is_active today s then some s else later

abbrev pub entry_value : Suppression → Value
entry_value s = obj (
    fields_of (
      ("cve", str s.cve_id)
      ∷ ("until", str (isoformat s.until))
      ∷ ("reason", str s.reason)
      ∷ ("reviewed_by", str s.reviewed_by)
      ∷ ("added", str (isoformat s.added))
      ∷ []))

-- the payload of _serialise, before it is dumped
unfoldable pub payload : List Suppression → Value
payload suppressions =
    obj (fields_of (("suppressions", arr (items_of (map entry_value suppressions))) ∷ []))
