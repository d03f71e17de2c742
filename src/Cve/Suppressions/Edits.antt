-- ===== src/Cve/Suppressions/Edits.antt =====
-- What an edit of the suppressions file leaves in it, under PyYAML's law that a dumped document
-- is loaded again.
use boxmunge.Prelude.{
  String, ◌≡◌, refl, subst, Bool, true, false, Option, none, some, List, [], ◌∷◌, map, arith, All,
  sorted, IsSorted, Value, Date, sorted_of_IsSorted, str_le_total, str_le_trans, sorted-IsSorted,
}
use boxmunge.Cve.Suppressions.{
  Suppression, by_cve, ok, err, Scope, in_scope, Error, project, payload,
}
use boxmunge.Cve.Suppressions.File.{
  Yaml, FileState, holds, add_suppression, load_suppressions, serialise, loaded, remove_suppression,
  document_entries, missing, locked,
}
use boxmunge.Cve.Suppressions.Entries.{IsEntry, document_entries-payload, oks-injective, >>=-eq-ok}
use mathlib.Core.Path.{ap₂}

-- yaml.safe_load(yaml.safe_dump(v)) == v
pub record IsYaml (Y : Yaml) : Type 0 where
  pub load-dump : (v : Value) → Y.safe_load (Y.safe_dump v) ≡ some v

map-in_scope : (ss : List Suppression) → All IsEntry ss → map (in_scope project) ss ≡ ss
map-in_scope [] h = refl
map-in_scope (s ∷ ss) h = ap₂ ◌∷◌ (in_scope_self s h.0) (map-in_scope ss h.1)
  where
    in_scope_self : (t : Suppression) → IsEntry t → in_scope project t ≡ t
    in_scope_self t e = ground arith

pub by_cve_total : (a b : Suppression) → by_cve a b ≡ false → by_cve b a ≡ true
by_cve_total a b h = str_le_total a.cve_id b.cve_id h

pub by_cve_trans : (a b c : Suppression) → by_cve a b ≡ true → by_cve b c ≡ true → by_cve a c ≡ true
by_cve_trans a b c h k = str_le_trans a.cve_id b.cve_id c.cve_id h k

pub sorted_idem : (ss : List Suppression) → sorted by_cve (sorted by_cve ss) ≡ sorted by_cve ss
sorted_idem ss =
    sorted_of_IsSorted by_cve (sorted by_cve ss)
      (sorted-IsSorted by_cve by_cve_total by_cve_trans ss)

loaded-IsSorted :
    (scope : Scope) (o : Option Value) (ss : List Suppression)
    → loaded scope o ≡ ok ss
    → IsSorted by_cve ss
unfolding loaded
loaded-IsSorted scope none ss h = cc
loaded-IsSorted scope (some v) ss h =
    let (parsed, _, h1) = >>=-eq-ok (document_entries v) _ h in
    subst (IsSorted by_cve) (oks-injective _ ss h1)
      (sorted-IsSorted by_cve by_cve_total by_cve_trans (map (in_scope scope) parsed))

module _ (Y : Yaml) (law : IsYaml Y) where
  -- What the program writes it loads again, in order.
  pub load-serialise :
      (ss : List Suppression)
      → All IsEntry ss
      → load_suppressions Y (holds (serialise Y ss)) project ≡ ok (sorted by_cve ss)
  unfolding load_suppressions
  load-serialise ss h =
      rw (law.load-dump (payload ss)) (rw (document_entries-payload ss h) (rw (map-in_scope ss h)))

  -- Whatever the file, its entries are loaded in the order of their CVEs.
  load-IsSorted :
      (file : FileState Y.Text) (scope : Scope) (ss : List Suppression)
      → load_suppressions Y file scope ≡ ok ss
      → IsSorted by_cve ss
  unfolding load_suppressions
  load-IsSorted missing scope ss h = subst (IsSorted by_cve) (oks-injective [] ss h) tt
  load-IsSorted locked scope ss h = cc
  load-IsSorted (holds text) scope ss h = loaded-IsSorted scope (Y.safe_load text) ss h

  -- An addition that fails leaves the file as it was.
  add_error_keeps :
      (disk : Bool) (file : FileState Y.Text) (cve : String) (until : Date) (reason by : String)
      (today : Date) (e : Error)
      → (add_suppression Y disk file cve until reason by today).0 ≡ err e
      → (add_suppression Y disk file cve until reason by today).1 ≡ file
  unfolding add_suppression
  add_error_keeps disk file cve until reason by today e h = ground arith

  -- A removal that fails leaves the file as it was.
  remove_error_keeps :
      (disk : Bool) (file : FileState Y.Text) (cve : String) (e : Error)
      → (remove_suppression Y disk file cve).0 ≡ err e
      → (remove_suppression Y disk file cve).1 ≡ file
  unfolding remove_suppression
  remove_error_keeps disk missing cve e h = refl
  remove_error_keeps disk file cve e h = ground arith
