-- ===== src/Userns/Journal/Codec.antt =====
-- src/boxmunge/userns/journal.py: a journal is read back as it was written.
use boxmunge.Prelude.{
  ℕ, ◌%◌, ◌<◌, String, ◌≡◌, refl, ap, ◌∙◌, Bool, true, Option, none, some, List, [], ◌∷◌, arith,
  if◌then◌else◌, is_some, lookup, elem, subset, Value, int, str, dict_of-fields_of,
  list_of-items_of, pos, ℤ,
}
use boxmunge.Userns.Journal.{
  Journal, Direction, Phase, index_in, phase_in, phase_text, phases, direction_text, direction_of,
  phase_of, offset_of, ok, err, Result, ◌>>=◌,
}
use boxmunge.Userns.Journal.Document.{
  int_field, is_int_or_null, is_list_or_null, is_text_or_null, list_field, text_field, validate,
  wrong, document, int_value, list_value, text_value, to_doc, no_wrong, types,
}
use boxmunge.Userns.Journal

direction_of_text : (d : Direction) → direction_of (some (str (direction_text d))) ≡ ok d
direction_of_text Journal.forward = refl
direction_of_text Journal.rollback = refl

phase_of_text :
    (d : Direction) (p : Phase)
    → is_some (index_in d p) ≡ true
    → phase_of d (some (str (phase_text p))) ≡ ok p
unfolding index_in phase_in
phase_of_text Journal.forward Journal.started h = refl
phase_of_text Journal.forward Journal.prepared h = refl
phase_of_text Journal.forward Journal.quiesced h = refl
phase_of_text Journal.forward Journal.switched h = refl
phase_of_text Journal.forward Journal.rebuilt h = refl
phase_of_text Journal.forward Journal.applied h = refl
phase_of_text Journal.forward Journal.committed h = refl
phase_of_text Journal.forward Journal.rb_started h = cc
phase_of_text Journal.forward Journal.rb_saved h = cc
phase_of_text Journal.forward Journal.rb_quiesced h = cc
phase_of_text Journal.forward Journal.rb_restored h = cc
phase_of_text Journal.forward Journal.rb_switched h = cc
phase_of_text Journal.forward Journal.rb_rebuilt h = cc
phase_of_text Journal.forward Journal.rolled_back h = cc
phase_of_text Journal.rollback Journal.started h = cc
phase_of_text Journal.rollback Journal.prepared h = cc
phase_of_text Journal.rollback Journal.quiesced h = cc
phase_of_text Journal.rollback Journal.switched h = cc
phase_of_text Journal.rollback Journal.rebuilt h = cc
phase_of_text Journal.rollback Journal.applied h = cc
phase_of_text Journal.rollback Journal.committed h = cc
phase_of_text Journal.rollback Journal.rb_started h = refl
phase_of_text Journal.rollback Journal.rb_saved h = refl
phase_of_text Journal.rollback Journal.rb_quiesced h = refl
phase_of_text Journal.rollback Journal.rb_restored h = refl
phase_of_text Journal.rollback Journal.rb_switched h = refl
phase_of_text Journal.rollback Journal.rb_rebuilt h = refl
phase_of_text Journal.rollback Journal.rolled_back h = refl

offset_of_number : (n : ℕ) → 0 < n → n % 65536 ≡ 0 → offset_of (some (int (pos n))) ≡ ok n
offset_of_number n h k = ground arith

text_value_good : (o : Option String) → is_text_or_null (text_value o) ≡ true
text_value_good none = refl
text_value_good (some s) = refl

list_value_good : (o : Option (List Value)) → is_list_or_null (list_value o) ≡ true
list_value_good none = refl
list_value_good (some xs) = refl

int_value_good : (o : Option ℤ) → is_int_or_null (int_value o) ≡ true
int_value_good none = refl
int_value_good (some n) = refl

text_field_value : (o : Option String) → text_field (some (text_value o)) ≡ o
text_field_value none = refl
text_field_value (some s) = refl

list_field_value : (o : Option (List Value)) → list_field (some (list_value o)) ≡ o
list_field_value none = refl
list_field_value (some xs) = ap some (list_of-items_of xs)

int_field_value : (o : Option ℤ) → int_field (some (int_value o)) ≡ o
int_field_value none = refl
int_field_value (some n) = refl

good_field :
    (k : String) (v : Value) (good : Value → Bool) (rest : List String)
    → good v ≡ true
    → rest ≡ []
    → (if good v then rest else k ∷ rest) ≡ []
good_field k v good rest h e = rw (h, e)

no_wrong_fields : (j : Journal) → wrong (document j) types ≡ []
unfolding wrong lookup
no_wrong_fields j = good_field _ _ is_text_or_null _ (text_value_good j.applied_at) (
    good_field _ _ is_int_or_null _ (int_value_good j.caddyfile_mode) (
      good_field _ _ is_text_or_null _ (text_value_good j.daemon_json) (
        good_field _ _ is_list_or_null _ (list_value_good j.daemon_json_owner)
          (good_field _ _ is_text_or_null _ (text_value_good j.failed) refl))))

bind_is : {A B : Type 0} {m : Result A} {a : A} (f : A → Result B) → m ≡ ok a → (m >>= f) ≡ f a
bind_is f h = ap (λ m. m >>= f) h

-- A journal whose offset is a positive multiple of 65536 and whose phase is one of its direction's
-- is read back, from the document that is written for it, as it was.
pub validate-to_doc :
    (j : Journal)
    → 0 < j.offset
    → j.offset % 65536 ≡ 0
    → is_some (index_in j.direction j.phase) ≡ true
    → validate (to_doc j) ≡ ok j
unfolding validate to_doc lookup wrong subset elem
validate-to_doc j above aligned own =
    bind_is _ (direction_of_text j.direction)
    ∙ (bind_is _ (phase_of_text j.direction j.phase own)
        ∙ (bind_is _ (offset_of_number j.offset above aligned)
            ∙ (bind_is _ (ap no_wrong (no_wrong_fields j)) ∙ (λ i. ok (record j {
              daemon_json = text_field_value j.daemon_json i;
              daemon_json_owner = list_field_value j.daemon_json_owner i;
              prior_store = dict_of-fields_of j.prior_store i;
              inventory = dict_of-fields_of j.inventory i;
              rollback_inventory = dict_of-fields_of j.rollback_inventory i;
              items = dict_of-fields_of j.items i;
              timers = dict_of-fields_of j.timers i;
              image_map = dict_of-fields_of j.image_map i;
              setid = dict_of-fields_of j.setid i;
              caddyfile_mode = int_field_value j.caddyfile_mode i;
              applied_at = text_field_value j.applied_at i;
              failed = text_field_value j.failed i;
            })))))
