-- ===== src/Prelude/Values.antt =====
-- The values of a parsed JSON or YAML document, and what Python's operators do with them.
-- The keys of a mapping are texts. A float keeps its text: the program only tells it from an int.
use Prim.Native.Nat.{ℕ, zero}
use Prim.Native.String.{String}
use mathlib.Core.Path.{◌≡◌, refl, ap}
use mathlib.Core.Bool.{Bool, true, false, not}
use mathlib.Core.Option.{Option, none, some}
use mathlib.Core.List.{List, [], ◌∷◌}
use boxmunge.Prelude.Dicts.{Dict}
use boxmunge.Prelude.Dates.{Date, Instant}
use boxmunge.Prelude.Texts.{str_eq}

-- `negsuc n` is -(n + 1).
pub data ℤ : Type 0 where
  pos : ℕ → ℤ
  negsuc : ℕ → ℤ

mutual
  pub data Value : Type 0 where
    null : Value
    bool : Bool → Value
    int : ℤ → Value
    float : String → Value
    str : String → Value
    -- YAML's dates and times
    day : Date → Value
    instant : Instant → Value
    arr : Items → Value
    obj : Fields → Value

  pub data Fields : Type 0 where
    end : Fields
    field : String → Value → Fields → Fields

  pub data Items : Type 0 where
    nil : Items
    cons : Value → Items → Items

abbrev pub list_of : Items → List Value
list_of nil = []
list_of (cons v xs) = v ∷ list_of xs

abbrev pub items_of : List Value → Items
items_of [] = nil
items_of (v ∷ vs) = cons v (items_of vs)

abbrev pub dict_of : Fields → Dict Value
dict_of end = []
dict_of (field k v fs) = (k, v) ∷ dict_of fs

abbrev pub fields_of : Dict Value → Fields
fields_of [] = end
fields_of ((k, v) ∷ m) = field k v (fields_of m)

pub list_of-items_of : (vs : List Value) → list_of (items_of vs) ≡ vs
list_of-items_of [] = refl
list_of-items_of (v ∷ vs) = ap (◌∷◌ v) (list_of-items_of vs)

pub dict_of-fields_of : (m : Dict Value) → dict_of (fields_of m) ≡ m
dict_of-fields_of [] = refl
dict_of-fields_of ((k, v) ∷ m) = ap (◌∷◌ (k, v)) (dict_of-fields_of m)

-- bool(v)
unfoldable pub truthy : Value → Bool
truthy null = false
truthy (bool b) = b
truthy (int (pos zero)) = false
truthy (int _) = true
truthy (float text) = not (str_eq text "0.0")
truthy (str s) = not (str_eq s "")
truthy (arr nil) = false
truthy (arr _) = true
truthy (obj end) = false
truthy (obj _) = true
truthy _ = true

-- The mapping's entries, the list's items, the text, where the value is one.
abbrev pub as_dict : Value → Option (Dict Value)
as_dict (obj fs) = some (dict_of fs)
as_dict _ = none

abbrev pub as_list : Value → Option (List Value)
as_list (arr xs) = some (list_of xs)
as_list _ = none

abbrev pub as_str : Value → Option String
as_str (str s) = some s
as_str _ = none

abbrev pub as_bool : Value → Option Bool
as_bool (bool b) = some b
as_bool _ = none

-- v is True, v is False
abbrev pub is_true : Option Value → Bool
is_true (some (bool b)) = b
is_true _ = false

abbrev pub is_false : Option Value → Bool
is_false (some (bool b)) = not b
is_false _ = false

-- v == s, for a text s
abbrev pub is_text : String → Value → Bool
is_text s (str t) = str_eq t s
is_text s _ = false

pub items_of-list_of : (xs : Items) → items_of (list_of xs) ≡ xs
items_of-list_of nil = refl
items_of-list_of (cons v xs) = ap (cons v) (items_of-list_of xs)
