-- ===== src/Cve/Scanner/Vectors/Laws.antt =====
-- The attack vector is read wherever its token stands, and no source of it is overlooked.
use boxmunge.Prelude.{
  ℕ, String, ◌≡◌, refl, ap, ◌∙◌, ◌↔◌, inl, inr, Bool, true, false, not, ◌&&◌, Option, none, some,
  List, [], ◌∷◌, ◌++◌, arith, eq_iff, eq_refl, ◌==◌, Bool-cases, is_some, all, keep, Dict, lookup,
  keys, str_eq, str_le, elem, sorted, Value, str, obj, Fields, codes, dict_of, elem-sorted,
  elem-append,
}
use boxmunge.Cve.Scanner.{AttackVector, network, adjacent, local, physical}
use boxmunge.Cve.Scanner.Vectors.{
  split_slash, av_value, drop_spaces, av_or_later, av_of_tokens, or_later, source_av, first_av,
  cvss_source_priority, ordered_sources, parse_attack_vector, extract_av_from_vector,
}

-- A CVSS vector as its tokens, joined by slashes.
abbrev pub joined : List ℕ → List (List ℕ) → List ℕ
joined t [] = t
joined t (u ∷ us) = t ++ b'/' ∷ joined u us

abbrev no_slash : List ℕ → Bool
no_slash t = all (λ c. not (c == b'/')) t

split-token : (t : List ℕ) → no_slash t ≡ true → split_slash t ≡ t ∷ []
unfolding split_slash
split-token [] h = refl
split-token (c ∷ t) h =
    let rest = split-token t (ground arith) in
    let here_ : (c == b'/') ≡ false = ground arith in rw here_ (rw rest refl)

split-tokens :
    (t rest : List ℕ) → no_slash t ≡ true → split_slash (t ++ b'/' ∷ rest) ≡ t ∷ split_slash rest
unfolding split_slash
split-tokens [] rest h = refl
split-tokens (c ∷ t) rest h =
    let later = split-tokens t rest (ground arith) in
    let here_ : (c == b'/') ≡ false = ground arith in rw here_ (rw later refl)

-- Splitting takes a vector apart into its tokens.
split-joined :
    (t : List ℕ) (us : List (List ℕ))
    → all no_slash (t ∷ us) ≡ true
    → split_slash (joined t us) ≡ t ∷ us
split-joined t [] h = split-token t (ground arith)
split-joined t (u ∷ us) h =
    split-tokens t (joined u us) (ground arith) ∙ ap (◌∷◌ t) (split-joined u us (ground arith))

abbrev pub letter_of : AttackVector → ℕ
letter_of network = b'N'
letter_of adjacent = b'A'
letter_of local = b'L'
letter_of physical = b'P'

abbrev pub token_of : AttackVector → List ℕ
token_of av = b'A' ∷ b'V' ∷ b':' ∷ letter_of av ∷ []

token_of-read :
    (av : AttackVector) (later : Option AttackVector)
    → av_or_later (av_value (token_of av)) later ≡ some av
unfolding drop_spaces
token_of-read network later = refl
token_of-read adjacent later = refl
token_of-read local later = refl
token_of-read physical later = refl

abbrev pub is_other : List ℕ → Bool
is_other t = not (is_some (av_value t)) && no_slash t

skip_other :
    (o : Option (List ℕ)) (later : Option AttackVector)
    → is_some o ≡ false
    → av_or_later o later ≡ later
skip_other none later h = refl
skip_other (some v) later h = cc

token_found :
    (av : AttackVector) (before after : List (List ℕ))
    → all is_other before ≡ true
    → av_of_tokens (before ++ token_of av ∷ after) ≡ some av
unfolding av_of_tokens
token_found av [] after h = token_of-read av (av_of_tokens after)
token_found av (t ∷ before) after h =
    skip_other (av_value t) (av_of_tokens (before ++ token_of av ∷ after)) (ground arith)
    ∙ token_found av before after (ground arith)

abbrev pub join_slashes : List (List ℕ) → List ℕ
join_slashes [] = []
join_slashes (t ∷ us) = joined t us

split-join :
    (ts us : List (List ℕ)) (t : List ℕ)
    → all no_slash (ts ++ t ∷ us) ≡ true
    → split_slash (join_slashes (ts ++ t ∷ us)) ≡ ts ++ t ∷ us
split-join [] us t h = split-joined t us h
split-join (s ∷ ts) us t h = split-joined s (ts ++ t ∷ us) h

plain_tokens :
    (av : AttackVector) (before after : List (List ℕ))
    → all is_other before ≡ true
    → all no_slash after ≡ true
    → all no_slash (before ++ token_of av ∷ after) ≡ true
plain_tokens network [] after h k = k
plain_tokens adjacent [] after h k = k
plain_tokens local [] after h k = k
plain_tokens physical [] after h k = k
plain_tokens av (t ∷ before) after h k =
    ground (arith, plain_tokens av before after (ground arith) k)

-- A vector whose tokens are joined by slashes gives the attack vector that its first "AV:" token
-- names by its letter, whatever tokens without a slash stand before it, none of them an "AV:"
-- token, and behind it.
pub extract_av_from_vector-joined :
    (vector : String) (av : AttackVector) (before after : List (List ℕ))
    → codes vector ≡ join_slashes (before ++ token_of av ∷ after)
    → all is_other before ≡ true
    → all no_slash after ≡ true
    → extract_av_from_vector (some (str vector)) ≡ some av
unfolding extract_av_from_vector
extract_av_from_vector-joined vector av before after e h k =
    ap (λ cs. av_of_tokens (split_slash cs)) e
    ∙ ap av_of_tokens (split-join before after (token_of av) (plain_tokens av before after h k))
    ∙ token_found av before after h

or_later-none : (a b : Option AttackVector) → (or_later a b ≡ none) ↔ ((a ≡ none) × (b ≡ none))
or_later-none none b = (λ h. (refl, h), λ h. h.1)
or_later-none (some av) b = (λ h. cc, λ h. cc)

first_av-none :
    (cvss : Dict Value) (sources : List String)
    → (first_av cvss sources ≡ none)
      ↔ ((source : String) → elem source sources ≡ true → source_av cvss source ≡ none)
unfolding first_av elem
first_av-none cvss [] = (λ h source i. cc, λ h. refl)
first_av-none cvss (s ∷ rest) =
    let (split, merge) = or_later-none (source_av cvss s) (first_av cvss rest) in
    let (all_none, some_none) = first_av-none cvss rest in
    (
      λ h source i. elim (Bool-cases (str_eq source s)) [
        | inl e ↦ let (to, _) = eq_iff source s in ap (source_av cvss) (to e) ∙ (split h).0
        | inr e ↦ all_none (split h).1 source (ground arith)
      ],
      λ h. merge (h s (ground (arith, eq_refl s)), some_none (λ source i. h source (ground arith))),
    )

lookup-missing : (m : Dict Value) (k : String) → elem k (keys m) ≡ false → lookup k m ≡ none
unfolding lookup elem
lookup-missing [] k h = refl
lookup-missing ((j, v) ∷ m) k h = ground (arith, eq_iff j k, eq_iff k j, lookup-missing m k)

elem-keep :
    (f : String → Bool) (x : String) (xs : List String) → elem x (keep f xs) ≡ (elem x xs && f x)
unfolding elem
elem-keep f x [] = refl
elem-keep f x (y ∷ ys) = elim (Bool-cases (str_eq x y)) [
  | inl e ↦ let (to, _) = eq_iff x y in ground (arith, elem-keep f x ys, ap f (to e))
  | inr e ↦ ground (arith, elem-keep f x ys)
]

pub unordered_missing :
    (m : Dict Value) (source : String)
    → elem source (ordered_sources m) ≡ false
    → elem source (keys m) ≡ false
unordered_missing m source h =
    let others = keep (λ k. not (elem k cvss_source_priority)) (keys m) in
    ground (
      arith,
      h,
      elem-append source cvss_source_priority (sorted str_le others),
      elem-sorted source others,
      elem-keep (λ k. not (elem k cvss_source_priority)) source (keys m),
    )

pub missing_source :
    (cvss : Dict Value) (source : String)
    → elem source (keys cvss) ≡ false
    → source_av cvss source ≡ none
unfolding source_av
missing_source cvss source h = rw (lookup-missing cvss source h) refl

-- No attack vector is found exactly when no source of the block has a readable one.
pub parse_attack_vector-none_iff :
    (cvss : Fields)
    → (parse_attack_vector (some (obj cvss)) ≡ none)
      ↔ ((source : String) → source_av (dict_of cvss) source ≡ none)
unfolding parse_attack_vector
parse_attack_vector-none_iff cvss =
    let m = dict_of cvss in
    let (to, from) = first_av-none m (ordered_sources m) in
    (
      λ h source. elim (Bool-cases (elem source (ordered_sources m))) [
        | inl e ↦ to h source e
        | inr e ↦ missing_source m source (unordered_missing m source e)
      ],
      λ h. from (λ source i. h source),
    )
