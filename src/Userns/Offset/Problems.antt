-- ===== src/Userns/Offset/Problems.antt =====
-- src/boxmunge/userns/offset.py, remap_offset: what it means that no problem is found.
use boxmunge.Prelude.{
  ℕ, String, ◌≡◌, refl, ap, Bool, true, false, Option, none, some, List, [], ◌∷◌, ◌++◌, arith,
  eq_iff, eq_refl, is_some,
}
use boxmunge.Userns.Offset.Sources.{
  Info, checked, is_some_text, record_problems, remap_offset, source_problems, Host, asked,
  daemon_value, settled, unless, daemon_remapped, is_own_range, recorded_offset, daemon_json_userns,
  ends_with, root_suffix,
}
use boxmunge.Userns.Offset.{
  RemapProblem, Result, ok, Etc, SubRange, ◌>>=◌, err, remap_ranges, no_record, not_remapped,
  wrong_driver, wrong_subuid, wrong_subgid, wrong_root,
}

is_some_text-eq : (t : String) (o : Option String) → is_some_text t o ≡ true → o ≡ some t
is_some_text-eq t none h = cc
is_some_text-eq t (some s) h = ap some ((eq_iff s t).0 h)

pub is_some_text_refl : (t : String) {o : Option String} → o ≡ some t → is_some_text t o ≡ true
is_some_text_refl t h = rw h (eq_refl t)

unless-nil :
    (b : Bool) (p : RemapProblem) (ps : List RemapProblem)
    → unless b p ++ ps ≡ []
    → (b ≡ true) × (ps ≡ [])
unless-nil true p ps h = (refl, h)
unless-nil false p ps h = cc

unless-nil_last : (b : Bool) (p : RemapProblem) → unless b p ≡ [] → b ≡ true
unless-nil_last true p h = refl
unless-nil_last false p h = cc

pub append-nil_iff : (a b : List RemapProblem) → a ++ b ≡ [] → (a ≡ []) × (b ≡ [])
append-nil_iff [] b h = (refl, h)
append-nil_iff (p ∷ a) b h = cc

pub ok_inj : {a b : ℕ} → ok a ≡ ok b → a ≡ b
ok_inj h = cc

-- What a chain of steps that succeeds went through first.
first_ok :
    {A B : Type 0} {b : B} (next : A → Result B) (first : Result A)
    → first >>= next ≡ ok b
    → (a : A) × (next a ≡ ok b) × (first ≡ ok a)
first_ok next (ok a) h = (a, h, refl)
first_ok next (err e) h = cc

asked_ok : (o : Option Info) (info : Info) → asked o ≡ ok info → o ≡ some info
asked_ok none info h = cc
asked_ok (some i) info h = cc

module _ (decimal : ℕ → String) where
  pub sources-nil :
      (recorded : Option ℕ) (configured : Option String) (info : Info)
      → source_problems decimal recorded configured info ≡ []
      → (is_some recorded ≡ true)
        × (configured ≡ some daemon_value)
        × (daemon_remapped info ≡ true)
        × (info.driver ≡ some "overlay2")
  unfolding source_problems
  sources-nil recorded configured info h =
      let (a, h₁) = unless-nil (is_some recorded) no_record _ h in
      let (b, h₂) = unless-nil (is_some_text daemon_value configured) _ _ h₁ in
      let (c, h₃) = unless-nil (daemon_remapped info) not_remapped _ h₂ in
      (
        a,
        is_some_text-eq daemon_value configured b,
        c,
        is_some_text-eq "overlay2" info.driver (unless-nil_last _ wrong_driver h₃),
      )

  pub record-nil :
      (s : ℕ) (uids gids : List SubRange) (info : Info)
      → record_problems decimal s uids gids info ≡ []
      → (is_own_range s uids ≡ true)
        × (is_own_range s gids ≡ true)
        × (ends_with info.docker_root_dir (root_suffix decimal s) ≡ true)
  unfolding record_problems
  record-nil s uids gids info h =
      let (a, h₁) = unless-nil (is_own_range s uids) wrong_subuid _ h in
      let (b, h₂) = unless-nil (is_own_range s gids) wrong_subgid _ h₁ in
      (a, b, unless-nil_last (ends_with info.docker_root_dir (root_suffix decimal s)) wrong_root h₂)

  settled_ok :
      (s n : ℕ) (ps : List RemapProblem) → settled decimal s ps ≡ ok n → (s ≡ n) × (ps ≡ [])
  settled_ok s n [] h = (ok_inj h, refl)
  settled_ok s n (p ∷ ps) h = cc

  pub checked-none :
      (etc : Etc) (configured : Option String) (info : Info) (n : ℕ)
      → checked decimal etc none configured info ≡ ok n
      → (n ≡ 0) × (configured ≡ none) × (daemon_remapped info ≡ false)
  unfolding checked
  checked-none etc configured info n h = ground (
    arith,
    settled_ok 0 n (source_problems decimal none configured info),
    sources-nil none configured info,
  )

  pub checked-some :
      (etc : Etc) (s : ℕ) (configured : Option String) (info : Info) (n : ℕ)
      → checked decimal etc (some s) configured info ≡ ok n
      → (uids : List SubRange) × (gids : List SubRange) × (remap_ranges etc ≡ ok (uids, gids))
        × (s ≡ n)
        × (source_problems decimal (some s) configured info ≡ [])
        × (record_problems decimal s uids gids info ≡ [])
  unfolding checked
  checked-some etc s configured info n h =
      let ((uids, gids), settled, ranges) = first_ok _ (remap_ranges etc) h in
      let (same, none_left) = settled_ok s n _ settled in
      let (sources, others) = append-nil_iff _ _ none_left in
      (uids, gids, ranges, same, sources, others)

  pub inverted :
      (h : Host) (n : ℕ)
      → remap_offset decimal h ≡ ok n
      → (recorded : Option ℕ) × (configured : Option String) × (info : Info) × (recorded_offset
            h.config
          ≡ ok recorded)
        × (daemon_json_userns h.daemon_json ≡ ok configured)
        × (h.info ≡ some info)
        × (checked decimal h.etc recorded configured info ≡ ok n)
  unfolding remap_offset
  inverted h n e =
      let (recorded, e₁, r) = first_ok _ (recorded_offset h.config) e in
      let (configured, e₂, c) = first_ok _ (daemon_json_userns h.daemon_json) e₁ in
      let (info, e₃, i) = first_ok _ (asked h.info) e₂ in
      (recorded, configured, info, r, c, asked_ok h.info info i, e₃)
