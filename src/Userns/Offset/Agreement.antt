-- ===== src/Userns/Offset/Agreement.antt =====
-- src/boxmunge/userns/offset.py, remap_offset: an offset is given only where every source agrees.
use boxmunge.Prelude.{
  ℕ, String, ◌≡◌, sym, ap, ◌∙◌, subst, ◌↔◌, ◌⊎◌, inl, inr, true, false, Option, none, some, List,
  [], all,
}
use boxmunge.Userns.Offset.Sources.{
  Host, Info, checked, record_problems, remap_offset, source_problems, asked, daemon_value,
  recorded_offset, daemon_json_userns, daemon_remapped, is_own_range, ends_with, root_suffix,
}
use boxmunge.Userns.Offset.{Etc, SubRange, remap_ranges, ok, ◌>>=◌}
use boxmunge.Userns.Offset.Problems.{
  checked-none, inverted, is_some_text_refl, checked-some, sources-nil, record-nil,
}

module _ (decimal : ℕ → String) where
  -- The box was never remapped: no record, no setting, and a daemon that does not remap.
  abbrev pub NeverRemapped : Host → Type 0
  NeverRemapped h =
      (info : Info) × (recorded_offset h.config ≡ ok none)
      × (daemon_json_userns h.daemon_json ≡ ok none)
      × (h.info ≡ some info)
      × (daemon_remapped info ≡ false)

  -- The record, daemon.json, the running daemon and both subid files name the offset.
  abbrev pub AllAgree : Host → ℕ → Type 0
  AllAgree h s =
      (info : Info) × (uids : List SubRange) × (gids : List SubRange) × (recorded_offset h.config
        ≡ ok (some s))
      × (daemon_json_userns h.daemon_json ≡ ok (some daemon_value))
      × (h.info ≡ some info)
      × (daemon_remapped info ≡ true)
      × (info.driver ≡ some "overlay2")
      × (remap_ranges h.etc ≡ ok (uids, gids))
      × (is_own_range s uids ≡ true)
      × (is_own_range s gids ≡ true)
      × (ends_with info.docker_root_dir (root_suffix decimal s) ≡ true)

  forwards :
      (h : Host) (recorded : Option ℕ) (configured : Option String) (info : Info)
      → recorded_offset h.config ≡ ok recorded
      → daemon_json_userns h.daemon_json ≡ ok configured
      → h.info ≡ some info
      → remap_offset decimal h ≡ checked decimal h.etc recorded configured info
  unfolding remap_offset
  forwards h recorded configured info r c i =
      λ j. r j >>= (λ a. c j >>= (λ b. asked (i j) >>= (λ d. checked decimal h.etc a b d)))

  unchecked :
      (etc : Etc) (info : Info)
      → daemon_remapped info ≡ false
      → checked decimal etc none none info ≡ ok 0
  unfolding checked
  unchecked etc info d = rw d

  checked_agrees :
      (etc : Etc) (s : ℕ) (info : Info) (uids gids : List SubRange)
      → remap_ranges etc ≡ ok (uids, gids)
      → source_problems decimal (some s) (some daemon_value) info ≡ []
      → record_problems decimal s uids gids info ≡ []
      → checked decimal etc (some s) (some daemon_value) info ≡ ok s
  unfolding checked
  checked_agrees etc s info uids gids ranges a b = rw (ranges, a, b)

  never : (h : Host) → NeverRemapped h → remap_offset decimal h ≡ ok 0
  never h (info, r, c, i, d) = forwards h none none info r c i ∙ unchecked h.etc info d

  sources_agree :
      (s : ℕ) (info : Info)
      → daemon_remapped info ≡ true
      → info.driver ≡ some "overlay2"
      → source_problems decimal (some s) (some daemon_value) info ≡ []
  unfolding source_problems
  sources_agree s info d v = rw (d, is_some_text_refl "overlay2" v)

  record_agrees :
      (s : ℕ) (uids gids : List SubRange) (info : Info)
      → is_own_range s uids ≡ true
      → is_own_range s gids ≡ true
      → ends_with info.docker_root_dir (root_suffix decimal s) ≡ true
      → record_problems decimal s uids gids info ≡ []
  unfolding record_problems
  record_agrees s uids gids info u g r = rw (u, g, r)

  agreed : (h : Host) (n : ℕ) → AllAgree h n → remap_offset decimal h ≡ ok n
  agreed h n (info, uids, gids, r, c, i, d, v, ranges, u, g, root) =
      forwards h (some n) (some daemon_value) info r c i
      ∙ checked_agrees h.etc n info uids gids ranges (sources_agree n info d v)
          (record_agrees n uids gids info u g root)

  to_agree :
      (h : Host) (n : ℕ) (recorded : Option ℕ) (configured : Option String) (info : Info)
      → recorded_offset h.config ≡ ok recorded
      → daemon_json_userns h.daemon_json ≡ ok configured
      → h.info ≡ some info
      → checked decimal h.etc recorded configured info ≡ ok n
      → ((n ≡ 0) × NeverRemapped h) ⊎ AllAgree h n
  to_agree h n none configured info r c i k =
      let (zero_, unset, off) = checked-none decimal h.etc configured info n k in
      inl (zero_, (info, r, c ∙ ap (λ x. ok x) unset, i, off))
  to_agree h n (some s) configured info r c i k =
      let (uids, gids, ranges, same, sources, others) =
        checked-some decimal h.etc s configured info n k in
      let (_, set, on, driver) = sources-nil decimal (some s) configured info sources in
      let (u, g, root) = record-nil decimal s uids gids info others in
      inr (
        info,
        uids,
        gids,
        r ∙ ap (λ x. ok (some x)) same,
        c ∙ ap (λ x. ok x) set,
        i,
        on,
        driver,
        ranges,
        subst (λ x. is_own_range x uids ≡ true) same u,
        subst (λ x. is_own_range x gids ≡ true) same g,
        subst (λ x. ends_with info.docker_root_dir (root_suffix decimal x) ≡ true) same root,
      )

  -- The offset is given, and is 0, where the box was never remapped, or where every source names
  -- it; otherwise the check fails.
  pub remap_offset_iff :
      (h : Host) (n : ℕ)
      → (remap_offset decimal h ≡ ok n) ↔ (((n ≡ 0) × NeverRemapped h) ⊎ AllAgree h n)
  remap_offset_iff h n = (
    (λ e.
        let (recorded, configured, info, r, c, i, k) = inverted decimal h n e in
        to_agree h n recorded configured info r c i k),
    from_agree,
  )
    where
      from_agree : ((n ≡ 0) × NeverRemapped h) ⊎ AllAgree h n → remap_offset decimal h ≡ ok n
      from_agree (inl (z, never_)) = never h never_ ∙ ap (λ x. ok x) (sym z)
      from_agree (inr all) = agreed h n all
