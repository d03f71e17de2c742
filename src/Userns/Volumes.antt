-- ===== src/Userns/Volumes.antt =====
-- src/boxmunge/userns/volumes.py, `move`: a volume's data moved between the two daemon roots.
use boxmunge.Prelude.{
  String, ◌≡◌, refl, ap, ◌∙◌, subst, Bool, true, false, List, [], ◌∷◌, arith, if◌then◌else◌,
}

-- What stands at a volume's _data under one root; a directory has names in it.
pub data Entry : Type 0 where
  absent : Entry
  other : Entry
  directory : List String → Entry

pub record Volume : Type 0 where
  pub src : Entry
  pub dst : Entry
  pub dst_parent : Bool  -- a directory for the volume on the target

pub data VolumeError : Type 0 where
  lost refuse_source not_created occupied : VolumeError

pub data Moved : Type 0 where
  ok : Volume → Moved
  err : VolumeError → Moved

abbrev pub is_dir : Entry → Bool
is_dir (directory _) = true
is_dir _ = false

-- os.rename, once the target is seen to be free
abbrev rename_over : Volume → Entry → Moved
rename_over v (directory []) = ok (record v { src = absent; dst = v.src })
rename_over v absent =
    if v.dst_parent then ok (record v { src = absent; dst = v.src }) else err not_created
rename_over v _ = err occupied

abbrev move_from : Volume → Entry → Moved
move_from v absent = if is_dir v.dst then ok v else err lost
move_from v other = err refuse_source
move_from v (directory names) = rename_over v v.dst

unfoldable pub move : Volume → Moved
move v = move_from v v.src

-- The data that the volume holds: the source's, as long as it has any.
abbrev pub data_of : Volume → Entry
data_of v = elim v.src [ absent ↦ v.dst | e ↦ e ]

ok_inj : {v w : Volume} → ok v ≡ ok w → v ≡ w
ok_inj h = cc

took :
    (v w : Volume)
    → is_dir v.src ≡ true
    → ok (record v { src = absent; dst = v.src }) ≡ ok w
    → (w.src ≡ absent) × (is_dir w.dst ≡ true) × (w.dst ≡ v.src)
took v w s h =
    subst (λ (x : Volume). (x.src ≡ absent) × (is_dir x.dst ≡ true) × (x.dst ≡ v.src)) (ok_inj h)
      (refl, s, refl)

created :
    (v w : Volume) (parent : Bool)
    → is_dir v.src ≡ true
    → (if parent then ok (record v { src = absent; dst = v.src }) else err not_created) ≡ ok w
    → (w.src ≡ absent) × (is_dir w.dst ≡ true) × (w.dst ≡ v.src)
created v w true s h = took v w s h
created v w false s h = cc

renamed :
    (v w : Volume) (e : Entry)
    → is_dir v.src ≡ true
    → rename_over v e ≡ ok w
    → (w.src ≡ absent) × (is_dir w.dst ≡ true) × (w.dst ≡ v.src)
renamed v w absent s h = created v w v.dst_parent s h
renamed v w other s h = ground (arith)
renamed v w (directory []) s h = took v w s h
renamed v w (directory (n ∷ ns)) s h = ground (arith)

moved_from :
    (v w : Volume) (e : Entry)
    → v.src ≡ e
    → move_from v e ≡ ok w
    → (w.src ≡ absent) × (is_dir w.dst ≡ true) × (w.dst ≡ (elim e [ absent ↦ v.dst | x ↦ x ]))
moved_from v w absent s h = ground (arith)
moved_from v w other s h = cc
moved_from v w (directory names) s h =
    let (gone, there_, same) = renamed v w v.dst (ap is_dir s) h in (gone, there_, same ∙ s)

-- A move that succeeds leaves nothing at the source and a directory on the target, which is what
-- the volume held before: the source's data, or what an earlier move has brought over. Moving
-- again then succeeds and changes nothing, so that a run stopped after the rename can be resumed.
pub move-data :
    (v w : Volume)
    → move v ≡ ok w
    → (w.src ≡ absent) × (is_dir w.dst ≡ true) × (w.dst ≡ data_of v) × (move w ≡ ok w)
unfolding move
move-data v w h =
    let (gone, there_, same) = moved_from v w v.src refl h in
    (gone, there_, same, rw (gone, there_))

-- Over a target that holds something already, a move is refused: what is there is never replaced.
move-occupied :
    (v : Volume) (names : List String) (n : String) (ns : List String)
    → v.src ≡ directory names
    → v.dst ≡ directory (n ∷ ns)
    → move v ≡ err occupied
unfolding move
move-occupied v names n ns s d = rw (s, d)
