-- ===== src/Pack/Inside.antt =====
-- A pack that is read from a directory, by a path that is no link, has no link out of it.
use interview_labs.Prelude.{
  Text, codes, Bool, true, false, ◌||◌, not, Option, none, some, List, [], ◌∷◌, ◌++◌, if◌then◌else◌,
  text_eq, has_prefix, is_empty, ◌≡◌, ◌⊎◌, inl, inr, refl, arith, Bool-cases, text_eq_iff, All,
}
use interview_labs.Prelude.Outcome.{Outcome, ok, err, expect, >>=-ok, expect-ok, require-ok}
use interview_labs.Pack.{Pack}
use interview_labs.Pack.Load.{FileSystem, Schemas, LoadError, load}
use interview_labs.Pack.Source.{
  Walked, Kind, Machine, walk, walk_kind, SourceError, is_inside, check_link, check_entry,
  check_entries, reject_escaping_symlinks, or_not_loaded, load_directory, load_embedded, resolve,
}

-- A path is the root, or has the root's names before its own.
abbrev pub IsBelow : Text → Text → Type 0
IsBelow root p = (p ≡ root) ⊎ ((rest : Text) × (p ≡ (root ++ codes "/") ++ rest))

has_prefix-cut : (s p : Text) → has_prefix s p ≡ true → (r : Text) × (s ≡ p ++ r)
unfolding has_prefix
has_prefix-cut s [] h = (s, refl)
has_prefix-cut [] (c ∷ p) h = ground arith
has_prefix-cut (d ∷ s) (c ∷ p) h =
    let (r, e) = has_prefix-cut s p (ground (arith, h)) in (r, ground (arith, h, e))

module _ (w : Machine) where
  is_inside-IsBelow : (root p : Text) → is_inside w root p ≡ true → IsBelow root p
  is_inside-IsBelow root p h = elim (Bool-cases (text_eq p root)) [
    | inl e ↦ inl ((text_eq_iff p root).0 e)
    | inr e ↦ inr (has_prefix-cut p (root ++ codes "/") (ground (arith, e, h)))
  ]

  -- The entry was read, and it is no link or one that leads to the root or below it.
  abbrev pub StaysInside : Text → Walked → Type 0
  StaysInside root e =
      (e.readable ≡ true)
      × ((e.is_link ≡ false) ⊎ ((p : Text) × (w.eval_symlinks e.path ≡ some p) × IsBelow root p))

  check_link-IsBelow :
      (root : Text) (e : Walked) (o : Option Text) (u : Unit)
      → check_link w root e o ≡ ok u
      → (p : Text) × (o ≡ some p) × IsBelow root p
  check_link-IsBelow root e none u h = ground arith
  check_link-IsBelow root e (some p) u h = (p, refl, is_inside-IsBelow root p (require-ok _ _ u h))

  entry_cases :
      (readable is_link : Bool) (e : SourceError) (rest : Outcome SourceError (Unit {0})) (u : Unit)
      → (if not readable then err e else if not is_link then ok tt else rest) ≡ ok u
      → (readable ≡ true) × ((is_link ≡ false) ⊎ (rest ≡ ok u))
  entry_cases readable is_link e rest u h = ground arith

  check_entry-StaysInside :
      (root : Text) (e : Walked) (u : Unit) → check_entry w root e ≡ ok u → StaysInside root e
  check_entry-StaysInside root e u h =
      let (a, b) = entry_cases e.readable e.is_link _ _ u h in
      (a, elim b [ inl q ↦ inl q | inr q ↦ inr (check_link-IsBelow root e _ u q) ])

  check_entries-StaysInside :
      (root : Text) (es : List Walked) (u : Unit)
      → check_entries w root es ≡ ok u
      → All (StaysInside root) es
  unfolding check_entries
  check_entries-StaysInside root [] u h = tt
  check_entries-StaysInside root (e ∷ es) u h =
      let (v, a, b) = >>=-ok (check_entry w root e) (λ _. check_entries w root es) u h in
      (check_entry-StaysInside root e v a, check_entries-StaysInside root es u b)

  module _ {Doc : Type 0} (schemas : Schemas Doc) where
    -- A pack of a directory: Load accepts what lies below its absolute path; unless that path is itself
    -- a link, every entry below it was read and no link leads out of it.
    abbrev pub IsDirectory : Text → Pack → Type 0
    IsDirectory ref p =
        (dir root : Text) × (w.abs ref ≡ some dir)
        × (w.eval_symlinks dir ≡ some root)
        × ((w.lstat dir ≡ some Kind.link)
            ⊎ ((w.lstat dir ≡ some Kind.other_file)
                ⊎ ((w.lstat dir ≡ some Kind.directory) × All (StaysInside root) (w.below dir))))
        × (load (w.dir_fs dir) schemas ≡ ok p)

    abbrev pub IsEmbedded : Text → Pack → Type 0
    IsEmbedded name p = (fs : FileSystem) × (w.embedded name ≡ some fs) × (load fs schemas ≡ ok p)

    entries_below :
        (root dir : Text) (k : Option Kind)
        → w.lstat dir ≡ k
        → All (StaysInside root) (walk_kind w dir k)
        → (w.lstat dir ≡ some Kind.link)
          ⊎ ((w.lstat dir ≡ some Kind.other_file)
              ⊎ ((w.lstat dir ≡ some Kind.directory) × All (StaysInside root) (w.below dir)))
    entries_below root dir none e (h, t) = ground (arith, h.0)
    entries_below root dir (some Kind.link) e h = inl e
    entries_below root dir (some Kind.other_file) e h = inr (inl e)
    entries_below root dir (some Kind.directory) e (h, t) = inr (inr (e, t))

    or_not_loaded-ok : (o : Outcome LoadError Pack) (p : Pack) → or_not_loaded w o ≡ ok p → o ≡ ok p
    or_not_loaded-ok (ok q) p h = ground arith
    or_not_loaded-ok (err e) p h = ground arith

    load_directory-IsDirectory :
        (ref : Text) (p : Pack) → load_directory w schemas ref ≡ ok p → IsDirectory ref p
    unfolding load_directory reject_escaping_symlinks
    load_directory-IsDirectory ref p h =
        let (dir, ed, h1) = >>=-ok (expect (w.abs ref) SourceError.no_directory) _ p h in
        let (u, eu, h2) = >>=-ok (reject_escaping_symlinks w dir) _ p h1 in
        let (root, er, h3) =
          >>=-ok (expect (w.eval_symlinks dir) SourceError.no_directory) _ u eu in
        (
          dir,
          root,
          expect-ok _ _ dir ed,
          expect-ok _ _ root er,
          entries_below root dir (w.lstat dir) refl
              (check_entries-StaysInside root (walk w dir) u h3),
          or_not_loaded-ok (load (w.dir_fs dir) schemas) p h2,
        )

    load_embedded-IsEmbedded :
        (name : Text) (p : Pack) → load_embedded w schemas name ≡ ok p → IsEmbedded name p
    unfolding load_embedded
    load_embedded-IsEmbedded name p h =
        let (fs, e, h1) = >>=-ok (expect (w.embedded name) SourceError.no_embedded) _ p h in
        (fs, expect-ok _ _ fs e, or_not_loaded-ok (load fs schemas) p h1)

    -- A pack that is resolved is the embedded default pack, and the reference is empty or that name, or
    -- it is the embedded template by its name, or the reference is no such name and the pack was read
    -- from the path that it leads to. If that path is a directory, and not itself a symbolic link, every
    -- entry that Walk comes upon below it can be read, and every symbolic link among them leads to the
    -- root or below it. In each case the pack is what Load makes of the file system.
    pub resolve-IsInside :
        (ref : Text) (p : Pack)
        → resolve w schemas ref ≡ ok p
        → ((is_empty ref || text_eq ref (codes "default")) ≡ true) × IsEmbedded (codes "default") p
          ⊎ ((ref ≡ codes "template") × IsEmbedded (codes "template") p
              ⊎ ((is_empty ref || text_eq ref (codes "default")) ≡ false)
                × (text_eq ref (codes "template") ≡ false)
                × IsDirectory ref p)
    unfolding resolve
    resolve-IsInside ref p h = elim (Bool-cases (is_empty ref || text_eq ref (codes "default"))) [
      | inl e ↦ inl (e, load_embedded-IsEmbedded _ p (rw (e, if◌then◌else◌) at h))
      | inr e ↦ elim (Bool-cases (text_eq ref (codes "template"))) [
        | inl q ↦ inr (
            inl (
              (text_eq_iff ref (codes "template")).0 q,
              load_embedded-IsEmbedded _ p (rw (e, if◌then◌else◌, q) at h),
            ))
        | inr q ↦ inr (inr (e, q, load_directory-IsDirectory ref p (rw (e, if◌then◌else◌, q) at h)))
      ]
    ]
