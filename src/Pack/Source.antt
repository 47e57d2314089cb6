-- ===== src/Pack/Source.antt =====
-- internal/pack/source.go, and LoadDir of validate.go: a pack by its reference, embedded or in a
-- directory of this machine. The paths, what lies at them and below a directory, and where the links
-- lead are parameters. Walk does not follow links, the one that it starts at included, while the
-- file system of DirFS does.
use interview_labs.Prelude.{
  Text, codes, Bool, true, false, ◌||◌, not, Option, none, some, List, [], ◌∷◌, ◌++◌, if◌then◌else◌,
  text_eq, has_prefix, is_empty,
}
use interview_labs.Prelude.Outcome.{Outcome, ok, err, ◌>>=◌, ◌>>◌, require, expect}
use interview_labs.Pack.{Pack}
use interview_labs.Pack.Load.{FileSystem, Schemas, LoadError, load}

-- What Walk comes upon: an entry that cannot be read, or one that may be a symbolic link.
pub record Walked : Type 0 where
  pub path : Text
  pub readable : Bool
  pub is_link : Bool

pub data Kind : Type 0 where
  directory link other_file : Kind

-- filepath.Abs and EvalSymlinks, os.Lstat, the entries that Walk comes upon below a directory,
-- os.DirFS, and fs.Sub of the embedded packs.
pub record Machine : Type 0 where
  pub abs : Text → Option Text
  pub eval_symlinks : Text → Option Text
  pub lstat : Text → Option Kind
  pub below : Text → List Walked
  pub dir_fs : Text → FileSystem
  pub embedded : Text → Option FileSystem

pub data SourceError : Type 0 where
  no_directory no_embedded : SourceError
  not_walked bad_link escapes : Text → SourceError
  not_loaded : LoadError → SourceError

module _ (w : Machine) where
  -- A link may lead to the root of the pack or below it.
  abbrev pub is_inside : Text → Text → Bool
  is_inside root resolved = text_eq resolved root || has_prefix resolved (root ++ codes "/")

  abbrev pub check_link : Text → Walked → Option Text → Outcome SourceError (Unit {0})
  check_link root e none = err (SourceError.bad_link e.path)
  check_link root e (some resolved) = require (is_inside root resolved) (SourceError.escapes e.path)

  abbrev pub check_entry : Text → Walked → Outcome SourceError (Unit {0})
  check_entry root e =
      if not e.readable
      then err (SourceError.not_walked e.path)
      else if not e.is_link
      then ok tt
      else check_link root e (w.eval_symlinks e.path)

  unfoldable pub check_entries : Text → List Walked → Outcome SourceError (Unit {0})
  check_entries root [] = ok tt
  check_entries root (e ∷ es) = check_entry root e >> check_entries root es

  -- filepath.Walk from a path.
  abbrev pub walk_kind : Text → Option Kind → List Walked
  walk_kind p none = record { path = p; readable = false; is_link = false } ∷ []
  walk_kind p (some Kind.link) = record { path = p; readable = true; is_link = true } ∷ []
  walk_kind p (some Kind.other_file) = record { path = p; readable = true; is_link = false } ∷ []
  walk_kind p (some Kind.directory) =
      record { path = p; readable = true; is_link = false } ∷ w.below p

  abbrev pub walk : Text → List Walked
  walk p = walk_kind p (w.lstat p)

  unfoldable pub reject_escaping_symlinks : Text → Outcome SourceError (Unit {0})
  unfolding check_entries
  reject_escaping_symlinks dir = do
    root ← expect (w.eval_symlinks dir) SourceError.no_directory
    check_entries root (walk dir)

  abbrev pub or_not_loaded : Outcome LoadError Pack → Outcome SourceError Pack
  or_not_loaded (ok p) = ok p
  or_not_loaded (err e) = err (SourceError.not_loaded e)

  module _ {Doc : Type 0} (schemas : Schemas Doc) where
    -- LoadDir
    unfoldable pub load_directory : Text → Outcome SourceError Pack
    unfolding reject_escaping_symlinks
    load_directory dir = do
      root ← expect (w.abs dir) SourceError.no_directory
      _ ← reject_escaping_symlinks root
      or_not_loaded (load (w.dir_fs root) schemas)

    unfoldable pub load_embedded : Text → Outcome SourceError Pack
    load_embedded name = do
      fs ← expect (w.embedded name) SourceError.no_embedded
      or_not_loaded (load fs schemas)

    unfoldable pub resolve : Text → Outcome SourceError Pack
    unfolding load_directory load_embedded
    resolve ref =
        if is_empty ref || text_eq ref (codes "default")
        then load_embedded (codes "default")
        else if text_eq ref (codes "template")
        then load_embedded (codes "template")
        else load_directory ref
