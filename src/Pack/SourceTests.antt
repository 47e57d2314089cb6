-- ===== src/Pack/SourceTests.antt =====
-- A directory with a link that stays inside it, and one with a link that does not.
use interview_labs.Prelude.{
  Text, codes, true, false, none, some, [], ◌∷◌, if◌then◌else◌, text_eq, has_prefix, one_of, ◌||◌,
  is_empty, ◌≡◌, ◌⊎◌, refl,
}
use interview_labs.Prelude.Outcome.{ok, err}
use interview_labs.Pack.Names.{is_dir_name, matches_from}
use interview_labs.Pack.Load.{
  load, load_bundles, load_bundle, load_scenarios, load_scenario, load_manifest, load_dir,
  load_each, validate_kind_pairing,
}
use interview_labs.Pack.Source.{
  Kind, Machine, SourceError, check_entries, reject_escaping_symlinks, load_directory, resolve,
}
use interview_labs.Pack.Inside.{IsEmbedded, IsDirectory, resolve-IsInside}
use interview_labs.Pack.Tests.{tree, schemas, pack}

-- The link leads to the given path.
abbrev at : Kind → Text → Machine
at kind target = record {
  abs = λ p. some p;
  eval_symlinks = λ p. some (if text_eq p (codes "/p/link") then target else p);
  lstat = λ p. some kind;
  below = λ p. record { path = codes "/p/link"; readable = true; is_link = true } ∷ [];
  dir_fs = λ p. tree;
  embedded = λ name. none;
}

abbrev machine : Text → Machine
machine target = at Kind.directory target

inside : resolve (machine (codes "/p/x")) schemas (codes "/p") ≡ ok pack
unfolding resolve load_directory reject_escaping_symlinks check_entries has_prefix load load_bundles
    load_bundle load_scenarios load_scenario load_manifest load_dir load_each validate_kind_pairing
    is_dir_name matches_from text_eq one_of
inside = refl

outside :
    resolve (machine (codes "/pack/x")) schemas (codes "/p")
    ≡ err (SourceError.escapes (codes "/p/link"))
unfolding resolve load_directory reject_escaping_symlinks check_entries has_prefix text_eq
outside = refl

-- A link to the directory is loaded with its link to the outside.
linked_outside : resolve (at Kind.link (codes "/pack/x")) schemas (codes "/p") ≡ ok pack
unfolding resolve load_directory reject_escaping_symlinks check_entries has_prefix load load_bundles
    load_bundle load_scenarios load_scenario load_manifest load_dir load_each validate_kind_pairing
    is_dir_name matches_from text_eq one_of
linked_outside = refl

resolve-IsInside_example :
    ((is_empty (codes "/p") || text_eq (codes "/p") (codes "default")) ≡ true)
      × IsEmbedded (machine (codes "/p/x")) schemas (codes "default") pack
    ⊎ ((codes "/p" ≡ codes "template")
          × IsEmbedded (machine (codes "/p/x")) schemas (codes "template") pack
        ⊎ ((is_empty (codes "/p") || text_eq (codes "/p") (codes "default")) ≡ false)
          × (text_eq (codes "/p") (codes "template") ≡ false)
          × IsDirectory (machine (codes "/p/x")) schemas (codes "/p") pack)
resolve-IsInside_example =
    resolve-IsInside (machine (codes "/p/x")) schemas (codes "/p") pack inside
