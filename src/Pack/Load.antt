-- ===== src/Pack/Load.antt =====
-- internal/pack/load.go and validate.go: Load, which reads a pack from a file system and checks it.
-- The file system, and what the packages yaml and jsonschema make of a manifest, are parameters. The
-- patterns that Glob is given here are well-formed, so it does not fail.
use interview_labs.Prelude.{
  ℕ, Text, codes, Bool, true, false, ◌&&◌, Option, none, some, List, [], ◌∷◌, ◌++◌, if◌then◌else◌,
  not,
}
use interview_labs.Prelude.Outcome.{Outcome, ok, err, ◌>>=◌, require, expect}
use interview_labs.Pack.{Pack, Bundle, Scenario}
use interview_labs.Pack.Names.{is_dir_name}

pub record DirEntry : Type 0 where
  pub name : Text
  pub is_dir : Bool

-- fs.FS: `stat` says whether the path is a directory, if there is something.
pub record FileSystem : Type 0 where
  pub read_file : Text → Option Text
  pub read_dir : Text → Option (List DirEntry)
  pub stat : Text → Option Bool
  pub glob : Text → List Text

pub record PackManifest : Type 0 where
  pub contract : ℕ
  pub name : Text
  pub version : Text
  pub description : Text

pub record BundleManifest : Type 0 where
  pub description : Text
  pub image : Text

pub record ScenarioManifest : Type 0 where
  pub name : Text
  pub description : Text

-- What stands between the bytes of a manifest and its fields: the conversion to JSON, the decoded
-- document, the schema's verdict, the fields.
pub record Format (Doc M : Type 0) : Type 0 where
  pub yaml_to_json : Text → Option Text
  pub unmarshal_json : Text → Option Doc
  pub validates : Doc → Bool
  pub unmarshal : Text → Option M

pub record Schemas (Doc : Type 0) : Type 0 where
  pub pack : Format Doc PackManifest
  pub bundle : Format Doc BundleManifest
  pub scenario : Format Doc ScenarioManifest

pub data LoadError : Type 0 where
  unreadable not_yaml not_json invalid not_decoded : Text → LoadError
  bad_bundle_name bad_scenario_name : Text → LoadError
  manifests_without_cluster : Text → LoadError
  bundles_unreadable no_bundles : LoadError
  scenarios_unreadable no_scenarios : Text → LoadError
  task_required : Text → Text → LoadError

abbrev pub dir_exists : FileSystem → Text → Bool
dir_exists fs p = elim (fs.stat p) [ none ↦ false | some is_dir ↦ is_dir ]

abbrev pub file_exists : FileSystem → Text → Bool
file_exists fs p = elim (fs.stat p) [ none ↦ false | some is_dir ↦ not is_dir ]

abbrev pub is_none : List Text → Bool
is_none [] = true
is_none (p ∷ ps) = false

-- path.Join of names that need no cleaning.
infixr 20 ◌//◌
abbrev pub ◌//◌ : Text → Text → Text
a // b = a ++ b'/' ∷ b

abbrev pub bundle_dir : Text → Text
bundle_dir name = codes "bundles" // name

abbrev pub scenarios_dir : Text → Text
scenarios_dir bundle = bundle_dir bundle // codes "scenarios"

abbrev pub manifests : FileSystem → Text → List Text
manifests fs dir = fs.glob (dir // codes "kind/manifests/*.yaml")

abbrev pub cons :
    {A : Type 0} → Outcome LoadError A → Outcome LoadError (List A) → Outcome LoadError (List A)
cons one rest = do a ← one; out ← rest; ok (a ∷ out)

-- The loop over the entries of a directory: what is no directory is passed over, and the first error
-- ends it.
unfoldable pub load_each :
    {A : Type 0} → (Text → Outcome LoadError A) → List DirEntry → Outcome LoadError (List A)
load_each f [] = ok []
load_each f (e ∷ es) = let rest = load_each f es in if e.is_dir then cons (f e.name) rest else rest

abbrev pub non_empty : {A : Type 0} → List A → LoadError → Outcome LoadError (List A)
non_empty [] e = err e
non_empty (a ∷ out) e = ok (a ∷ out)

-- The body that loadBundles and loadScenarios share: the directory is read, the loop runs, and what it
-- collects may not be empty.
unfoldable pub load_dir :
    {A : Type 0}
    → FileSystem
    → Text
    → LoadError
    → LoadError
    → (Text → Outcome LoadError A)
    → Outcome LoadError (List A)
load_dir fs dir no_dir empty f = do
  entries ← expect (fs.read_dir dir) no_dir
  out ← load_each f entries
  non_empty out empty

module _ {Doc : Type 0} (fs : FileSystem) (schemas : Schemas Doc) where
  unfoldable pub load_manifest : {M : Type 0} → Text → Format Doc M → Outcome LoadError M
  load_manifest p f = do
    raw ← expect (fs.read_file p) (LoadError.unreadable p)
    json ← expect (f.yaml_to_json raw) (LoadError.not_yaml p)
    doc ← expect (f.unmarshal_json json) (LoadError.not_json p)
    _ ← require (f.validates doc) (LoadError.invalid p)
    expect (f.unmarshal raw) (LoadError.not_decoded p)

  -- One round of the loop of loadScenarios.
  unfoldable pub load_scenario : Text → Text → Outcome LoadError Scenario
  load_scenario bundle name = do
    _ ← require (is_dir_name name) (LoadError.bad_scenario_name name)
    _ ←
        require (dir_exists fs (scenarios_dir bundle // name // codes "task"))
          (LoadError.task_required bundle name)
    sm ← load_manifest (scenarios_dir bundle // name // codes "scenario.yaml") schemas.scenario
    ok (record { name = name; title = sm.name; description = sm.description })

  unfoldable pub load_scenarios : Text → Outcome LoadError (List Scenario)
  load_scenarios bundle =
      load_dir fs (scenarios_dir bundle) (LoadError.scenarios_unreadable bundle)
        (LoadError.no_scenarios bundle) (load_scenario bundle)

  unfoldable pub validate_kind_pairing : Text → Bool → Outcome LoadError (Unit {0})
  validate_kind_pairing dir has_kind =
      if not (is_none (manifests fs dir)) && not has_kind
      then err (LoadError.manifests_without_cluster dir)
      else ok tt

  unfoldable pub load_bundle : Text → Outcome LoadError Bundle
  load_bundle name = do
    _ ← require (is_dir_name name) (LoadError.bad_bundle_name name)
    bm ← load_manifest (bundle_dir name // codes "bundle.yaml") schemas.bundle
    _ ←
        validate_kind_pairing (bundle_dir name)
          (file_exists fs (bundle_dir name // codes "kind/cluster.yaml"))
    scenarios ← load_scenarios name
    ok (record {
      name = name;
      description = bm.description;
      image = bm.image;
      has_lab = dir_exists fs (bundle_dir name // codes "lab");
      has_setup = file_exists fs (bundle_dir name // codes "lab/setup.sh");
      has_kind = file_exists fs (bundle_dir name // codes "kind/cluster.yaml");
      scenarios = scenarios;
    })

  unfoldable pub load_bundles : Outcome LoadError (List Bundle)
  load_bundles =
      load_dir fs (codes "bundles") LoadError.bundles_unreadable LoadError.no_bundles load_bundle

  -- Load, from the compiled schemas on.
  unfoldable pub load : Outcome LoadError Pack
  load = do
    pm ← load_manifest (codes "pack.yaml") schemas.pack
    bundles ← load_bundles
    ok (record {
      contract = pm.contract;
      name = pm.name;
      version = pm.version;
      description = pm.description;
      bundles = bundles;
    })
