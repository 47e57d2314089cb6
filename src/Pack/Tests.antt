-- ===== src/Pack/Tests.antt =====
-- A small pack, loaded.
use interview_labs.Prelude.{
  Text, codes, true, false, Option, none, some, List, [], ◌∷◌, ◌≡◌, ◌↔◌, refl, text_eq, one_of,
  if◌then◌else◌,
}
use interview_labs.Prelude.Outcome.{ok, err}
use interview_labs.Pack.{Pack, Scenario}
use interview_labs.Pack.Names.{is_dir_name, matches_from}
use interview_labs.Pack.Each.{Returns}
use interview_labs.Pack.Load.{
  DirEntry, FileSystem, Schemas, Format, load, load_bundles, load_bundle, load_scenarios,
  load_scenario, load_manifest, load_dir, load_each, validate_kind_pairing, LoadError,
}
use interview_labs.Pack.Loaded.{IsPack, load-IsPack, IsLoadable, load_iff}

abbrev dir : Text → DirEntry
dir name = record { name = name; is_dir = true }

abbrev entries : Text → Option (List DirEntry)
entries p =
    if text_eq p (codes "bundles")
    then some (record { name = codes "README.md"; is_dir = false } ∷ dir (codes "devops") ∷ [])
    else if text_eq p (codes "bundles/devops/scenarios")
    then some (dir (codes "fix-tests") ∷ dir (codes "k8s") ∷ [])
    else none

abbrev directories : List Text
directories =
    codes "bundles/devops/scenarios/fix-tests/task"
    ∷ codes "bundles/devops/scenarios/k8s/task"
    ∷ codes "bundles/devops/lab"
    ∷ []

abbrev pub tree : FileSystem
tree = record {
  read_file = λ p. some p;
  read_dir = entries;
  stat = λ p. if one_of directories p then some true else none;
  glob = λ p. [];
}

-- A format that makes the same of every manifest.
abbrev constant : {M : Type 0} → M → Format Unit M
constant m = record {
  yaml_to_json = λ raw. some raw;
  unmarshal_json = λ json. some tt;
  validates = λ doc. true;
  unmarshal = λ raw. some m;
}

abbrev pub schemas : Schemas Unit
schemas = record {
  pack =
      constant (record { contract = 1; name = codes "p"; version = codes "1"; description = [] });
  bundle = constant (record { description = []; image = codes "devops" });
  scenario = constant (record { name = codes "Fix"; description = [] });
}

abbrev scenario : Text → Scenario
scenario name = record { name = name; title = codes "Fix"; description = [] }

abbrev pub pack : Pack
pack = record {
  contract = 1;
  name = codes "p";
  version = codes "1";
  description = [];
  bundles =
      record {
        name = codes "devops";
        description = [];
        image = codes "devops";
        has_lab = true;
        has_setup = false;
        has_kind = false;
        scenarios = scenario (codes "fix-tests") ∷ scenario (codes "k8s") ∷ [];
      }
      ∷ [];
}

loads : load tree schemas ≡ ok pack
unfolding load load_bundles load_bundle load_scenarios load_scenario load_manifest load_dir
    load_each validate_kind_pairing is_dir_name matches_from text_eq one_of
loads = refl

no_cluster :
    load (record tree { glob = λ p. codes "a.yaml" ∷ [] }) schemas
    ≡ err (LoadError.manifests_without_cluster (codes "bundles/devops"))
unfolding load load_bundles load_bundle load_scenarios load_scenario load_manifest load_dir
    load_each validate_kind_pairing is_dir_name matches_from text_eq one_of
no_cluster = refl

load-IsPack_example : IsPack tree schemas pack
load-IsPack_example = load-IsPack tree schemas pack loads

load_iff_example : Returns (load tree schemas) ↔ IsLoadable tree schemas
load_iff_example = load_iff tree schemas
