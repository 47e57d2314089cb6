-- ===== src/Pack/Loaded.antt =====
-- What a pack that Load accepts is, and which trees it accepts.
use interview_labs.Prelude.{
  Text, codes, Bool, true, false, ◌&&◌, List, [], ◌∷◌, if◌then◌else◌, not, map, All, ◌≡◌, ◌↔◌, ◌⊎◌,
  refl, sym, ap, arith, inl, inr,
}
use interview_labs.Prelude.Outcome.{ok, err, >>=-ok, ok-injective, require, require-ok}
use interview_labs.Pack.{Pack, Bundle, Scenario}
use interview_labs.Pack.Names.{is_dir_name, is_dir_name_iff, IsDashed}
use interview_labs.Pack.Each.{
  Returns, Holds, Holds-weaken, Lists, IsRead-Holds, IsRead-Lists, IsRead-All, load_dir-IsRead,
  Holds-load_dir,
}
use interview_labs.Pack.Manifest.{IsManifest, load_manifest-IsManifest, IsManifest-load_manifest}
use interview_labs.Pack.Load.{
  FileSystem, Schemas, LoadError, dir_exists, file_exists, ◌//◌, bundle_dir, scenarios_dir,
  manifests, is_none, load_manifest, load_scenario, load_scenarios, validate_kind_pairing,
  load_bundle, load_bundles, load,
}

some_without :
    (l : List Text) (k : Bool) (e : LoadError) (u : Unit)
    → (if not (is_none l) && not k then err e else ok tt) ≡ ok u
    → (l ≡ []) ⊎ (k ≡ true)
some_without [] k e u h = inl refl
some_without (m ∷ l) true e u h = inr refl
some_without (m ∷ l) false e u h = ground arith

none_or : (l : List Text) (k : Bool) → (l ≡ []) ⊎ (k ≡ true) → not (is_none l) && not k ≡ false
none_or l k h = ground arith

module _ {Doc : Type 0} (fs : FileSystem) (schemas : Schemas Doc) where
  validate_kind_pairing-ok :
      (dir : Text) (k : Bool) (u : Unit)
      → validate_kind_pairing fs schemas dir k ≡ ok u
      → (manifests fs dir ≡ []) ⊎ (k ≡ true)
  unfolding validate_kind_pairing
  validate_kind_pairing-ok dir k u h = some_without (manifests fs dir) k _ u h

  ok-validate_kind_pairing :
      (dir : Text) (k : Bool)
      → (manifests fs dir ≡ []) ⊎ (k ≡ true)
      → validate_kind_pairing fs schemas dir k ≡ ok tt
  unfolding validate_kind_pairing
  ok-validate_kind_pairing dir k h = rw (none_or (manifests fs dir) k h) refl

  -- A directory that is a scenario.
  pub record IsScenarioDir (bundle name : Text) : Type 0 where
    pub named : IsDashed name
    pub has_task : dir_exists fs (scenarios_dir bundle // name // codes "task") ≡ true
    pub manifest :
        IsManifest fs (scenarios_dir bundle // name // codes "scenario.yaml") schemas.scenario

  pub record IsBundleDir (name : Text) : Type 0 where
    pub named : IsDashed name
    pub manifest : IsManifest fs (bundle_dir name // codes "bundle.yaml") schemas.bundle
    -- No manifests of a cluster without the cluster.
    pub paired :
        (manifests fs (bundle_dir name) ≡ [])
        ⊎ (file_exists fs (bundle_dir name // codes "kind/cluster.yaml") ≡ true)
    pub scenarios : Holds fs (IsScenarioDir name) (scenarios_dir name)

  pub record IsLoadable : Type 0 where
    pub manifest : IsManifest fs (codes "pack.yaml") schemas.pack
    pub bundles : Holds fs IsBundleDir (codes "bundles")

  load_scenario-IsScenarioDir :
      (bundle n : Text) (s : Scenario)
      → load_scenario fs schemas bundle n ≡ ok s
      → IsScenarioDir bundle n × (s.name ≡ n)
  unfolding load_scenario
  load_scenario-IsScenarioDir bundle n s h =
      let (u, e1, k1) = >>=-ok _ _ s h in
      let (v, e2, k2) = >>=-ok _ _ s k1 in
      let (sm, e3, k3) = >>=-ok _ _ s k2 in
      (
        record {
          named = (is_dir_name_iff n).0 (require-ok _ _ u e1);
          has_task = require-ok _ _ v e2;
          manifest = load_manifest-IsManifest fs schemas _ schemas.scenario sm e3;
        },
        ap (λ x. x.name) (sym (ok-injective _ _ k3)),
      )

  IsScenarioDir-load_scenario :
      (bundle n : Text) → IsScenarioDir bundle n → Returns (load_scenario fs schemas bundle n)
  unfolding load_scenario
  IsScenarioDir-load_scenario bundle n h =
      let (sm, e) = IsManifest-load_manifest fs schemas _ schemas.scenario h.manifest in
      (
        record { name = n; title = sm.name; description = sm.description },
        rw ((is_dir_name_iff n).1 h.named, h.has_task, e) refl,
      )

  -- A bundle as its directory describes it.
  pub record IsBundle (b : Bundle) : Type 0 where
    pub is_dir : IsBundleDir b.name
    pub lab : b.has_lab ≡ dir_exists fs (bundle_dir b.name // codes "lab")
    pub setup : b.has_setup ≡ file_exists fs (bundle_dir b.name // codes "lab/setup.sh")
    pub kind : b.has_kind ≡ file_exists fs (bundle_dir b.name // codes "kind/cluster.yaml")
    pub scenarios : Lists fs (scenarios_dir b.name) (map (λ s. s.name) b.scenarios)

  load_bundle-IsBundle :
      (n : Text) (b : Bundle) → load_bundle fs schemas n ≡ ok b → IsBundle b × (b.name ≡ n)
  unfolding load_bundle load_scenarios
  load_bundle-IsBundle n b h =
      let (u, e1, k1) = >>=-ok (require (is_dir_name n) _) _ b h in
      let (bm, e2, k2) = >>=-ok (load_manifest fs schemas _ schemas.bundle) _ b k1 in
      let (v, e3, k3) = >>=-ok (validate_kind_pairing fs schemas _ _) _ b k2 in
      let (ss, e4, k4) = >>=-ok (load_scenarios fs schemas n) _ b k3 in
      let r = load_dir-IsRead fs (scenarios_dir n) _ _ _ ss e4 in
      rw (sym (ok-injective _ _ k4)) (
        record {
          is_dir = record {
            named = (is_dir_name_iff n).0 (require-ok _ _ u e1);
            manifest = load_manifest-IsManifest fs schemas _ schemas.bundle bm e2;
            paired = validate_kind_pairing-ok (bundle_dir n) _ v e3;
            scenarios = IsRead-Holds _ (λ m s e. (load_scenario-IsScenarioDir n m s e).0) r;
          };
          lab = refl;
          setup = refl;
          kind = refl;
          scenarios = IsRead-Lists _ (λ m s e. (load_scenario-IsScenarioDir n m s e).1) r;
        },
        refl,
      )

  -- A pack as its tree describes it.
  pub record IsPack (p : Pack) : Type 0 where
    pub is_loadable : IsLoadable
    pub bundles : Lists fs (codes "bundles") (map (λ b. b.name) p.bundles)
    pub each : All IsBundle p.bundles

  -- A pack that is loaded has the bundles that its tree has, in order, each with the scenarios, the lab
  -- and the cluster that are there, under names made of dashed words; it has at least one bundle and
  -- each bundle a scenario, every scenario has its task, and no bundle has manifests of a cluster
  -- without the cluster.
  pub load-IsPack : (p : Pack) → load fs schemas ≡ ok p → IsPack p
  unfolding load load_bundles
  load-IsPack p h =
      let (pm, e1, k1) = >>=-ok (load_manifest fs schemas _ schemas.pack) _ p h in
      let (bs, e2, k2) = >>=-ok (load_bundles fs schemas) _ p k1 in
      let r = load_dir-IsRead fs (codes "bundles") _ _ _ bs e2 in
      rw (sym (ok-injective _ _ k2)) (record {
        is_loadable = record {
          manifest = load_manifest-IsManifest fs schemas _ schemas.pack pm e1;
          bundles =
              IsRead-Holds _
                (λ n b e.
                  rw (sym (load_bundle-IsBundle n b e).1) (load_bundle-IsBundle n b e).0.is_dir)
                r;
        };
        bundles = IsRead-Lists _ (λ n b e. (load_bundle-IsBundle n b e).1) r;
        each = IsRead-All _ (λ n b e. (load_bundle-IsBundle n b e).0) r;
      })

  IsBundleDir-load_bundle : (n : Text) → IsBundleDir n → Returns (load_bundle fs schemas n)
  unfolding load_bundle load_scenarios
  IsBundleDir-load_bundle n h =
      let (bm, e2) = IsManifest-load_manifest fs schemas _ schemas.bundle h.manifest in
      let (ss, e4) =
        Holds-load_dir fs (scenarios_dir n) (LoadError.scenarios_unreadable n)
          (LoadError.no_scenarios n) (load_scenario fs schemas n)
          (Holds-weaken (IsScenarioDir-load_scenario n) h.scenarios) in
      (
        record {
          name = n;
          description = bm.description;
          image = bm.image;
          has_lab = dir_exists fs (bundle_dir n // codes "lab");
          has_setup = file_exists fs (bundle_dir n // codes "lab/setup.sh");
          has_kind = file_exists fs (bundle_dir n // codes "kind/cluster.yaml");
          scenarios = ss;
        },
        rw
            (
              (is_dir_name_iff n).1 h.named,
              e2,
              ok-validate_kind_pairing (bundle_dir n) _ h.paired,
              e4,
            )
            refl,
      )

  IsLoadable-load : IsLoadable → Returns (load fs schemas)
  unfolding load load_bundles
  IsLoadable-load h =
      let (pm, e1) = IsManifest-load_manifest fs schemas _ schemas.pack h.manifest in
      let (bs, e2) =
        Holds-load_dir fs (codes "bundles") LoadError.bundles_unreadable LoadError.no_bundles
          (load_bundle fs schemas) (Holds-weaken IsBundleDir-load_bundle h.bundles) in
      (
        record {
          contract = pm.contract;
          name = pm.name;
          version = pm.version;
          description = pm.description;
          bundles = bs;
        },
        rw (e1, e2) refl,
      )

  -- A pack is loaded exactly when each of its manifests can be read, stands for a document that is
  -- valid by its schema, and is decoded, names are dashed words,
  -- there is a bundle and in each bundle a scenario, every scenario has its task, and no bundle has
  -- manifests of a cluster without the cluster.
  pub load_iff : Returns (load fs schemas) ↔ IsLoadable
  load_iff = (λ r. (load-IsPack r.0 r.1).is_loadable, IsLoadable-load)
