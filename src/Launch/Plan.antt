-- ===== src/Launch/Plan.antt =====
-- internal/cli/launch.go and local.go: what runLaunchCmd decides before anything is provisioned. It ends
-- where the session is made. The forms are answered by the operator, and the tools on this machine,
-- the configuration file and the pack are what the machine has.
use interview_labs.Prelude.{
  Text, codes, Bool, true, false, ◌&&◌, ◌||◌, not, Option, none, some, List, [], ◌∷◌, ◌++◌,
  if◌then◌else◌, is_empty, text_eq, one_of, ends_with, find_first,
}
use interview_labs.Prelude.Outcome.{Outcome, ok, err, ◌>>=◌, require, expect}
use interview_labs.Pack.{Pack, Bundle, bundle_by_name}
use interview_labs.Version.{Build}
use interview_labs.Images.{ResolvedImages, ImageFlags, resolve_images, validate}
use interview_labs.Providers.{
  Provider, SelectError, select_vm_provider, active_ai, active_access, local_by_name, is_vm,
  is_some,
}
use interview_labs.Session.Metadata.{TerraformInfo, role_of}
use interview_labs.Session.Store.{Store, Session, list}

-- launchFlags
pub record Flags : Type 0 where
  pub provider : Text
  pub region : Text
  pub size : Text
  pub profile : Text
  pub images : ImageFlags
  pub pack_ref : Text
  pub bundle : Text
  pub yes : Bool
  pub no_ai : Bool
  pub no_dns : Bool

-- What the forms return, with none for a form that is left or fails.
pub record Answers : Type 0 where
  pub is_tty : Bool
  pub provider : Option Text
  pub profile : Option Text
  pub bundle : Option Text
  pub region_size : Option (Text × Text)
  pub confirm : Option Bool

pub record Machine : Type 0 where
  pub configured : Text → Bool
  pub saved_profile : Text
  pub can_write : Bool
  pub resolve_pack : Text → Option Pack
  pub terraform : Option TerraformInfo
  pub build : Build
  pub store : Store
  pub has_kind_bins : Bool

pub data PlanError : Type 0 where
  exclusive_flags no_pack no_bundle left unknown_profile unwritten : PlanError
  not_selected : SelectError → PlanError
  bad_images no_terraform no_region_or_size : PlanError
  local_exists no_kind_bins : PlanError

abbrev pub stack_profiles : List Text
stack_profiles = codes "backend" ∷ codes "devops" ∷ codes "backend-ai" ∷ codes "devops-ai" ∷ []

abbrev pub is_ai_profile : Text → Bool
is_ai_profile p = ends_with p (codes "-ai")

-- What runs in the cloud, and what runs on this machine.
pub record Plan : Type 0 where
  pub host : Provider
  pub profile : Text
  pub bundle : Option Bundle
  pub ai : Option Provider

pub record CloudPlan : Type 0 where
  pub plan : Plan
  pub access : Option Provider
  pub images : ResolvedImages
  pub terraform : TerraformInfo
  pub region : Text
  pub size : Text

pub data Decision : Type 0 where
  cancelled : Decision
  provision : CloudPlan → Decision
  run_local : Plan → Decision

-- isLocalSession
abbrev pub is_local : Session → Bool
is_local s = is_some (local_by_name (role_of s.meta (codes "vm")))

module _ (w : Machine) (a : Answers) (f : Flags) where
  unfoldable pub ensure_bundle : Outcome PlanError (Option Bundle)
  ensure_bundle = do
    _ ← require (is_empty f.bundle || is_empty f.profile) PlanError.exclusive_flags
    p ← expect (w.resolve_pack f.pack_ref) PlanError.no_pack
    name ← (if is_empty f.bundle && a.is_tty then expect a.bundle PlanError.left else ok f.bundle)
    if is_empty name
        then ok none
        else do b ← expect (bundle_by_name p name) PlanError.no_bundle; ok (some b)

  -- The pick's name is kept in the configuration file.
  unfoldable pub remember : Outcome SelectError Provider → Outcome PlanError Provider
  remember (err e) = err (PlanError.not_selected e)
  remember (ok p) = if w.can_write then ok p else err PlanError.unwritten

  unfoldable pub choose_profile : Outcome PlanError Text
  choose_profile =
      if not (is_empty f.profile)
      then (if one_of stack_profiles f.profile then ok f.profile else err PlanError.unknown_profile)
      else if not a.is_tty
      then ok (codes "devops")
      else expect a.profile PlanError.left

  unfoldable pub ensure_profile : Outcome PlanError Text
  unfolding choose_profile
  ensure_profile = do
    p ← choose_profile
    if text_eq p w.saved_profile || w.can_write then ok p else err PlanError.unwritten

  unfoldable pub bundle_profile : Bundle → Text
  bundle_profile b =
      if is_some (active_ai w.configured f.no_ai) then b.image ++ codes "-ai" else b.image

  unfoldable pub profile_for : Option Bundle → Outcome PlanError Text
  unfolding ensure_profile bundle_profile
  profile_for none = ensure_profile
  profile_for (some b) = ok (bundle_profile b)

  -- activeAI as both launches call it.
  unfoldable pub key_source : Text → Option Provider
  key_source profile = active_ai w.configured (f.no_ai || not (is_ai_profile profile))

  unfoldable pub ensure_region_size : Outcome PlanError (Text × Text)
  ensure_region_size =
      if not (is_empty f.region) && not (is_empty f.size)
      then ok (f.region, f.size)
      else if not a.is_tty
      then err PlanError.no_region_or_size
      else do
        picks ← expect a.region_size PlanError.left
        if w.can_write then ok picks else err PlanError.unwritten

  -- confirmGate: whether the launch goes on.
  unfoldable pub confirm_gate : Outcome PlanError Bool
  confirm_gate = if not a.is_tty || f.yes then ok true else expect a.confirm PlanError.left

  unfoldable pub plan_cloud : Plan → Outcome PlanError Decision
  unfolding ensure_region_size confirm_gate
  plan_cloud p = do
    let images = resolve_images w.build f.images p.profile
    _ ← require (validate images) PlanError.bad_images
    terraform ← expect w.terraform PlanError.no_terraform
    picks ← ensure_region_size
    goes_on ← confirm_gate
    if goes_on
        then ok (
            Decision.provision (record {
              plan = p;
              access = active_access w.configured f.no_dns;
              images = images;
              terraform = terraform;
              region = picks.0;
              size = picks.1;
            }))
        else ok Decision.cancelled

  abbrev pub wants_kind : Option Bundle → Bool
  wants_kind none = false
  wants_kind (some b) = b.has_kind

  unfoldable pub plan_local : Plan → Outcome PlanError Decision
  plan_local p = do
    _ ← require (not (is_some (find_first is_local (list w.store)))) PlanError.local_exists
    _ ← require (not (wants_kind p.bundle) || w.has_kind_bins) PlanError.no_kind_bins
    ok (Decision.run_local p)

  unfoldable pub run_launch_cmd : Outcome PlanError Decision
  unfolding ensure_bundle remember profile_for key_source plan_cloud plan_local
  run_launch_cmd = do
    bundle ← ensure_bundle
    host ← remember (select_vm_provider w.configured f.provider a.is_tty a.provider)
    profile ← profile_for bundle
    let plan : Plan = record {
      host = host;
      profile = profile;
      bundle = bundle;
      ai = key_source profile;
    }
    if is_vm host then plan_cloud plan else plan_local plan
