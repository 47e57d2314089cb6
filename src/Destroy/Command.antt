-- ===== src/Destroy/Command.antt =====
-- internal/cli/destroy.go, runDestroyCmd: which session is destroyed, the consent, the lock, and the
-- runner of terraform. The forms are answered by the operator; the lock, the configuration file, the
-- programs and the environment are what the machine has.
use interview_labs.Prelude.{
  Text, codes, Bool, not, Option, none, some, List, [], ◌∷◌, if◌then◌else◌, is_empty,
}
use interview_labs.Prelude.Assoc.{Assoc, lookup}
use interview_labs.Prelude.Outcome.{Outcome, ok, err, ◌>>=◌, require, expect}
use interview_labs.Providers.{vm_by_name, access_by_name, is_some}
use interview_labs.Session.Metadata.{Metadata, role_of}
use interview_labs.Session.Store.{Store, Session, SessionDir, MetadataFile}
use interview_labs.Session.Resolve.{ResolveError, resolve_session}
use interview_labs.Terraform.{Binary, Programs, FindError, find_named, find, run_env, merge_creds}
use interview_labs.Config.{Config}
use interview_labs.Credentials.{named_creds}
use interview_labs.Root.{CmdError}
use interview_labs.Launch.Plan.{is_local}
use interview_labs.Pipeline.{World, State, Result}
use interview_labs.Destroy.{run_destroy, run_local_destroy}

-- `elsewhere` is the session at a path that is no name, `locks` says whether Lock succeeds, `env` is the environment variable
-- of a name, empty where it is unset, and `config` the configuration file if it can be read.
pub record Desk : Type 0 where
  pub store : Store
  pub elsewhere : Text → Option Session
  pub is_tty : Bool
  pub pick : Option Text
  pub confirm : Session → Outcome CmdError Bool
  pub locks : Session → Bool
  pub config : Option Config
  pub programs : Programs
  pub env : Text → Text
  pub plugin_cache : Option Text
  pub environ : List Text

pub record Runner : Type 0 where
  pub bin : Binary
  pub env : List Text

-- Why a session is not destroyed before the pipeline begins.
pub data Refusal : Type 0 where
  unresolved : ResolveError → Refusal
  needs_yes declined busy no_config no_plugin_cache : Refusal
  form_failed : CmdError → Refusal
  no_binary : FindError → Refusal
  unknown_vm unknown_access : Text → Refusal

module _ {E F : Type 0} where
  abbrev pub map_err : {A : Type 0} → (E → F) → Outcome E A → Outcome F A
  map_err f (ok a) = ok a
  map_err f (err e) = err (f e)

abbrev answered : Outcome CmdError Bool → Outcome Refusal (Unit {0})
answered (err e) = err (Refusal.form_failed e)
answered (ok ok?) = require ok? Refusal.declined

module _ (d : Desk) where
  unfoldable pub confirm_destroy_gate : Session → Bool → Outcome Refusal (Unit {0})
  confirm_destroy_gate s skip =
      if skip then ok tt else if not d.is_tty then err Refusal.needs_yes else answered (d.confirm s)

  -- The program that applied the session, or else another one.
  abbrev pub runner_binary : Session → Outcome FindError Binary
  runner_binary s = elim (find_named d.programs s.meta.terraform.binary) [
    | ok b ↦ ok b
    | err e ↦ find d.programs
  ]

  abbrev pub vm_role : Session → Text
  vm_role s = role_of s.meta (codes "vm")

  abbrev pub access_role : Session → Text
  access_role s = role_of s.meta (codes "access")

  abbrev pub with_access : Config → Session → Outcome Refusal (Assoc Text)
  with_access c s =
      if is_empty (access_role s)
      then ok (named_creds d.env c (vm_role s))
      else if is_some (access_by_name (access_role s))
      then ok (
          merge_creds (named_creds d.env c (vm_role s) ∷ named_creds d.env c (access_role s) ∷ [])
            [])
      else err (Refusal.unknown_access (access_role s))

  unfoldable pub destroy_runner : Config → Session → Outcome Refusal Runner
  destroy_runner c s = do
    bin ← map_err Refusal.no_binary (runner_binary s)
    _ ← require (is_some (vm_by_name (vm_role s))) (Refusal.unknown_vm (vm_role s))
    creds ← with_access c s
    cache ← expect d.plugin_cache Refusal.no_plugin_cache
    ok (record { bin = bin; env = run_env creds cache d.environ })

  -- A session on this machine needs no runner.
  unfoldable pub runner_for : Config → Session → Outcome Refusal (Option Runner)
  unfolding destroy_runner
  runner_for c s = if is_local s then ok none else destroy_runner c s >>= λ r. ok (some r)

  -- runDestroyCmd, up to the pipelines.
  unfoldable pub destroy_plan : Text → Bool → Outcome Refusal (Session × Option Runner)
  unfolding confirm_destroy_gate runner_for
  destroy_plan ref skip = do
    s ← map_err Refusal.unresolved (resolve_session d.elsewhere d.store ref d.is_tty d.pick)
    _ ← confirm_destroy_gate s skip
    _ ← require (d.locks s) Refusal.busy
    c ← expect d.config Refusal.no_config
    r ← runner_for c s
    ok (s, r)

abbrev on_disk : Metadata → Option SessionDir → Metadata
on_disk m none = m
on_disk m (some d) = elim d.file [
  | MetadataFile.absent ↦ m
  | MetadataFile.broken ↦ m
  | MetadataFile.holds saved ↦ saved
]

-- The session as it was read, with no operation done.
abbrev pub opened : Store → Session → State
opened st s = record {
  meta = s.meta;
  saved = on_disk s.meta (lookup s.dir st.sessions);
  trace = [];
}

pub data Destroyed : Type 0 where
  refused : Refusal → Destroyed
  ran : Session → Option Runner → Result (Unit {0}) → State → Destroyed

abbrev pub tear : World → Option Runner → State → Result (Unit {0}) × State
tear w none = run_local_destroy w
tear w (some r) = run_destroy w

-- The world depends on the program that runs and on its environment.
abbrev pub torn_down :
    Store → (Option Runner → World) → Outcome Refusal (Session × Option Runner) → Destroyed
torn_down st w (err e) = Destroyed.refused e
torn_down st w (ok (s, r)) =
    let (res, end) = tear (w r) r (opened st s) in Destroyed.ran s r res end

unfoldable pub run_destroy_cmd : Desk → (Option Runner → World) → Text → Bool → Destroyed
run_destroy_cmd d w ref skip = torn_down d.store w (destroy_plan d ref skip)
