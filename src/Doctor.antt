-- ===== src/Doctor.antt =====
-- internal/cli/doctor.go: the checks of the environment and what is made of them. The text of the rows is
-- not modelled; a check keeps how its row is marked, which is what its glyph shows.
pub mod Verdict
mod Tests
use interview_labs.Prelude.{
  ℕ, zero, suc, ◌+◌, ◌==◌, Text, codes, Bool, true, false, ◌&&◌, ◌||◌, not, ltb, Option, none, some,
  List, [], ◌∷◌, ◌++◌, if◌then◌else◌, text_eq, map, keep,
}
use interview_labs.Prelude.Outcome.{Outcome, ok, err}
use interview_labs.Providers.{Provider, Capability, providers}

pub data Mark : Type 0 where
  good warning failure : Mark

-- checkResult, under the name of the tool or of the provider, where a provider's row shows its label
pub record Check : Type 0 where
  pub name : Text
  pub mark : Mark
  pub problem : Bool

-- What the checks find on this machine. A tool has its version, the first match of toolVersionPattern;
-- `none` where its output has none or it fails.
pub record Tool : Type 0 where
  pub on_path : Bool
  pub version : Option (ℕ × ℕ)

pub record Host : Type 0 where
  -- the name of the program that is found
  pub terraform : Option Text
  pub ssh : Bool
  pub kind : Tool
  pub kubectl : Tool
  pub config_dir : Bool
  pub state_dir : Bool
  pub plugin_cache : Bool
  -- none for a configuration file that is not read
  pub configured : Option (Text → Bool)
  pub valid : Text → Bool

abbrev ok_row : Text → Check
ok_row name = record { name = name; mark = Mark.good; problem = false }

abbrev warn_row : Text → Check
warn_row name = record { name = name; mark = Mark.warning; problem = false }

abbrev fail_row : Text → Check
fail_row name = record { name = name; mark = Mark.failure; problem = true }

unfoldable pub check_terraform : Host → Check
check_terraform h = elim h.terraform [ none ↦ fail_row (codes "terraform") | some bin ↦ ok_row bin ]

unfoldable pub check_ssh_client : Host → Check
check_ssh_client h = if h.ssh then ok_row (codes "ssh client") else warn_row (codes "ssh client")

-- kindToolFloors
abbrev pub kind_floor : ℕ × ℕ
kind_floor = (0, 32)

abbrev pub kubectl_floor : ℕ × ℕ
kubectl_floor = (1, 35)

abbrev pub is_below : ℕ × ℕ → ℕ × ℕ → Bool
is_below (major, minor) (f0, f1) = ltb major f0 || (major == f0 && ltb minor f1)

abbrev pub check_version : Text → ℕ × ℕ → Option (ℕ × ℕ) → Check
check_version bin floor none = warn_row bin
check_version bin floor (some v) = if is_below v floor then warn_row bin else ok_row bin

unfoldable pub check_kind_tool : Text → ℕ × ℕ → Tool → Check
check_kind_tool bin floor t = if t.on_path then check_version bin floor t.version else warn_row bin

unfoldable pub check_kind_tools : Host → List Check
unfolding check_kind_tool
check_kind_tools h =
    check_kind_tool (codes "kind") kind_floor h.kind
    ∷ check_kind_tool (codes "kubectl") kubectl_floor h.kubectl
    ∷ []

-- The row stands only where a directory cannot be made.
unfoldable pub check_state_dirs : Host → List Check
check_state_dirs h =
    if h.config_dir && (h.state_dir && h.plugin_cache)
    then []
    else fail_row (codes "state dirs") ∷ []

-- The type assertion to CredentialValidator: every provider has its methods, the local one too, whose
-- credentials are the docker daemon.
abbrev pub is_validator : Provider → Bool
is_validator p = elim p.capability [
  | Capability.hosts_vm ↦ true
  | Capability.mints_key ↦ true
  | Capability.gives_access ↦ true
  | Capability.bare ↦ true
]

abbrev cred_check : (Text → Bool) → (Text → Bool) → Provider → Check
cred_check configured valid p =
    if not (configured p.name)
    then warn_row p.name
    else if valid p.name
    then ok_row p.name
    else fail_row p.name

-- The loop of credChecks.
unfoldable pub each_cred : (Text → Bool) → (Text → Bool) → List Provider → List Check × Bool
each_cred configured valid [] = ([], false)
each_cred configured valid (p ∷ ps) =
    let (checks, any_configured) = each_cred configured valid ps in
    if is_validator p
    then (cred_check configured valid p ∷ checks, configured p.name || any_configured)
    else (checks, any_configured)

abbrev pub creds_of : Option (Text → Bool) → (Text → Bool) → List Check × Bool
creds_of none valid = (fail_row (codes "credentials") ∷ [], false)
creds_of (some configured) valid = each_cred configured valid providers

unfoldable pub cred_checks : Host → List Check × Bool
unfolding each_cred
cred_checks h = creds_of h.configured h.valid

unfoldable pub count_problems : List Check → ℕ
count_problems [] = 0
count_problems (c ∷ cs) = let rest = count_problems cs in if c.problem then suc rest else rest

pub data Next : Type 0 where
  launch init nothing : Next

unfoldable pub doctor_next : ℕ → ℕ → Bool → Next
doctor_next problems cred_problems any_configured =
    if problems == 0 && any_configured
    then Next.launch
    else if ltb 0 cred_problems || not any_configured
    then Next.init
    else Next.nothing

pub data DoctorError : Type 0 where
  found_problems : DoctorError

unfoldable pub tool_checks : Host → List Check
unfolding check_terraform check_ssh_client check_kind_tools check_state_dirs
tool_checks h = check_terraform h ∷ check_ssh_client h ∷ (check_kind_tools h ++ check_state_dirs h)

-- The NEXT command, and the result that becomes the exit code.
unfoldable pub run_doctor : Host → Next × Outcome DoctorError (Unit {0})
unfolding tool_checks cred_checks count_problems doctor_next
run_doctor h =
    let tools = tool_checks h in
    let (creds, any_configured) = cred_checks h in
    let problems = count_problems (tools ++ creds) in
    (
      doctor_next problems (count_problems creds) any_configured,
      if ltb 0 problems then err found_problems else ok tt,
    )
