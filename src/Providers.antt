-- ===== src/Providers.antt =====
-- internal/provider and the registry of internal/cli (root.go, providers.go), and how launch.go picks
-- the providers of a session. Whether a provider is configured is a function of its name, which
-- stands for Configured(cfg).
pub mod Roles
pub mod Tests
use interview_labs.Prelude.{
  Text, codes, text_eq, ◌++◌, Bool, true, false, ◌&&◌, not, Option, none, some, List, [], ◌∷◌,
  if◌then◌else◌, is_empty, keep, find_first, any, map, join,
}
use interview_labs.Prelude.Assoc.{Assoc, insert}
use interview_labs.Prelude.Outcome.{Outcome, ok, err}

pub data Role : Type 0 where
  vm ai access : Role

abbrev pub role_eq : Role → Role → Bool
role_eq Role.vm Role.vm = true
role_eq Role.ai Role.ai = true
role_eq Role.access Role.access = true
role_eq _ _ = false

-- The capability interface that a provider implements; the local one implements none.
pub data Capability : Type 0 where
  hosts_vm mints_key gives_access bare : Capability

pub record Provider : Type 0 where
  pub name : Text
  pub roles : List Role
  pub capability : Capability

abbrev pub is_vm : Provider → Bool
is_vm p = elim p.capability [
  | hosts_vm ↦ true
  | mints_key ↦ false
  | gives_access ↦ false
  | bare ↦ false
]

abbrev is_ai : Provider → Bool
is_ai p = elim p.capability [
  | hosts_vm ↦ false
  | mints_key ↦ true
  | gives_access ↦ false
  | bare ↦ false
]

abbrev is_access : Provider → Bool
is_access p = elim p.capability [
  | hosts_vm ↦ false
  | mints_key ↦ false
  | gives_access ↦ true
  | bare ↦ false
]

abbrev pub is_some : {A : Type 0} → Option A → Bool
is_some none = false
is_some (some a) = true

abbrev pub providers : List Provider
providers =
    record { name = codes "digitalocean"; roles = Role.vm ∷ []; capability = Capability.hosts_vm }
    ∷ record { name = codes "hetzner"; roles = Role.vm ∷ []; capability = Capability.hosts_vm }
    ∷ record { name = codes "aws"; roles = Role.vm ∷ []; capability = Capability.hosts_vm }
    ∷ record { name = codes "local"; roles = Role.vm ∷ []; capability = Capability.bare }
    ∷ record { name = codes "openrouter"; roles = Role.ai ∷ []; capability = Capability.mints_key }
    ∷ record {
      name = codes "cloudflare";
      roles = Role.access ∷ [];
      capability = Capability.gives_access;
    }
    ∷ []

unfoldable pub by_role : List Provider → Role → List Provider
by_role all r = keep (λ p. any (λ pr. role_eq pr r) p.roles) all

unfoldable pub vm_by_name : Text → Option Provider
vm_by_name name = find_first (λ p. is_vm p && text_eq p.name name) (by_role providers Role.vm)

unfoldable pub ai_by_name : Text → Option Provider
ai_by_name name = find_first (λ p. is_ai p && text_eq p.name name) (by_role providers Role.ai)

unfoldable pub access_by_name : Text → Option Provider
access_by_name name =
    find_first (λ p. is_access p && text_eq p.name name) (by_role providers Role.access)

unfoldable pub local_by_name : Text → Option Provider
local_by_name name =
    find_first (λ p. not (is_vm p) && text_eq p.name name) (by_role providers Role.vm)

pub data SelectError : Type 0 where
  no_providers not_configured unknown aborted write_failed : SelectError

-- The first error tells a known provider that is not configured from an unknown one.
unfoldable pub provider_by_flag :
    List Provider → List Provider → Text → Outcome SelectError Provider
provider_by_flag vm_providers configured flag =
    elim (find_first (λ p. text_eq p.name flag) configured) [
      | some p ↦ ok p
      | none ↦
          if any (λ p. text_eq p.name flag) vm_providers
          then err SelectError.not_configured
          else err SelectError.unknown
    ]

module _ (configured : Text → Bool) where
  unfoldable pub active_ai : Bool → Option Provider
  active_ai disabled =
      if disabled
      then none
      else find_first (λ p. is_ai p && configured p.name) (by_role providers Role.ai)

  unfoldable pub active_access : Bool → Option Provider
  active_access disabled =
      if disabled
      then none
      else find_first (λ p. is_access p && configured p.name) (by_role providers Role.access)

  -- pickVMProvider, with the name that the form returns, or none when it is left.
  abbrev pick_vm_provider : Provider → List Provider → Option Text → Outcome SelectError Provider
  pick_vm_provider first all none = err SelectError.aborted
  pick_vm_provider first all (some sel) = elim (find_first (λ p. text_eq p.name sel) all) [
    | some p ↦ ok p
    | none ↦ ok first
  ]

  abbrev select_among : List Provider → Text → Bool → Option Text → Outcome SelectError Provider
  select_among [] flag is_tty pick = err SelectError.no_providers
  select_among (first ∷ rest) flag is_tty pick =
      if is_empty flag
      then if is_tty then pick_vm_provider first (first ∷ rest) pick else ok first
      else provider_by_flag (by_role providers Role.vm) (first ∷ rest) flag

  -- selectVMProvider, up to the write of the pick to the configuration file.
  unfoldable pub select_vm_provider : Text → Bool → Option Text → Outcome SelectError Provider
  select_vm_provider flag is_tty pick =
      select_among (keep (λ p. configured p.name) (by_role providers Role.vm)) flag is_tty pick

abbrev with_role : Text → Option Provider → Assoc Text → Assoc Text
with_role role none roles = roles
with_role role (some p) roles = insert role p.name roles

unfoldable pub session_roles : Provider → Option Provider → Option Provider → Assoc Text
session_roles host key_source dns =
    with_role (codes "access") dns
      (with_role (codes "ai") key_source ((codes "vm", host.name) ∷ []))
