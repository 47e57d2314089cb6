-- ===== src/Providers/Tests.antt =====
-- Selecting providers when three of them are configured.
use interview_labs.Prelude.{Text, codes, text_eq, Bool, true, false, ◌||◌, none, [], ◌∷◌, ◌≡◌, refl}
use interview_labs.Prelude.Outcome.{ok, err}
use interview_labs.Providers.{
  Role, Capability, Provider, SelectError, by_role, provider_by_flag, select_vm_provider,
}
use interview_labs.Providers.Roles.{IsSelected, select_vm_provider-IsSelected}

unfoldable configured : Text → Bool
unfolding text_eq
configured name =
    text_eq name (codes "hetzner")
    || (text_eq name (codes "local") || text_eq name (codes "openrouter"))

abbrev pub hetzner : Provider
hetzner = record { name = codes "hetzner"; roles = Role.vm ∷ []; capability = Capability.hosts_vm }

by_flag : select_vm_provider configured (codes "hetzner") false none ≡ ok hetzner
unfolding select_vm_provider configured by_role provider_by_flag text_eq
by_flag = refl

not_configured :
    select_vm_provider configured (codes "aws") true none ≡ err SelectError.not_configured
unfolding select_vm_provider configured by_role provider_by_flag text_eq
not_configured = refl

select_vm_provider-IsSelected_example : IsSelected configured (codes "hetzner") hetzner
select_vm_provider-IsSelected_example =
    select_vm_provider-IsSelected configured (codes "hetzner") false none hetzner by_flag
