-- ===== src/Credentials.antt =====
-- How the providers resolve their credentials, from the environment or the configuration file:
-- vm.go of internal/digitalocean, internal/hetzner and internal/aws, access.go of
-- internal/cloudflare, ai.go of internal/openrouter, and Configured in each configure.go. An unset
-- variable of the environment is the empty string.
use interview_labs.Prelude.{
  Option, none, some, List, find_first, text_eq, ℕ, zero, suc, Text, codes, Bool, ◌&&◌, not, [],
  ◌∷◌, if◌then◌else◌, is_empty,
}
use interview_labs.Prelude.Assoc.{Assoc}
use interview_labs.Config.{Config}

-- The providers that hold credentials.
pub data Vendor : Type 0 where
  digital_ocean hetzner aws open_router cloudflare : Vendor

-- Env beats file.
abbrev pub env_or : (Text → Text) → Text → Text → Text
env_or env name file = if is_empty (env name) then file else env name

unfoldable pub digital_ocean_token : (Text → Text) → Config → Text
digital_ocean_token env c = env_or env (codes "DIGITALOCEAN_TOKEN") c.providers.digital_ocean.token

unfoldable pub hetzner_token : (Text → Text) → Config → Text
hetzner_token env c = env_or env (codes "HCLOUD_TOKEN") c.providers.hetzner.token

-- A complete pair of the environment beats the one of the file, and halves never mix.
unfoldable pub aws_creds : (Text → Text) → Config → Text × Text
aws_creds env c =
    if not (is_empty (env (codes "AWS_ACCESS_KEY_ID")))
      && not (is_empty (env (codes "AWS_SECRET_ACCESS_KEY")))
    then (env (codes "AWS_ACCESS_KEY_ID"), env (codes "AWS_SECRET_ACCESS_KEY"))
    else (c.providers.aws.access_key_id, c.providers.aws.secret_access_key)

unfoldable pub management_key : (Text → Text) → Config → Text
management_key env c =
    env_or env (codes "OPENROUTER_MANAGEMENT_KEY") c.providers.open_router.management_key

unfoldable pub cloudflare_token : (Text → Text) → Config → Text
cloudflare_token env c = env_or env (codes "CLOUDFLARE_API_TOKEN") c.providers.cloudflare.api_token

-- Configured
unfoldable pub configured : (Text → Text) → Config → Vendor → Bool
unfolding digital_ocean_token hetzner_token aws_creds management_key cloudflare_token
configured env c Vendor.digital_ocean = not (is_empty (digital_ocean_token env c))
configured env c Vendor.hetzner = not (is_empty (hetzner_token env c))
configured env c Vendor.aws =
    not (is_empty (aws_creds env c).0) && not (is_empty (aws_creds env c).1)
configured env c Vendor.open_router = not (is_empty (management_key env c))
configured env c Vendor.cloudflare =
    not (is_empty (cloudflare_token env c)) && not (is_empty c.providers.cloudflare.zone_id)

-- EnvCreds: what terraform is given. The provider of AI keys gives it none.
unfoldable pub env_creds : (Text → Text) → Config → Vendor → Assoc Text
unfolding digital_ocean_token hetzner_token aws_creds cloudflare_token
env_creds env c Vendor.digital_ocean = (codes "DIGITALOCEAN_TOKEN", digital_ocean_token env c) ∷ []
env_creds env c Vendor.hetzner = (codes "HCLOUD_TOKEN", hetzner_token env c) ∷ []
env_creds env c Vendor.aws =
    (codes "AWS_ACCESS_KEY_ID", (aws_creds env c).0)
    ∷ (codes "AWS_SECRET_ACCESS_KEY", (aws_creds env c).1)
    ∷ []
env_creds env c Vendor.open_router = []
env_creds env c Vendor.cloudflare = (codes "CLOUDFLARE_API_TOKEN", cloudflare_token env c) ∷ []

-- capUSD: 0 in the file means the default, of 10 units of money each of `unit`.
unfoldable pub cap_usd : ℕ → Config → ℕ
cap_usd default_cap c = elim c.providers.open_router.cap_usd [ zero ↦ default_cap | suc n ↦ suc n ]

abbrev pub vendors : List (Text × Vendor)
vendors =
    (codes "digitalocean", Vendor.digital_ocean)
    ∷ (codes "hetzner", Vendor.hetzner)
    ∷ (codes "aws", Vendor.aws)
    ∷ (codes "openrouter", Vendor.open_router)
    ∷ (codes "cloudflare", Vendor.cloudflare)
    ∷ []

abbrev pub vendor_creds : (Text → Text) → Config → Option (Text × Vendor) → Assoc Text
vendor_creds env c none = []
vendor_creds env c (some v) = env_creds env c v.1

-- EnvCreds of the provider with this name.
unfoldable pub named_creds : (Text → Text) → Config → Text → Assoc Text
named_creds env c name =
    vendor_creds env c (find_first (λ (v : Text × Vendor). text_eq v.0 name) vendors)
