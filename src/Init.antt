-- ===== src/Init.antt =====
-- internal/cli/init.go, runInitLoop, and Configure of each provider (configure.go of internal/aws,
-- internal/cloudflare, internal/digitalocean, internal/hetzner and internal/openrouter, and
-- localvm.go). What the forms return, what the vendors say of a credential, and whether the file can be
-- written, are parameters of each round.
pub mod Kept
pub mod Vetted
pub mod Tests
use interview_labs.Prelude.{
  ℕ, Text, codes, Bool, true, false, Option, none, some, List, [], ◌∷◌, if◌then◌else◌, text_eq,
  find_first,
}
use interview_labs.Prelude.Outcome.{Outcome, ok, err, ◌>>=◌}
use interview_labs.Config.{Config, Cloudflare, Providers}
use interview_labs.Credentials.{Vendor}
use interview_labs.Retry.{retry, retry_delays}
use interview_labs.Root.{CmdError, is_aborted}

pub record Zone : Type 0 where
  pub id : Text
  pub name : Text

-- The forms of a round: the menu with the name of a provider, the prompts for a token, for a pair, and
-- for a key with its cap, which is 0 where it is left empty, and the zones with the forms for them.
-- `checks` says what an attempt to validate a credential returns, `local_up` the same of docker.
pub record Round : Type 0 where
  pub pick : Outcome CmdError Text
  pub token : Outcome CmdError Text
  pub pair : Outcome CmdError (Text × Text)
  pub key_cap : Outcome CmdError (Text × ℕ)
  pub zones : Option (List Zone)
  pub pick_zone : Outcome CmdError Text
  pub manual_zone : Outcome CmdError Zone
  pub checks : Vendor → List Text → ℕ → Option Text
  pub sleeps : ℕ → Bool
  pub can_write : Bool

-- TestCredentials
abbrev pub passes : Round → Vendor → List Text → Bool
passes r v creds = elim (retry (r.checks v creds) r.sleeps retry_delays).result [
  | none ↦ true
  | some e ↦ false
]

-- A token that is rejected is not stored.
unfoldable pub configure_digital_ocean : Round → Config → Outcome CmdError Config
configure_digital_ocean r c = do
  tok ← r.token
  ok (
      if passes r Vendor.digital_ocean (tok ∷ [])
      then record c {
        providers = record c.providers {
          digital_ocean = record c.providers.digital_ocean { token = tok };
        };
      }
      else c)

unfoldable pub configure_hetzner : Round → Config → Outcome CmdError Config
configure_hetzner r c = do
  tok ← r.token
  ok (
      if passes r Vendor.hetzner (tok ∷ [])
      then record c {
        providers = record c.providers { hetzner = record c.providers.hetzner { token = tok } };
      }
      else c)

unfoldable pub configure_aws : Round → Config → Outcome CmdError Config
configure_aws r c = do
  creds ← r.pair
  ok (
      if passes r Vendor.aws (creds.0 ∷ creds.1 ∷ [])
      then record c {
        providers = record c.providers {
          aws = record c.providers.aws { access_key_id = creds.0; secret_access_key = creds.1 };
        };
      }
      else c)

unfoldable pub configure_open_router : Round → Config → Outcome CmdError Config
configure_open_router r c = do
  key ← r.key_cap
  ok (
      if passes r Vendor.open_router (key.0 ∷ [])
      then record c {
        providers = record c.providers {
          open_router = record { management_key = key.0; cap_usd = key.1 };
        };
      }
      else c)

-- pickZone: the picked zone, or the first one.
abbrev pub zone_by_id : Zone → List Zone → Text → Zone
zone_by_id first zs id = elim (find_first (λ z. text_eq z.id id) zs) [ none ↦ first | some z ↦ z ]

abbrev pub listed_zone : Round → List Zone → Outcome CmdError Zone
listed_zone r [] = r.manual_zone
listed_zone r (z ∷ zs) = r.pick_zone >>= λ id. ok (zone_by_id z (z ∷ zs) id)

unfoldable pub resolve_zone : Round → Outcome CmdError Zone
resolve_zone r = elim r.zones [ none ↦ r.manual_zone | some zs ↦ listed_zone r zs ]

unfoldable pub configure_cloudflare : Round → Config → Outcome CmdError Config
unfolding resolve_zone
configure_cloudflare r c = do
  tok ← r.token
  if passes r Vendor.cloudflare (tok ∷ [])
      then (resolve_zone r >>= λ z. ok (record c {
        providers = record c.providers {
          cloudflare = record { api_token = tok; zone_id = z.id; domain = z.name };
        };
      }))
      else ok c

-- The entries of the menu: the local one stores nothing.
abbrev pub entries : List (Text × Option Vendor)
entries =
    (codes "digitalocean", some Vendor.digital_ocean)
    ∷ (codes "hetzner", some Vendor.hetzner)
    ∷ (codes "aws", some Vendor.aws)
    ∷ (codes "local", none)
    ∷ (codes "openrouter", some Vendor.open_router)
    ∷ (codes "cloudflare", some Vendor.cloudflare)
    ∷ []

unfoldable pub configure : Option Vendor → Round → Config → Outcome CmdError Config
unfolding configure_digital_ocean configure_hetzner configure_aws configure_open_router
    configure_cloudflare
configure none r c = ok c
configure (some Vendor.digital_ocean) r c = configure_digital_ocean r c
configure (some Vendor.hetzner) r c = configure_hetzner r c
configure (some Vendor.aws) r c = configure_aws r c
configure (some Vendor.open_router) r c = configure_open_router r c
configure (some Vendor.cloudflare) r c = configure_cloudflare r c

-- pickInitAction: none for Exit, be it picked or the menu left.
unfoldable pub pick_init_action :
    Outcome CmdError Text → Outcome CmdError (Option (Text × Option Vendor))
pick_init_action (err e) = if is_aborted e then ok none else err e
pick_init_action (ok sel) = ok (find_first (λ p. text_eq p.0 sel) entries)

pub data InitEnd : Type 0 where
  waiting left unwritten : InitEnd
  broke : CmdError → InitEnd

abbrev pub after_configure :
    Round
    → Config
    → Config
    → Outcome CmdError Config
    → (Config → Config → InitEnd × Config)
    → InitEnd × Config
after_configure r c disk (err e) rest =
    if is_aborted e then rest c disk else (InitEnd.broke e, disk)
after_configure r c disk (ok c') rest =
    if r.can_write then rest c' c' else (InitEnd.unwritten, disk)

abbrev pub after_pick :
    Round
    → Config
    → Config
    → Outcome CmdError (Option (Text × Option Vendor))
    → (Config → Config → InitEnd × Config)
    → InitEnd × Config
after_pick r c disk (err e) rest = (InitEnd.broke e, disk)
after_pick r c disk (ok none) rest = (InitEnd.left, disk)
after_pick r c disk (ok (some p)) rest = after_configure r c disk (configure p.1 r c) rest

-- The loop, with the configuration in memory and the one on disk, and how it ends.
unfoldable pub run_init_loop : List Round → Config → Config → InitEnd × Config
unfolding configure pick_init_action
run_init_loop [] c disk = (InitEnd.waiting, disk)
run_init_loop (r ∷ rs) c disk = after_pick r c disk (pick_init_action r.pick) (run_init_loop rs)
