-- ===== src/Config.antt =====
-- internal/config/config.go: the configuration file, and how it is replaced. The directory of the file
-- holds it and the temporary file; yaml, and what fails on the disk, are parameters, and so is the
-- point at which the process dies. Amounts of money are in a unit that is small enough.
pub mod Atomic
pub mod Tests
use interview_labs.Prelude.{
  ℕ, Text, codes, Bool, Option, none, some, List, [], ◌∷◌, ◌++◌, if◌then◌else◌, is_empty,
}
use interview_labs.Prelude.Outcome.{Outcome, ok, err, ◌>>=◌, expect}

pub record DigitalOcean : Type 0 where
  pub token : Text
  pub region : Text
  pub instance_type : Text

pub record Hetzner : Type 0 where
  pub token : Text
  pub region : Text
  pub instance_type : Text

pub record Aws : Type 0 where
  pub access_key_id : Text
  pub secret_access_key : Text
  pub region : Text
  pub instance_type : Text

pub record OpenRouter : Type 0 where
  pub management_key : Text
  pub cap_usd : ℕ

pub record Cloudflare : Type 0 where
  pub api_token : Text
  pub zone_id : Text
  pub domain : Text

pub record Providers : Type 0 where
  pub digital_ocean : DigitalOcean
  pub hetzner : Hetzner
  pub aws : Aws
  pub open_router : OpenRouter
  pub cloudflare : Cloudflare

pub record Config : Type 0 where
  pub providers : Providers
  pub vm_role : Text
  pub profile : Text

abbrev pub zero_config : Config
zero_config = record {
  providers = record {
    digital_ocean = record { token = []; region = []; instance_type = [] };
    hetzner = record { token = []; region = []; instance_type = [] };
    aws = record { access_key_id = []; secret_access_key = []; region = []; instance_type = [] };
    open_router = record { management_key = []; cap_usd = 0 };
    cloudflare = record { api_token = []; zone_id = []; domain = [] };
  };
  vm_role = [];
  profile = [];
}

-- A file: its content and its permissions.
pub record File : Type 0 where
  pub data_ : Text
  pub mode : ℕ

pub record Disk : Type 0 where
  pub config : Option File
  pub temp : Option File

-- The steps of Write, in their order.
pub data Step : Type 0 where
  find_path make_dir marshal create_temp chmod write_temp close rename : Step

pub data ConfigError : Type 0 where
  failed : Step → ConfigError
  not_read not_yaml : ConfigError

-- Path, from $XDG_CONFIG_HOME and the home directory, if it is known.
unfoldable pub path : Text → Option Text → Option Text
path xdg home =
    if is_empty xdg
    then elim home [ none ↦ none | some h ↦ some (h ++ codes "/.config/interview/config.yaml") ]
    else some (xdg ++ codes "/interview/config.yaml")

-- What the yaml package makes of a configuration.
pub record Yaml : Type 0 where
  pub marshal : Config → Text
  pub unmarshal : Text → Option Config

-- Load, once the path is known; none says that reading fails.
unfoldable pub load : Yaml → Bool → Disk → Outcome ConfigError Config
load yaml readable d = elim d.config [
  | none ↦ ok zero_config
  | some f ↦
      if readable
      then expect (yaml.unmarshal f.data_) ConfigError.not_yaml
      else err ConfigError.not_read
]

-- The result of Write, the disk that it leaves, and each disk that stood on the way there, in order.
pub record Written : Type 0 where
  pub outcome : Outcome ConfigError (Unit {0})
  pub final : Disk
  pub seen : List Disk

abbrev pub finish : Disk → Written
finish d = record { outcome = ok tt; final = d; seen = d ∷ [] }

abbrev pub stop : Step → Disk → Written
stop st d = record { outcome = err (ConfigError.failed st); final = d; seen = d ∷ [] }

abbrev pub from : Disk → Written → Written
from d w = record w { seen = d ∷ w.seen }

abbrev pub same : Disk → Disk
same d = d

abbrev pub with_temp : Text → Disk → Disk
with_temp t d = record d { temp = some (record { data_ = t; mode = 384 }) }

-- os.Rename over the configuration file.
abbrev pub moved : Disk → Disk
moved d = record { config = d.temp; temp = none }

-- `partial` is what a failing write of the temporary file leaves in it, and `removes` says whether
-- the deferred os.Remove succeeds. The modes are 0o600.
module _ (yaml : Yaml) (fails : Step → Bool) (partial : Text) (removes : Bool) where
  -- One step: what it changes if it fails, and if it does not, and what follows.
  unfoldable pub act : Step → (Disk → Disk) → (Disk → Disk) → (Disk → Written) → Disk → Written
  act st bad good next d = if fails st then from d (stop st (bad d)) else from d (next (good d))

  abbrev pub removed : Disk → Disk
  removed d = if removes then record d { temp = none } else d

  abbrev pub cleaned : Written → Written
  cleaned w = record w { final = removed w.final; seen = w.seen ++ (removed w.final ∷ []) }

  unfoldable pub fill : Text → Disk → Written
  fill t = act Step.chmod same same (
      act Step.write_temp (with_temp partial) (with_temp t)
        (act Step.close same same (act Step.rename same moved finish)))

  unfoldable pub write : Config → Disk → Written
  write c = act Step.find_path same same (
      act Step.make_dir same same (
        act Step.marshal same same
          (act Step.create_temp same (with_temp []) (λ d. cleaned (fill (yaml.marshal c) d)))))
