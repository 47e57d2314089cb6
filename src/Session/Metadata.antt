-- ===== src/Session/Metadata.antt =====
-- The metadata.json schema of a session, and how it is read back.
use interview_labs.Prelude.{
  ℕ, Text, codes, Bool, ◌&&◌, Option, none, some, [], ◌∷◌, ltb, is_empty, if◌then◌else◌, ◌++◌,
}
use interview_labs.Prelude.Assoc.{Assoc, lookup}

pub data Status : Type 0 where
  launching ready failed destroying failed_destroy : Status

-- The phases that the launch pipelines write.
pub data Phase : Type 0 where
  session stage terraform_init terraform_apply outputs wait_ssh cloud_init : Phase
  push_stack pull_stack install_kind push_payload create_cluster ai_mint compose_up setup : Phase
  summary : Phase

pub record TerraformInfo : Type 0 where
  pub binary : Text
  pub version : Text

-- `created_at` is a number of nanoseconds, `ai_cap_usd` an amount in a unit that is small enough.
-- `roles` is `none` where the file has no roles.
pub record Metadata : Type 0 where
  pub schema : ℕ
  pub slug : Text
  pub created_at : ℕ
  pub region : Text
  pub size : Text
  pub image : Text
  pub profile : Text
  pub pack : Text
  pub bundle : Text
  pub kind : Bool
  pub roles : Option (Assoc Text)
  pub ssh_user : Text
  pub terraform : TerraformInfo
  pub ip : Text
  pub fqdn : Text
  pub ai_key_hash : Text
  pub ai_cap_usd : ℕ
  pub gateway_password : Text
  pub url : Text
  pub status : Status
  pub phase : Phase

abbrev text_or_empty : Option Text → Text
text_or_empty none = []
text_or_empty (some t) = t

-- s.Meta.Roles[role]
unfoldable pub role_of : Metadata → Text → Text
role_of m role = elim m.roles [ none ↦ [] | some roles ↦ text_or_empty (lookup role roles) ]

abbrev with_roles : Option (Assoc Text) → Option (Assoc Text)
with_roles none = some ((codes "vm", codes "digitalocean") ∷ [])
with_roles (some roles) = some roles

-- What Get fills in for files of older versions.
unfoldable pub migrate : Metadata → Metadata
migrate m = record m {
  roles = with_roles m.roles;
  ssh_user = if is_empty m.ssh_user && ltb m.schema 2 then codes "root" else m.ssh_user;
}

-- sessionURL: the DNS name when the session has one.
unfoldable pub session_url : Metadata → Text
session_url m = if is_empty m.fqdn then codes "http://" ++ m.ip else codes "http://" ++ m.fqdn
