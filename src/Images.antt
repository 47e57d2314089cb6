-- ===== src/Images.antt =====
-- internal/cli/images.go: the container images of a session.
pub mod Refs
pub mod Tests
use interview_labs.Prelude.{
  ℕ, Text, codes, Bool, true, false, ◌==◌, ◌&&◌, ◌||◌, leb, not, Option, none, some, [], ◌∷◌, ◌++◌,
  if◌then◌else◌, is_empty, all,
}
use interview_labs.Prelude.Assoc.{lookup}
use interview_labs.Version.{Build, Info, resolve_pins}

abbrev pub image_registry : Text
image_registry = codes "ghcr.io/openbuzz/"

pub record ResolvedImages : Type 0 where
  pub gateway : Text
  pub vscode : Text
  pub warning : Bool

-- The flags of launch that images.go reads.
pub record ImageFlags : Type 0 where
  pub image : Text
  pub gateway : Text
  pub tag : Text

unfoldable pub gateway_ref : Info → Text → Text
gateway_ref pins tag =
    if not (is_empty tag)
    then codes "interview-labs-gateway:" ++ tag
    else if not (is_empty pins.gateway_digest)
    then image_registry ++ (codes "interview-labs-gateway@" ++ pins.gateway_digest)
    else image_registry ++ (codes "interview-labs-gateway:" ++ pins.version)

abbrev pub pinned_vscode : Option Text → Info → Text → Text
pinned_vscode none pins profile =
    image_registry ++ (codes "interview-labs-vscode:" ++ (pins.version ++ (codes "-" ++ profile)))
pinned_vscode (some digest) pins profile =
    if not (is_empty digest)
    then image_registry ++ (codes "interview-labs-vscode@" ++ digest)
    else image_registry
      ++ (codes "interview-labs-vscode:" ++ (pins.version ++ (codes "-" ++ profile)))

unfoldable pub vscode_ref : Info → Text → Text → Text
vscode_ref pins profile tag =
    if not (is_empty tag)
    then codes "interview-labs-vscode:" ++ (profile ++ (codes "-" ++ tag))
    else pinned_vscode (lookup profile pins.vscode_digests) pins profile

unfoldable pub resolve_images : Build → ImageFlags → Text → ResolvedImages
resolve_images b f profile =
    let (pins, warning) = resolve_pins b in
    record {
      gateway = if is_empty f.gateway then gateway_ref pins f.tag else f.gateway;
      vscode = if is_empty f.image then vscode_ref pins profile f.tag else f.image;
      warning = warning;
    }

abbrev pub is_alnum : ℕ → Bool
is_alnum c = (leb 97 c && leb c 122) || ((leb 65 c && leb c 90) || (leb 48 c && leb c 57))

-- [a-zA-Z0-9._/:@-]
abbrev pub is_ref_char : ℕ → Bool
is_ref_char c =
    is_alnum c || (c == 46 || (c == 95 || (c == 47 || (c == 58 || (c == 64 || c == 45)))))

-- imageRefPattern
abbrev pub matches_ref : Text → Bool
matches_ref [] = false
matches_ref (c ∷ s) = is_alnum c && all is_ref_char s

unfoldable pub validate : ResolvedImages → Bool
validate r = matches_ref r.gateway && matches_ref r.vscode
