-- ===== src/Images/Tests.antt =====
-- Image references of a release build.
use interview_labs.Prelude.{codes, true, none, [], ◌≡◌, refl}
use interview_labs.Version.{Build, resolve_pins, parse_vscode_digests, split, cut, add_pairs}
use interview_labs.Prelude.Assoc.{insert, lookup}
use interview_labs.Prelude.{text_eq}
use interview_labs.Images.{
  ResolvedImages, ImageFlags, resolve_images, gateway_ref, vscode_ref, validate,
}
use interview_labs.Images.Refs.{resolve_images-validate}

abbrev pub release : Build
release = record {
  build_version = codes "0.4.0";
  commit = codes "abc";
  gateway_digest = codes "sha256:aa";
  vscode_digests = codes "backend=sha256:bb,devops=sha256:cc";
  installed_version = none;
}

abbrev flags : ImageFlags
flags = record { image = []; gateway = []; tag = [] }

resolved :
    (resolve_images release flags (codes "devops")).vscode
    ≡ codes "ghcr.io/openbuzz/interview-labs-vscode@sha256:cc"
unfolding resolve_images resolve_pins parse_vscode_digests split cut add_pairs insert lookup text_eq
    vscode_ref gateway_ref
resolved = refl

resolve_images-validate_example : validate (resolve_images release flags (codes "devops")) ≡ true
unfolding resolve_pins parse_vscode_digests split cut add_pairs insert lookup text_eq
resolve_images-validate_example =
    resolve_images-validate release flags (codes "devops") refl refl refl refl refl

abbrev local_refs : ResolvedImages
local_refs = record { gateway = codes "gw:local"; vscode = codes "vs:local"; warning = true }
