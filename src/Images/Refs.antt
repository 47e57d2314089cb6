-- ===== src/Images/Refs.antt =====
-- Which references launch makes, and how they stand on the remote command line.
use interview_labs.Prelude.{
  Text, Bool, true, ◌&&◌, ◌||◌, Option, none, some, [], ◌∷◌, ◌++◌, ◌≡◌, refl, is_empty, all,
}
use interview_labs.Prelude.Assoc.{Assoc, lookup}
use interview_labs.Version.{Build, Info, resolve_pins}
use interview_labs.Images.{
  ResolvedImages, ImageFlags, gateway_ref, pinned_vscode, vscode_ref, resolve_images, is_ref_char,
  matches_ref, validate,
}
use interview_labs.Stack.{replace_byte, pull_cmd}
use native.Mathlib.Omega.{arith}

abbrev pub plain : Text → Bool
plain t = all is_ref_char t

plain-append : (s t : Text) → plain s ≡ true → plain t ≡ true → plain (s ++ t) ≡ true
plain-append [] t hs ht = ht
plain-append (c ∷ s) t hs ht = ground (arith, plain-append s t)

-- What the build and the operator put into a reference has the pattern's characters only.
abbrev pub plain_pins : Info → Bool
plain_pins pins =
    plain pins.version
    && (plain pins.gateway_digest && all (λ (kv : Text × Text). plain kv.1) pins.vscode_digests)

plain-lookup :
    (k d : Text) (m : Assoc Text)
    → all (λ (kv : Text × Text). plain kv.1) m ≡ true
    → lookup k m ≡ some d
    → plain d ≡ true
unfolding lookup
plain-lookup k d [] h e = ground arith
plain-lookup k d ((j, v) ∷ m) h e = grind (arith, plain-lookup k d m)

matches_ref-gateway_ref :
    (pins : Info) (tag : Text)
    → plain_pins pins ≡ true
    → plain tag ≡ true
    → matches_ref (gateway_ref pins tag) ≡ true
unfolding gateway_ref
matches_ref-gateway_ref pins tag h ht = ground arith

matches_ref-pinned_vscode :
    (o : Option Text) (pins : Info) (profile : Text)
    → ((d : Text) → o ≡ some d → plain d ≡ true)
    → plain pins.version ≡ true
    → plain profile ≡ true
    → matches_ref (pinned_vscode o pins profile) ≡ true
matches_ref-pinned_vscode none pins profile h hv hp =
    ground (arith, plain-append pins.version (45 ∷ profile))
matches_ref-pinned_vscode (some d) pins profile h hv hp =
    ground (arith, h d refl, plain-append pins.version (45 ∷ profile))

matches_ref-vscode_ref :
    (pins : Info) (profile tag : Text)
    → plain_pins pins ≡ true
    → plain tag ≡ true
    → plain profile ≡ true
    → matches_ref (vscode_ref pins profile tag) ≡ true
unfolding vscode_ref
matches_ref-vscode_ref pins profile tag h ht hp = ground (
  arith,
  plain-append profile (45 ∷ tag),
  matches_ref-pinned_vscode (lookup profile pins.vscode_digests) pins profile
      (λ d e. plain-lookup profile d pins.vscode_digests (ground arith) e) (ground arith) hp,
)

replace_byte-plain : (new t : Text) → plain t ≡ true → replace_byte 39 new t ≡ t
unfolding replace_byte
replace_byte-plain new [] h = refl
replace_byte-plain new (c ∷ t) h = ground (arith, replace_byte-plain new t)

-- References that the build and the flags give pass the check of launch: if what the build is pinned
-- to, the profile and the tag have the pattern's characters only, and each reference that a flag
-- gives is empty or matches the pattern, then validate accepts the resolved images.
pub resolve_images-validate :
    (b : Build) (f : ImageFlags) (profile : Text)
    → plain_pins (resolve_pins b).0 ≡ true
    → plain profile ≡ true
    → plain f.tag ≡ true
    → is_empty f.gateway || matches_ref f.gateway ≡ true
    → is_empty f.image || matches_ref f.image ≡ true
    → validate (resolve_images b f profile) ≡ true
unfolding resolve_images validate
resolve_images-validate b f profile h hp ht hg hi = ground (
  arith,
  matches_ref-gateway_ref (resolve_pins b).0 f.tag h ht,
  matches_ref-vscode_ref (resolve_pins b).0 profile f.tag h ht hp,
)

matches_ref-quoted : (new t : Text) → matches_ref t ≡ true → replace_byte 39 new t ≡ t
matches_ref-quoted new [] h = replace_byte-plain new [] refl
matches_ref-quoted new (c ∷ t) h = replace_byte-plain new (c ∷ t) (ground arith)

-- The pull command of images that validate accepts is the one in which their quotes are escaped: no
-- reference ends the quotes that it stands in.
pub pull_cmd-quoted :
    (r : ResolvedImages) (escape : Text)
    → validate r ≡ true
    → pull_cmd r.gateway r.vscode
      ≡ pull_cmd (replace_byte 39 escape r.gateway) (replace_byte 39 escape r.vscode)
unfolding validate
pull_cmd-quoted r escape h = cc (
  matches_ref-quoted escape r.gateway (ground arith),
  matches_ref-quoted escape r.vscode (ground arith),
)
