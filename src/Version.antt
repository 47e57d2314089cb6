-- ===== src/Version.antt =====
-- internal/version: the build identity. The variables that the release build sets, and the module
-- version that go install stamps, are a record.
use interview_labs.Prelude.{
  ℕ, Text, codes, text_eq, Bool, true, false, ◌==◌, ◌&&◌, ◌||◌, not, Option, none, some, List, [],
  ◌∷◌, if◌then◌else◌, is_empty,
}
use interview_labs.Prelude.Assoc.{Assoc, insert}

pub record Build : Type 0 where
  pub build_version : Text
  pub commit : Text
  pub gateway_digest : Text
  pub vscode_digests : Text
  -- debug.ReadBuildInfo, with none for an empty version and for (devel)
  pub installed_version : Option Text

pub record Info : Type 0 where
  pub version : Text
  pub commit : Text
  pub gateway_digest : Text
  pub vscode_digests : Assoc Text

abbrev pub cons_first : ℕ → List Text → List Text
cons_first c [] = (c ∷ []) ∷ []
cons_first c (p ∷ ps) = (c ∷ p) ∷ ps

-- strings.Split at one byte
unfoldable pub split : Text → ℕ → List Text
split [] sep = [] ∷ []
split (c ∷ s) sep = let rest = split s sep in if c == sep then [] ∷ rest else cons_first c rest

abbrev pub before_first : ℕ → Option (Text × Text) → Option (Text × Text)
before_first c none = none
before_first c (some (a, b)) = some (c ∷ a, b)

-- strings.Cut at one byte
unfoldable pub cut : Text → ℕ → Option (Text × Text)
cut [] sep = none
cut (c ∷ s) sep = let rest = cut s sep in if c == sep then some ([], s) else before_first c rest

abbrev add_pair : Option (Text × Text) → Assoc Text → Assoc Text
add_pair none digests = digests
add_pair (some (profile, digest)) digests = insert profile digest digests

unfoldable pub add_pairs : List Text → Assoc Text → Assoc Text
add_pairs [] digests = digests
add_pairs (pair ∷ pairs) digests = add_pairs pairs (add_pair (cut pair 61) digests)

-- Malformed pairs are left out; of two pairs for one profile the last counts.
unfoldable pub parse_vscode_digests : Text → Assoc Text
parse_vscode_digests raw = if is_empty raw then [] else add_pairs (split raw 44) []

-- strings.TrimPrefix(s, "v")
abbrev pub trim_v : Text → Text
trim_v [] = []
trim_v (c ∷ s) = if c == 118 then s else c ∷ s

abbrev pub is_pinned : Build → Bool
is_pinned b =
    not (text_eq b.build_version (codes "dev"))
    && (not (is_empty b.gateway_digest) || not (is_empty b.vscode_digests))

abbrev dev_version : Build → Text
dev_version b =
    if text_eq b.build_version (codes "dev")
    then elim b.installed_version [ none ↦ codes "edge" | some v ↦ trim_v v ]
    else b.build_version

-- The second component says whether there is a pin warning.
unfoldable pub resolve_pins : Build → Info × Bool
resolve_pins b =
    if is_pinned b
    then (
      record {
        version = b.build_version;
        commit = b.commit;
        gateway_digest = b.gateway_digest;
        vscode_digests = parse_vscode_digests b.vscode_digests;
      },
      false,
    )
    else (
      record {
        version = dev_version b;
        commit = b.commit;
        gateway_digest = [];
        vscode_digests = [];
      },
      true,
    )
