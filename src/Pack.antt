-- ===== src/Pack.antt =====
-- internal/pack: content packs, one bundle for each interview position.
pub mod Names
pub mod Load
pub mod Each
pub mod Loaded
pub mod Manifest
pub mod Payload
pub mod Shipped
pub mod Delivered
pub mod Source
pub mod Inside
pub mod SourceTests
pub mod PayloadTests
pub mod Tests
use interview_labs.Prelude.{ℕ, Text, Bool, Option, List, find_first, text_eq}

pub record Scenario : Type 0 where
  pub name : Text
  pub title : Text
  pub description : Text

pub record Bundle : Type 0 where
  pub name : Text
  pub description : Text
  pub image : Text
  pub has_lab : Bool
  pub has_setup : Bool
  pub has_kind : Bool
  pub scenarios : List Scenario

pub record Pack : Type 0 where
  pub contract : ℕ
  pub name : Text
  pub version : Text
  pub description : Text
  pub bundles : List Bundle

unfoldable pub bundle_by_name : Pack → Text → Option Bundle
bundle_by_name p name = find_first (λ b. text_eq b.name name) p.bundles
