-- ===== src/Pack/Manifest.antt =====
-- When the file of a manifest gives its fields.
use interview_labs.Prelude.{Text, true, some, ◌≡◌, refl}
use interview_labs.Prelude.Outcome.{ok, require, expect, >>=-ok, expect-ok, require-ok}
use interview_labs.Pack.Each.{Returns}
use interview_labs.Pack.Load.{FileSystem, Schemas, Format, LoadError, load_manifest}

-- The file at `p` is read, it is YAML that stands for JSON, the document is valid by the schema, and
-- the fields are decoded.
pub record IsManifest {Doc M : Type 0} (fs : FileSystem) (p : Text) (f : Format Doc M)
    : Type 0 where
  pub raw : Text
  pub json : Text
  pub doc : Doc
  pub fields : M
  pub read : fs.read_file p ≡ some raw
  pub converted : f.yaml_to_json raw ≡ some json
  pub parsed : f.unmarshal_json json ≡ some doc
  pub valid : f.validates doc ≡ true
  pub decoded : f.unmarshal raw ≡ some fields

module _ {Doc : Type 0} (fs : FileSystem) (schemas : Schemas Doc) where
  pub load_manifest-IsManifest :
      {M : Type 0} (p : Text) (f : Format Doc M) (m : M)
      → load_manifest fs schemas p f ≡ ok m
      → IsManifest fs p f
  unfolding load_manifest
  load_manifest-IsManifest p f m h =
      let (raw, e1, k1) = >>=-ok (expect (fs.read_file p) (LoadError.unreadable p)) _ m h in
      let (json, e2, k2) = >>=-ok (expect (f.yaml_to_json raw) (LoadError.not_yaml p)) _ m k1 in
      let (doc, e3, k3) = >>=-ok (expect (f.unmarshal_json json) (LoadError.not_json p)) _ m k2 in
      let (u, e4, k4) = >>=-ok (require (f.validates doc) (LoadError.invalid p)) _ m k3 in
      record {
        raw = raw;
        json = json;
        doc = doc;
        fields = m;
        read = expect-ok _ _ raw e1;
        converted = expect-ok _ _ json e2;
        parsed = expect-ok _ _ doc e3;
        valid = require-ok _ _ u e4;
        decoded = expect-ok _ _ m k4;
      }

  pub IsManifest-load_manifest :
      {M : Type 0} (p : Text) (f : Format Doc M)
      → IsManifest fs p f
      → Returns (load_manifest fs schemas p f)
  unfolding load_manifest
  IsManifest-load_manifest p f h =
      (h.fields, rw (h.read, h.converted, h.parsed, h.valid, h.decoded) refl)
