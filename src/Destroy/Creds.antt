-- ===== src/Destroy/Creds.antt =====
-- The runner of terraform that a destroy uses (destroyRunner).
use interview_labs.Config.{Config}
use interview_labs.Credentials.{Vendor, vendors, vendor_creds, env_creds, named_creds}
use interview_labs.Prelude.{
  Option, none, some, find_first, text_eq, Text, true, false, [], if◌then◌else◌, is_empty, ◌≡◌, ◌⊎◌,
  inl, inr, refl, arith, Bool-cases,
}
use interview_labs.Prelude.Assoc.{Assoc, lookup}
use interview_labs.Prelude.Outcome.{Outcome, ok, err, require, expect, >>=-ok, ok-injective}
use interview_labs.Session.Store.{Session}
use interview_labs.Providers.{vm_by_name, access_by_name, is_some}
use interview_labs.Terraform.{Binary, FindError, find_named, find, run_env, keys_of}
use interview_labs.Terraform.Env.{
  getenv, or_else, is_name, is_own, AreCreds, AreNames, AreNames-merge_creds, lookup-merge_creds,
  getenv-run_env,
}
use interview_labs.Destroy.Command.{
  Desk, Runner, Refusal, map_err, runner_binary, destroy_runner, with_access, vm_role, access_role,
}
use mathlib.Core.Path.{subst}
use interview_labs.Destroy.Consent.{map_err-ok}

env_creds-AreCreds : (env : Text → Text) (c : Config) (v : Vendor) → AreCreds (env_creds env c v)
unfolding env_creds lookup text_eq
env_creds-AreCreds env c Vendor.digital_ocean = ((refl, tt), (refl, tt))
env_creds-AreCreds env c Vendor.hetzner = ((refl, tt), (refl, tt))
env_creds-AreCreds env c Vendor.aws = ((refl, (refl, tt)), (refl, (refl, tt)))
env_creds-AreCreds env c Vendor.open_router = (tt, tt)
env_creds-AreCreds env c Vendor.cloudflare = ((refl, tt), (refl, tt))

vendor_creds-AreCreds :
    (env : Text → Text) (c : Config) (o : Option (Text × Vendor)) → AreCreds (vendor_creds env c o)
vendor_creds-AreCreds env c none = (tt, tt)
vendor_creds-AreCreds env c (some v) = env_creds-AreCreds env c v.1

-- The credentials of a provider have distinct names.
named_creds-AreCreds :
    (env : Text → Text) (c : Config) (name : Text) → AreCreds (named_creds env c name)
unfolding named_creds
named_creds-AreCreds env c name =
    vendor_creds-AreCreds env c (find_first (λ (v : Text × Vendor). text_eq v.0 name) vendors)

module _ (d : Desk) (c : Config) (s : Session) where
  -- The applied program, or the one that is found when that one is not.
  abbrev pub IsBinary : Binary → Type 0
  IsBinary b =
      (find_named d.programs s.meta.terraform.binary ≡ ok b)
      ⊎ ((e : FindError) × (find_named d.programs s.meta.terraform.binary ≡ err e)
          × (find d.programs ≡ ok b))

  abbrev vm_creds : Assoc Text
  vm_creds = named_creds d.env c (vm_role d s)

  abbrev access_creds : Assoc Text
  access_creds = if is_empty (access_role d s) then [] else named_creds d.env c (access_role d s)

  access_creds-AreCreds : AreCreds access_creds
  access_creds-AreCreds = elim (Bool-cases (is_empty (access_role d s))) [
    | inl e ↦ rw e (tt, tt)
    | inr e ↦ rw e (named_creds-AreCreds d.env c (access_role d s))
  ]

  binary-IsBinary :
      (o : Outcome FindError Binary) (b : Binary)
      → find_named d.programs s.meta.terraform.binary ≡ o
      → elim o [ ok a ↦ ok a | err e ↦ find d.programs ] ≡ ok b
      → IsBinary b
  binary-IsBinary (ok a) b e h = ground arith
  binary-IsBinary (err x) b e h = inr (x, e, h)

  -- How a map of credentials answers for the two providers.
  abbrev AreBoth : Text → Assoc Text → Assoc Text → Assoc Text → Type 0
  AreBoth k a v m = AreNames (keys_of m) × (lookup k m ≡ or_else (lookup k a) (lookup k v))

  with_access-AreBoth :
      (m : Assoc Text) (k : Text)
      → AreCreds vm_creds
      → AreCreds access_creds
      → with_access d c s ≡ ok m
      → AreBoth k access_creds vm_creds m
  with_access-AreBoth m k hv ha h = elim (Bool-cases (is_empty (access_role d s))) [
    | inl e ↦ rw e (
        subst (AreBoth k [] vm_creds) (ok-injective vm_creds m (rw (e, if◌then◌else◌) at h))
          (hv.1, unfold lookup in refl))
    | inr e ↦ elim (Bool-cases (is_some (access_by_name (access_role d s)))) [
      | inl q ↦ rw e (
          subst (AreBoth k (named_creds d.env c (access_role d s)) vm_creds)
            (ok-injective _ m (rw (e, if◌then◌else◌, q) at h))
            (
              AreNames-merge_creds vm_creds (named_creds d.env c (access_role d s)) hv (rw e at ha),
              lookup-merge_creds vm_creds (named_creds d.env c (access_role d s)) k hv (rw e at ha),
            ))
      | inr q ↦ ground (arith, e, q, h)
    ]
  ]

  -- The runner that a destroy uses is the program that applied the session, or where that is not
  -- found the one that is. A variable that is not one of terraform's own two has in its environment the value of the access provider's
  -- credentials, or else of the cloud's, or else of this process.
  pub destroy_runner-getenv :
      (r : Runner) (k : Text)
      → destroy_runner d c s ≡ ok r
      → is_name k ≡ true
      → is_own k ≡ false
      → IsBinary r.bin
        × (getenv r.env k
            ≡ or_else (or_else (lookup k access_creds) (lookup k vm_creds)) (getenv d.environ k))
  unfolding destroy_runner
  destroy_runner-getenv r k h hk n =
      let (b, eb, h1) = >>=-ok (map_err Refusal.no_binary (runner_binary d s)) _ r h in
      let (u, eu, h2) =
        >>=-ok (require (is_some (vm_by_name (vm_role d s))) (Refusal.unknown_vm (vm_role d s))) _ r
          h1 in
      let (m, em, h3) = >>=-ok (with_access d c s) _ r h2 in
      let (p, ep, h4) = >>=-ok (expect d.plugin_cache Refusal.no_plugin_cache) _ r h3 in
      let (names, both) =
        with_access-AreBoth m k (named_creds-AreCreds d.env c (vm_role d s)) access_creds-AreCreds
          em in
      subst
        (λ (t : Runner).
          IsBinary t.bin
          × (getenv t.env k
              ≡ or_else (or_else (lookup k access_creds) (lookup k vm_creds)) (getenv d.environ k)))
        (ok-injective (record { bin = b; env = run_env m p d.environ }) r h4)
        (
          binary-IsBinary _ b refl (map_err-ok _ _ b eb),
          rw (getenv-run_env m p d.environ k names hk n, both) refl,
        )
