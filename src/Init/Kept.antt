-- ===== src/Init/Kept.antt =====
-- What one Configure stores, provider by provider.
use interview_labs.Prelude.{
  ℕ, Text, Bool, true, false, Option, none, some, List, [], ◌∷◌, if◌then◌else◌, ◌≡◌, ◌⊎◌, inl, inr,
  refl, Bool-cases,
}
use interview_labs.Prelude.Outcome.{Outcome, ok, ◌>>=◌, >>=-ok, ok-injective}
use interview_labs.Config.{Config}
use interview_labs.Credentials.{Vendor}
use interview_labs.Root.{CmdError}
use interview_labs.Init.{
  Zone, Round, passes, configure_digital_ocean, configure_hetzner, configure_aws,
  configure_open_router, configure_cloudflare, resolve_zone, configure,
}
use mathlib.Core.Path.{subst}

-- The secrets that a configuration holds for a provider.
abbrev pub secrets : Vendor → Config → List Text
secrets Vendor.digital_ocean c = c.providers.digital_ocean.token ∷ []
secrets Vendor.hetzner c = c.providers.hetzner.token ∷ []
secrets Vendor.aws c = c.providers.aws.access_key_id ∷ c.providers.aws.secret_access_key ∷ []
secrets Vendor.open_router c = c.providers.open_router.management_key ∷ []
secrets Vendor.cloudflare c = c.providers.cloudflare.api_token ∷ []

-- What the operator entered for a provider in a round.
abbrev pub entered : Vendor → Round → Outcome CmdError (List Text)
entered Vendor.digital_ocean r = r.token >>= λ t. ok (t ∷ [])
entered Vendor.hetzner r = r.token >>= λ t. ok (t ∷ [])
entered Vendor.aws r = r.pair >>= λ p. ok (p.0 ∷ p.1 ∷ [])
entered Vendor.open_router r = r.key_cap >>= λ k. ok (k.0 ∷ [])
entered Vendor.cloudflare r = r.token >>= λ t. ok (t ∷ [])

-- The secrets were entered in this round, and the vendor accepted them.
abbrev pub IsVetted : Vendor → List Text → Round → Type 0
IsVetted v creds r = (entered v r ≡ ok creds) × (passes r v creds ≡ true)

-- Nothing changed for the provider, or what stands there now was vetted in this round.
abbrev pub IsKept : Vendor → Round → Config → Config → Type 0
IsKept v r c c' = (secrets v c' ≡ secrets v c) ⊎ IsVetted v (secrets v c') r

if-IsKept :
    (v : Vendor) (r : Round) (c new : Config) (b : Bool)
    → (b ≡ true → IsKept v r c new)
    → IsKept v r c (if b then new else c)
if-IsKept v r c new true h = h refl
if-IsKept v r c new false h = inl refl

stored_digital_ocean :
    (v : Vendor) (r : Round) (c : Config) (t : Text)
    → r.token ≡ ok t
    → passes r Vendor.digital_ocean (t ∷ []) ≡ true
    → IsKept v r c (record c {
      providers = record c.providers {
        digital_ocean = record c.providers.digital_ocean { token = t };
      };
    })
stored_digital_ocean Vendor.digital_ocean r c t e q = inr (rw e refl, q)
stored_digital_ocean Vendor.hetzner r c t e q = inl refl
stored_digital_ocean Vendor.aws r c t e q = inl refl
stored_digital_ocean Vendor.open_router r c t e q = inl refl
stored_digital_ocean Vendor.cloudflare r c t e q = inl refl

configure_digital_ocean-IsKept :
    (v : Vendor) (r : Round) (c c' : Config) → configure_digital_ocean r c ≡ ok c' → IsKept v r c c'
unfolding configure_digital_ocean
configure_digital_ocean-IsKept v r c c' h =
    let (t, e, k) = >>=-ok r.token _ c' h in
    subst (IsKept v r c) (ok-injective _ c' k) (
      if-IsKept v r c _ (passes r Vendor.digital_ocean (t ∷ []))
        (λ q. stored_digital_ocean v r c t e q))

stored_hetzner :
    (v : Vendor) (r : Round) (c : Config) (t : Text)
    → r.token ≡ ok t
    → passes r Vendor.hetzner (t ∷ []) ≡ true
    → IsKept v r c (record c {
      providers = record c.providers { hetzner = record c.providers.hetzner { token = t } };
    })
stored_hetzner Vendor.digital_ocean r c t e q = inl refl
stored_hetzner Vendor.hetzner r c t e q = inr (rw e refl, q)
stored_hetzner Vendor.aws r c t e q = inl refl
stored_hetzner Vendor.open_router r c t e q = inl refl
stored_hetzner Vendor.cloudflare r c t e q = inl refl

configure_hetzner-IsKept :
    (v : Vendor) (r : Round) (c c' : Config) → configure_hetzner r c ≡ ok c' → IsKept v r c c'
unfolding configure_hetzner
configure_hetzner-IsKept v r c c' h =
    let (t, e, k) = >>=-ok r.token _ c' h in
    subst (IsKept v r c) (ok-injective _ c' k)
      (if-IsKept v r c _ (passes r Vendor.hetzner (t ∷ [])) (λ q. stored_hetzner v r c t e q))

stored_aws :
    (v : Vendor) (r : Round) (c : Config) (t : Text × Text)
    → r.pair ≡ ok t
    → passes r Vendor.aws (t.0 ∷ t.1 ∷ []) ≡ true
    → IsKept v r c (record c {
      providers = record c.providers {
        aws = record c.providers.aws { access_key_id = t.0; secret_access_key = t.1 };
      };
    })
stored_aws Vendor.digital_ocean r c t e q = inl refl
stored_aws Vendor.hetzner r c t e q = inl refl
stored_aws Vendor.aws r c t e q = inr (rw e refl, q)
stored_aws Vendor.open_router r c t e q = inl refl
stored_aws Vendor.cloudflare r c t e q = inl refl

configure_aws-IsKept :
    (v : Vendor) (r : Round) (c c' : Config) → configure_aws r c ≡ ok c' → IsKept v r c c'
unfolding configure_aws
configure_aws-IsKept v r c c' h =
    let (t, e, k) = >>=-ok r.pair _ c' h in
    subst (IsKept v r c) (ok-injective _ c' k)
      (if-IsKept v r c _ (passes r Vendor.aws (t.0 ∷ t.1 ∷ [])) (λ q. stored_aws v r c t e q))

stored_open_router :
    (v : Vendor) (r : Round) (c : Config) (t : Text × ℕ)
    → r.key_cap ≡ ok t
    → passes r Vendor.open_router (t.0 ∷ []) ≡ true
    → IsKept v r c (record c {
      providers = record c.providers {
        open_router = record { management_key = t.0; cap_usd = t.1 };
      };
    })
stored_open_router Vendor.digital_ocean r c t e q = inl refl
stored_open_router Vendor.hetzner r c t e q = inl refl
stored_open_router Vendor.aws r c t e q = inl refl
stored_open_router Vendor.open_router r c t e q = inr (rw e refl, q)
stored_open_router Vendor.cloudflare r c t e q = inl refl

configure_open_router-IsKept :
    (v : Vendor) (r : Round) (c c' : Config) → configure_open_router r c ≡ ok c' → IsKept v r c c'
unfolding configure_open_router
configure_open_router-IsKept v r c c' h =
    let (t, e, k) = >>=-ok r.key_cap _ c' h in
    subst (IsKept v r c) (ok-injective _ c' k) (
      if-IsKept v r c _ (passes r Vendor.open_router (t.0 ∷ []))
        (λ q. stored_open_router v r c t e q))

stored_cloudflare :
    (v : Vendor) (r : Round) (c : Config) (t : Text) (z : Zone)
    → r.token ≡ ok t
    → passes r Vendor.cloudflare (t ∷ []) ≡ true
    → IsKept v r c (record c {
      providers = record c.providers {
        cloudflare = record { api_token = t; zone_id = z.id; domain = z.name };
      };
    })
stored_cloudflare Vendor.digital_ocean r c t z e q = inl refl
stored_cloudflare Vendor.hetzner r c t z e q = inl refl
stored_cloudflare Vendor.aws r c t z e q = inl refl
stored_cloudflare Vendor.open_router r c t z e q = inl refl
stored_cloudflare Vendor.cloudflare r c t z e q = inr (rw e refl, q)

configure_cloudflare-IsKept :
    (v : Vendor) (r : Round) (c c' : Config) → configure_cloudflare r c ≡ ok c' → IsKept v r c c'
unfolding configure_cloudflare
configure_cloudflare-IsKept v r c c' h =
    let (t, e, k) = >>=-ok r.token _ c' h in
    elim (Bool-cases (passes r Vendor.cloudflare (t ∷ []))) [
      | inl q ↦
          (let (z, ez, kz) = >>=-ok (resolve_zone r) _ c' (rw q at k) in
            subst (IsKept v r c) (ok-injective _ c' kz) (stored_cloudflare v r c t z e q))
      | inr q ↦ subst (IsKept v r c) (ok-injective c c' (rw q at k)) (inl refl)
    ]

pub configure-IsKept :
    (v : Vendor) (p : Option Vendor) (r : Round) (c c' : Config)
    → configure p r c ≡ ok c'
    → IsKept v r c c'
unfolding configure
configure-IsKept v none r c c' h = subst (IsKept v r c) (ok-injective c c' h) (inl refl)
configure-IsKept v (some Vendor.digital_ocean) r c c' h = configure_digital_ocean-IsKept v r c c' h
configure-IsKept v (some Vendor.hetzner) r c c' h = configure_hetzner-IsKept v r c c' h
configure-IsKept v (some Vendor.aws) r c c' h = configure_aws-IsKept v r c c' h
configure-IsKept v (some Vendor.open_router) r c c' h = configure_open_router-IsKept v r c c' h
configure-IsKept v (some Vendor.cloudflare) r c c' h = configure_cloudflare-IsKept v r c c' h
