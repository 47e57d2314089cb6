-- ===== src/Launch/Planned.antt =====
-- What runLaunchCmd has made sure of when it goes on to a pipeline.
use interview_labs.Prelude.{
  Text, codes, Bool, true, false, ◌&&◌, ◌||◌, not, Option, none, some, List, [], ◌∷◌, ◌++◌, ◌≡◌,
  inl, inr, refl, sym, ap, ◌∙◌, arith, All, Bool-cases, Option-cases, if◌then◌else◌, is_empty,
  text_eq, text_eq_iff, text_eq_refl, find_first, ends_with,
}
use interview_labs.Prelude.Outcome.{ok, ◌>>=◌, >>=-ok, ok-injective, require, expect, expect-ok}
use interview_labs.Pack.{Pack, Bundle, bundle_by_name}
use interview_labs.Providers.{Provider, active_ai, is_some}
use interview_labs.Providers.Roles.{IsSelected}
use interview_labs.Launch.Plan.{
  Flags, Answers, Machine, PlanError, is_ai_profile, Plan, ensure_bundle, profile_for,
  bundle_profile, key_source,
}

pub find_first-none :
    {A : Type 0} (p : A → Bool) (xs : List A)
    → is_some (find_first p xs) ≡ false
    → All (λ x. p x ≡ false) xs
find_first-none p [] h = tt
find_first-none p (x ∷ xs) h = elim (Bool-cases (p x)) [
  | inl e ↦ ground (arith, rw (e, find_first) at h)
  | inr e ↦ (e, find_first-none p xs (rw (e, find_first) at h))
]

same_test :
    (x b : Bundle) (name : Text)
    → text_eq x.name name ≡ true
    → some x ≡ some b
    → text_eq b.name name ≡ true
same_test x b name e h = ground arith

name-find_first :
    (xs : List Bundle) (name : Text) (b : Bundle)
    → find_first (λ x. text_eq x.name name) xs ≡ some b
    → b.name ≡ name
name-find_first [] name b h = ground arith
name-find_first (x ∷ xs) name b h = elim (Bool-cases (text_eq x.name name)) [
  | inl e ↦ (text_eq_iff b.name name).0 (same_test x b name e (rw (e, find_first) at h))
  | inr e ↦ name-find_first xs name b (rw (e, find_first) at h)
]

ends_with-append : (s t : Text) → ends_with (s ++ t) t ≡ true
unfolding ends_with
ends_with-append [] [] = unfold text_eq in refl
ends_with-append [] (c ∷ t) = rw text_eq_refl refl
ends_with-append (c ∷ s) t = ground (arith, ends_with-append s t)

module _ (w : Machine) (a : Answers) (f : Flags) where
  pub FromPack : Option Bundle → Type 0
  FromPack none = Unit
  FromPack (some b) =
      (p : Pack) × (w.resolve_pack f.pack_ref ≡ some p) × (bundle_by_name p b.name ≡ some b)

  -- A key comes from the provider that is configured, and for a profile with AI tools only.
  pub KeyFor : Bool → Text → Option Provider → Type 0
  KeyFor no_ai profile none = Unit
  KeyFor no_ai profile (some p) =
      (no_ai ≡ false) × (is_ai_profile profile ≡ true) × (active_ai w.configured false ≡ some p)

  -- With a bundle, a key comes from the provider that is configured, unless the flag forbids it.
  pub BundleKey : Option Bundle → Option Provider → Type 0
  BundleKey none ai = Unit
  BundleKey (some b) ai = ai ≡ active_ai w.configured f.no_ai

  pub record IsPlanned (p : Plan) : Type 0 where
    pub selected : IsSelected w.configured f.provider p.host
    pub from_pack : FromPack p.bundle
    pub key : KeyFor f.no_ai p.profile p.ai
    pub bundle_key : BundleKey p.bundle p.ai

  found-FromPack :
      (p : Pack) (name : Text) (b : Bundle)
      → w.resolve_pack f.pack_ref ≡ some p
      → bundle_by_name p name ≡ some b
      → FromPack (some b)
  unfolding FromPack bundle_by_name
  found-FromPack p name b e h =
      (p, e, ap (bundle_by_name p) (name-find_first p.bundles name b h) ∙ h)

  named-FromPack :
      (p : Pack) (name : Text) (b : Option Bundle)
      → w.resolve_pack f.pack_ref ≡ some p
      → (if is_empty name
          then ok none
          else (expect (bundle_by_name p name) PlanError.no_bundle >>= λ x. ok (some x)))
        ≡ ok b
      → FromPack b
  named-FromPack p name none e h = unfold FromPack in tt
  named-FromPack p name (some b) e h = elim (Bool-cases (is_empty name)) [
    | inl q ↦ ground (arith, rw q at h)
    | inr q ↦
        (let (x, e1, k) =
            >>=-ok (expect (bundle_by_name p name) PlanError.no_bundle) (λ x. ok (some x)) (some b)
              (rw q at h) in
          found-FromPack p name b e (expect-ok _ _ x e1 ∙ ok-injective _ _ k))
  ]

  pub ensure_bundle-FromPack : (b : Option Bundle) → ensure_bundle w a f ≡ ok b → FromPack b
  unfolding ensure_bundle FromPack
  ensure_bundle-FromPack b h =
      let (u, e1, k1) =
        >>=-ok (require (is_empty f.bundle || is_empty f.profile) PlanError.exclusive_flags) _ b
          h in
      let (p, e2, k2) = >>=-ok (expect (w.resolve_pack f.pack_ref) PlanError.no_pack) _ b k1 in
      let (name, e3, k3) =
        >>=-ok
          (if is_empty f.bundle && a.is_tty then expect a.bundle PlanError.left else ok f.bundle) _
          b k2 in
      named-FromPack p name b (expect-ok _ _ p e2) k3

  active_ai-KeyFor :
      (no_ai is_ai : Bool) (profile : Text)
      → is_ai_profile profile ≡ is_ai
      → KeyFor no_ai profile (active_ai w.configured (no_ai || not is_ai))
  unfolding KeyFor
  active_ai-KeyFor true is_ai profile e = unfold active_ai in tt
  active_ai-KeyFor false false profile e = unfold active_ai in tt
  active_ai-KeyFor false true profile e = elim (Option-cases (active_ai w.configured false)) [
    | inl o ↦ rw o tt
    | inr (p, o) ↦ rw o (refl, e, o)
  ]

  pub key_source-KeyFor : (profile : Text) → KeyFor f.no_ai profile (key_source w a f profile)
  unfolding key_source
  key_source-KeyFor profile = active_ai-KeyFor f.no_ai (is_ai_profile profile) profile refl

  active_ai-bundle :
      (no_ai : Bool) (image : Text)
      → active_ai w.configured (
          no_ai
          || not (
              is_ai_profile
                (if is_some (active_ai w.configured no_ai) then image ++ codes "-ai" else image)))
        ≡ active_ai w.configured no_ai
  active_ai-bundle true image = unfold active_ai in refl
  active_ai-bundle false image = elim (Option-cases (active_ai w.configured false)) [
    | inl e ↦ rw e (elim (Bool-cases (is_ai_profile image)) [
      | inl q ↦ rw q e
      | inr q ↦ rw q (unfold active_ai in refl)
    ])
    | inr (p, e) ↦ rw (e, ends_with-append image (codes "-ai")) e
  ]

  bundle_profile-BundleKey :
      (b : Bundle) → key_source w a f (bundle_profile w a f b) ≡ active_ai w.configured f.no_ai
  unfolding key_source bundle_profile
  bundle_profile-BundleKey b = active_ai-bundle f.no_ai b.image

  pub profile_for-BundleKey :
      (b : Option Bundle) (profile : Text)
      → profile_for w a f b ≡ ok profile
      → BundleKey b (key_source w a f profile)
  unfolding BundleKey profile_for
  profile_for-BundleKey none profile h = tt
  profile_for-BundleKey (some b) profile h =
      ap (key_source w a f) (sym (ok-injective _ _ h)) ∙ bundle_profile-BundleKey b
