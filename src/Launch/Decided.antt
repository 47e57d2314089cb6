-- ===== src/Launch/Decided.antt =====
-- How runLaunchCmd ends: with a launch that may go on, or one that was cancelled.
use interview_labs.Prelude.{
  Text, Bool, true, false, ◌&&◌, ◌||◌, not, Option, some, ◌≡◌, ◌⊎◌, inl, inr, refl, sym, ap, ◌∙◌,
  arith, All, Bool-cases, if◌then◌else◌, is_empty, find_first,
}
use interview_labs.Prelude.Outcome.{
  Outcome, ok, err, >>=-ok, ok-injective, require, expect, require-ok, expect-ok,
}
use interview_labs.Pack.{Bundle}
use interview_labs.Images.{resolve_images, validate}
use interview_labs.Providers.{Provider, SelectError, select_vm_provider, is_vm, is_some}
use interview_labs.Providers.Roles.{select_vm_provider-IsSelected}
use interview_labs.Session.Store.{list}
use interview_labs.Launch.Plan.{
  Flags, Answers, Machine, PlanError, Plan, CloudPlan, Decision, cancelled, provision, run_local,
  ensure_bundle, remember, profile_for, key_source, ensure_region_size, confirm_gate, plan_cloud,
  is_local, wants_kind, plan_local, run_launch_cmd,
}
use interview_labs.Launch.Planned.{
  find_first-none, IsPlanned, ensure_bundle-FromPack, key_source-KeyFor, profile_for-BundleKey,
}

not-true : (b : Bool) → not b ≡ true → b ≡ false
not-true b h = ground arith

or_has : (b c : Bool) → not b || c ≡ true → (b ≡ false) ⊎ (c ≡ true)
or_has b c h = ground arith

asked :
    (t y b : Bool) (o : Outcome PlanError Bool)
    → t ≡ true
    → y ≡ false
    → (if not t || y then ok true else o) ≡ ok b
    → o ≡ ok b
asked true false b o p q h = h
asked true true b o p q h = ground arith
asked false y b o p q h = ground arith

placed_by :
    (r s t : Bool) (flags picks : Text × Text) (o : Outcome PlanError (Text × Text))
    → (if not r && not s then ok flags else if not t then err PlanError.no_region_or_size else o)
      ≡ ok picks
    → ((r ≡ false) × (s ≡ false) × (picks ≡ flags)) ⊎ ((t ≡ true) × (o ≡ ok picks))
placed_by false false t flags picks o h = inl (refl, refl, sym (ok-injective _ _ h))
placed_by true s true flags picks o h = inr (refl, h)
placed_by false true true flags picks o h = inr (refl, h)
placed_by true s false flags picks o h = ground arith
placed_by false true false flags picks o h = ground arith

written :
    (b : Bool) (p picks : Text × Text)
    → (if b then ok p else err PlanError.unwritten) ≡ ok picks
    → p ≡ picks
written true p picks h = ok-injective _ _ h
written false p picks h = ground arith

module _ (w : Machine) (a : Answers) (f : Flags) where
  -- Off a terminal the launch is meant; on it, either the flag or the operator says yes.
  abbrev pub Consent : Type 0
  Consent = (a.is_tty ≡ false) ⊎ ((f.yes ≡ true) ⊎ (a.confirm ≡ some true))

  abbrev pub IsRefused : Type 0
  IsRefused = (a.is_tty ≡ true) × (f.yes ≡ false) × (a.confirm ≡ some false)

  -- Region and size are those of the flags if both are given, and else those of the forms.
  abbrev pub IsPlaced : Text × Text → Type 0
  IsPlaced picks =
      ((is_empty f.region ≡ false) × (is_empty f.size ≡ false) × (picks ≡ (f.region, f.size)))
      ⊎ ((a.is_tty ≡ true) × (a.region_size ≡ some picks))

  pub record IsCloud (c : CloudPlan) : Type 0 where
    pub planned : IsPlanned w a f c.plan
    pub is_hosted : is_vm c.plan.host ≡ true
    pub consent : Consent
    pub quoted : validate c.images ≡ true
    pub terraform : w.terraform ≡ some c.terraform
    pub placed : IsPlaced (c.region, c.size)

  pub record IsHere (p : Plan) : Type 0 where
    pub planned : IsPlanned w a f p
    pub is_bare : is_vm p.host ≡ false
    pub alone : All (λ s. is_local s ≡ false) (list w.store)
    pub has_tools : (wants_kind w a f p.bundle ≡ false) ⊎ (w.has_kind_bins ≡ true)

  pub IsDecided : Decision → Type 0
  IsDecided cancelled = IsRefused
  IsDecided (provision c) = IsCloud c
  IsDecided (run_local p) = IsHere p

  ensure_region_size-IsPlaced :
      (picks : Text × Text) → ensure_region_size w a f ≡ ok picks → IsPlaced picks
  unfolding ensure_region_size
  ensure_region_size-IsPlaced picks h =
      elim (placed_by (is_empty f.region) (is_empty f.size) a.is_tty (f.region, f.size) picks _ h) [
        | inl k ↦ inl k
        | inr (t, e) ↦
            (let (p, e1, k) = >>=-ok (expect a.region_size PlanError.left) _ picks e in
              inr (t, expect-ok _ _ p e1 ∙ ap some (written w.can_write p picks k)))
      ]

  confirm_gate-Consent : confirm_gate w a f ≡ ok true → Consent
  unfolding confirm_gate
  confirm_gate-Consent h = elim (Bool-cases a.is_tty) [
    | inl t ↦ elim (Bool-cases f.yes) [
      | inl y ↦ inr (inl y)
      | inr y ↦ inr (inr (expect-ok a.confirm PlanError.left true (asked _ _ _ _ t y h)))
    ]
    | inr t ↦ inl t
  ]

  confirm_gate-IsRefused : confirm_gate w a f ≡ ok false → IsRefused
  unfolding confirm_gate
  confirm_gate-IsRefused h = elim (Bool-cases a.is_tty) [
    | inl t ↦ elim (Bool-cases f.yes) [
      | inl y ↦ ground (arith, t, y, h)
      | inr y ↦ (t, y, expect-ok a.confirm PlanError.left false (asked _ _ _ _ t y h))
    ]
    | inr t ↦ ground (arith, t, h)
  ]

  gate-IsDecided :
      (c : CloudPlan) (b : Bool) (d : Decision)
      → (Consent → IsCloud c)
      → confirm_gate w a f ≡ ok b
      → ◌≡◌ {A = Outcome PlanError Decision} (if b then ok (provision c) else ok cancelled) (ok d)
      → IsDecided d
  unfolding IsDecided
  gate-IsDecided c true d k g e = rw (sym (ok-injective _ _ e)) (k (confirm_gate-Consent g))
  gate-IsDecided c false d k g e = rw (sym (ok-injective _ _ e)) (confirm_gate-IsRefused g)

  plan_cloud-IsDecided :
      (p : Plan) (d : Decision)
      → IsPlanned w a f p
      → is_vm p.host ≡ true
      → plan_cloud w a f p ≡ ok d
      → IsDecided d
  unfolding plan_cloud IsDecided
  plan_cloud-IsDecided p d i v h =
      let images = resolve_images w.build f.images p.profile in
      let (u, e1, k1) = >>=-ok (require (validate images) PlanError.bad_images) _ d h in
      let (t, e2, k2) = >>=-ok (expect w.terraform PlanError.no_terraform) _ d k1 in
      let (picks, e3, k3) = >>=-ok (ensure_region_size w a f) _ d k2 in
      let (b, e4, k4) = >>=-ok (confirm_gate w a f) _ d k3 in
      gate-IsDecided _ b d
        (λ consent. record {
          planned = i;
          is_hosted = v;
          consent = consent;
          quoted = require-ok _ _ u e1;
          terraform = expect-ok _ _ t e2;
          placed = ensure_region_size-IsPlaced picks e3;
        })
        e4 k4

  plan_local-IsDecided :
      (p : Plan) (d : Decision)
      → IsPlanned w a f p
      → is_vm p.host ≡ false
      → plan_local w a f p ≡ ok d
      → IsDecided d
  unfolding plan_local IsDecided
  plan_local-IsDecided p d i v h =
      let (u, e1, k1) =
        >>=-ok
          (require (not (is_some (find_first (is_local) (list w.store)))) PlanError.local_exists) _
          d h in
      let (u', e2, k2) =
        >>=-ok (require (not (wants_kind w a f p.bundle) || w.has_kind_bins) PlanError.no_kind_bins)
          _ d k1 in
      rw (sym (ok-injective _ _ k2)) (record {
        planned = i;
        is_bare = v;
        alone = find_first-none _ _ (not-true _ (require-ok _ _ u e1));
        has_tools = or_has _ _ (require-ok _ _ u' e2);
      })

  remember-ok :
      (o : Outcome SelectError Provider) (p : Provider) → remember w a f o ≡ ok p → o ≡ ok p
  unfolding remember
  remember-ok (err e) p h = ground arith
  remember-ok (ok q) p h = elim (Bool-cases w.can_write) [
    | inl c ↦ ap ok (ok-injective _ _ (rw c at h))
    | inr c ↦ ground (arith, rw c at h)
  ]

  is_planned :
      (b : Option Bundle) (host : Provider) (profile : Text)
      → ensure_bundle w a f ≡ ok b
      → remember w a f (select_vm_provider w.configured f.provider a.is_tty a.provider) ≡ ok host
      → profile_for w a f b ≡ ok profile
      → IsPlanned w a f
          (record { host = host; profile = profile; bundle = b; ai = key_source w a f profile })
  is_planned b host profile e1 e2 e3 = record {
    selected =
        select_vm_provider-IsSelected w.configured f.provider a.is_tty a.provider host
          (remember-ok _ host e2);
    from_pack = ensure_bundle-FromPack w a f b e1;
    key = key_source-KeyFor w a f profile;
    bundle_key = profile_for-BundleKey w a f b profile e3;
  }

  dispatched :
      (p : Plan) (d : Decision)
      → IsPlanned w a f p
      → (if is_vm p.host then plan_cloud w a f p else plan_local w a f p) ≡ ok d
      → IsDecided d
  dispatched p d i h = elim (Bool-cases (is_vm p.host)) [
    | inl v ↦ plan_cloud-IsDecided p d i v (rw (v, if◌then◌else◌) at h)
    | inr v ↦ plan_local-IsDecided p d i v (rw (v, if◌then◌else◌) at h)
  ]

  -- When a launch command does not fail, it is cancelled only by an operator who refuses at a terminal.
  -- What goes on to the cloud is hosted by a configured provider, the one that the flag names if there is
  -- one, with images that are safe to quote, terraform, and a region and size from the flags or the
  -- forms; where there is a terminal, the operator passed --yes or confirmed. What goes on to this machine is alone there, and has the tools
  -- of its cluster. Either way the bundle is one of the pack, a key is minted only for a profile whose
  -- name ends in -ai and not against the flag, and for a bundle whenever a provider of keys is configured.
  pub run_launch_cmd-IsDecided : (d : Decision) → run_launch_cmd w a f ≡ ok d → IsDecided d
  unfolding run_launch_cmd
  run_launch_cmd-IsDecided d h =
      let (b, e1, k1) = >>=-ok (ensure_bundle w a f) _ d h in
      let (host, e2, k2) =
        >>=-ok (remember w a f (select_vm_provider w.configured f.provider a.is_tty a.provider)) _ d
          k1 in
      let (profile, e3, k3) = >>=-ok (profile_for w a f b) _ d k2 in
      dispatched _ d (is_planned b host profile e1 e2 e3) k3
