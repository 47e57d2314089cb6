-- ===== src/Launch/Phased.antt =====
-- In which phase, on disk, each step of a launch runs.
use interview_labs.Prelude.{
  ℕ, Bool, true, false, ◌&&◌, ◌==◌, List, [], ◌∷◌, ◌≡◌, ◌∙◌, ap, refl, Option, none, some,
}
use interview_labs.Session.Metadata.{Metadata, Phase}
use interview_labs.Pipeline.{
  Result, ok, err, after_error, Op, Event, State, World, Act, Nothing, pure, gets, ◌>>=◌, ◌>>◌,
  or_else, perform, write,
}
use interview_labs.Pipeline.Triples.{
  Post, Triple, Keeps, Triple-bind, Triple-gets, Triple-pure, Triple-after, Triple-perform,
  Triple-write, Triple-weaken,
}
use interview_labs.Launch.Phases.{when, set_phase}
use native.Mathlib.Omega.{arith}

abbrev pub index : Phase → ℕ
index Phase.session = 0
index Phase.stage = 1
index Phase.terraform_init = 2
index Phase.terraform_apply = 3
index Phase.outputs = 4
index Phase.wait_ssh = 5
index Phase.cloud_init = 6
index Phase.push_stack = 7
index Phase.pull_stack = 8
index Phase.install_kind = 9
index Phase.push_payload = 10
index Phase.create_cluster = 11
index Phase.ai_mint = 12
index Phase.compose_up = 13
index Phase.setup = 14
index Phase.summary = 15

-- The phase that names a step; the log files, the metadata and what has no phase of its own have none.
abbrev pub phase_of : Op → Option Phase
phase_of Op.stage_terraform = some Phase.stage
phase_of Op.stage_stack = some Phase.stage
phase_of Op.stage_payload = some Phase.stage
phase_of Op.write_override = some Phase.stage
phase_of Op.user_data = some Phase.stage
phase_of Op.write_tfvars = some Phase.stage
phase_of Op.tf_init = some Phase.terraform_init
phase_of Op.tf_apply = some Phase.terraform_apply
phase_of Op.tf_outputs = some Phase.outputs
phase_of Op.cloud_init_wait = some Phase.cloud_init
phase_of (Op.push_file name) = some Phase.push_stack
phase_of (Op.pull gateway vscode) = some Phase.pull_stack
phase_of Op.install_kind = some Phase.install_kind
phase_of Op.write_payload_tar = some Phase.push_payload
phase_of Op.push_payload = some Phase.push_payload
phase_of (Op.cluster_command n) = some Phase.create_cluster
phase_of Op.create_local_cluster = some Phase.create_cluster
phase_of (Op.mint hash) = some Phase.ai_mint
phase_of (Op.compose_up password key) = some Phase.compose_up
phase_of (Op.run_setup scenarios) = some Phase.setup
phase_of _ = none

abbrev pub is_phase : Option Phase → Phase → Bool
is_phase none p = true
is_phase (some q) p = index q == index p

-- Each step ran with its phase on disk.
abbrev pub in_phase : List Event → Bool
in_phase [] = true
in_phase (e ∷ t) = is_phase (phase_of e.op) e.phase && in_phase t

abbrev pub Phased : State → Type 0
Phased s = in_phase s.trace ≡ true

-- The phase is `p`, in memory and on disk.
abbrev pub At : Phase → State → Type 0
At p s = Phased s × (s.saved.phase ≡ p) × (s.meta.phase ≡ p)

abbrev pub Within : {A : Type 0} → Phase → Act A → Type 0
Within p m = Triple (At p) (At p) Phased m

within :
    (o : Option Phase) (p q : Phase) (b : Bool)
    → is_phase o p ≡ true
    → q ≡ p
    → b ≡ true
    → is_phase o q && b ≡ true
within none p q b e f g = g
within (some o) p q b e f g = ground (arith, ap index f)

module _ (w : World) where
  pub Phased-perform :
      (op : Op) → ((q : Phase) → is_phase (phase_of op) q ≡ true) → Keeps Phased (perform w op)
  Phased-perform op e =
      Triple-perform w op (λ s k. ground (arith, e s.saved.phase))
        (λ s k. ground (arith, e s.saved.phase))

  pub Phased-write : (f : Metadata → Metadata) → Keeps Phased (write w f)
  Phased-write f = Triple-write w f (λ s k. k) (λ s k. k)

module _ (w : World) (p : Phase) where
  pub Within-perform : (op : Op) → is_phase (phase_of op) p ≡ true → Within p (perform w op)
  Within-perform op e =
      Triple-perform w op (λ s k. within (phase_of op) p s.saved.phase _ e k.1 k.0)
        (λ s k. (within (phase_of op) p s.saved.phase _ e k.1 k.0, k.1, k.2))

  pub Within-write :
      (f : Metadata → Metadata) → ((m : Metadata) → (f m).phase ≡ m.phase) → Within p (write w f)
  Within-write f e = Triple-write w f (λ s k. k.0) (λ s k. (k.0, e s.meta ∙ k.2, e s.meta ∙ k.2))

  pub Triple-set_phase : Triple Phased (At p) Phased (set_phase w p)
  unfolding set_phase
  Triple-set_phase = Triple-write w _ (λ s k. k) (λ s k. (k, refl, refl))

  pub Within-when : (b : Bool) (m : Act Nothing) → Within p m → Within p (when b m)
  Within-when true m k = k
  Within-when false m k = Triple-pure tt (λ s h. h)

  pub Within-or_else :
      (m : Act Nothing) (n : Act Nothing) → Within p m → Keeps Phased n → Within p (or_else m n)
  unfolding or_else
  Within-or_else m n km kn = record { at = λ s h. after (m s).0 (m s).1 (km.at s h) }
    where
      after :
          (r : Result Nothing) (s : State)
          → Post (At p) Phased r s
          → Post (At p) Phased (after_error r n s).0 (after_error r n s).1
      after (ok a) s h = h
      after (err e) s h = Triple-after n s kn h

module _ {A B : Type 0} (p : Phase) where
  pub Within-bind :
      (m : Act A) (f : A → Act B) → Within p m → ((a : A) → Within p (f a)) → Within p (m >>= f)
  Within-bind m f km kf = Triple-bind m f km kf

module _ {A : Type 0} (w : World) (p : Phase) where
  pub Phased-phase : (m : Act A) → Within p m → Keeps Phased (set_phase w p >> m)
  Phased-phase m k =
      Triple-bind _ _ (Triple-set_phase w p)
        (λ _. Triple-weaken _ (λ s h. h) (λ s h. h.0) (λ s h. h) k)

  pub Within-gets : (f : State → A) → Within p (gets f)
  Within-gets f = Triple-gets f

  pub Within-pure : (a : A) → Within p (pure a)
  Within-pure a = Triple-pure a (λ s h. h)

pub ruleset phase_rules =
    (Phased-phase, Within-bind, Within-gets, Within-pure, Within-when, Within-perform, Within-write)
