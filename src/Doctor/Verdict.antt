-- ===== src/Doctor/Verdict.antt =====
-- What the verdict of doctor means.
use interview_labs.Prelude.{
  ℕ, suc, ◌+◌, Text, codes, Bool, true, false, ◌&&◌, not, ltb, Option, none, some, List, [], ◌∷◌,
  ◌++◌, ◌≡◌, ◌↔◌, ◌⊎◌, inl, inr, refl, sym, ◌∙◌, arith, All, Any, Bool-cases, Option-cases,
  if◌then◌else◌,
}
use interview_labs.Prelude.Outcome.{ok, err}
use interview_labs.Providers.{Provider, providers, is_some}
use interview_labs.Doctor.{
  Host, Check, Next, check_terraform, check_ssh_client, check_kind_tool, check_kind_tools,
  check_state_dirs, is_validator, each_cred, cred_checks, count_problems, doctor_next, tool_checks,
  run_doctor, Tool, found_problems, creds_of, check_version, is_below, kind_floor, kubectl_floor,
}

-- A provider with credentials, if it is configured, has valid ones.
abbrev HasValid : (Text → Bool) → (Text → Bool) → Provider → Type 0
HasValid configured valid p =
    (is_validator p ≡ false) ⊎ ((configured p.name ≡ false) ⊎ (valid p.name ≡ true))

-- A provider with credentials is configured.
abbrev IsUsable : (Text → Bool) → Provider → Type 0
IsUsable configured p = (is_validator p ≡ true) × (configured p.name ≡ true)

-- The configuration is read, and each provider that is configured has valid credentials.
abbrev pub AreValid : Option (Text → Bool) → (Text → Bool) → Type 0
AreValid none valid = ⊥
AreValid (some configured) valid = All (HasValid configured valid) providers

-- Some provider with credentials is configured.
abbrev pub SomeUsable : Option (Text → Bool) → Type 0
SomeUsable none = ⊥
SomeUsable (some configured) = Any (IsUsable configured) providers

-- Terraform or tofu is found, the directories can be used, the configuration is read, and each provider
-- that is configured has valid credentials. The ssh client and the tools of a cluster do not count, and
-- that a provider is configured does not either.
pub record IsHealthy (h : Host) : Type 0 where
  pub terraform : is_some h.terraform ≡ true
  pub dirs : (h.config_dir && (h.state_dir && h.plugin_cache)) ≡ true
  pub valid : AreValid h.configured h.valid

count_problems-append :
    (xs ys : List Check) → count_problems (xs ++ ys) ≡ count_problems xs + count_problems ys
unfolding count_problems
count_problems-append [] ys = omega arith
count_problems-append (x ∷ xs) ys = ground (arith, count_problems-append xs ys)

problem-check_ssh_client : (h : Host) → (check_ssh_client h).problem ≡ false
unfolding check_ssh_client
problem-check_ssh_client h = elim (Bool-cases h.ssh) [ inl e ↦ rw e refl | inr e ↦ rw e refl ]

problem-check_version :
    (bin : Text) (floor : ℕ × ℕ) (v : Option (ℕ × ℕ)) → (check_version bin floor v).problem ≡ false
problem-check_version bin floor none = refl
problem-check_version bin floor (some v) = elim (Bool-cases (is_below v floor)) [
  | inl e ↦ rw e refl
  | inr e ↦ rw e refl
]

problem-check_kind_tool :
    (bin : Text) (floor : ℕ × ℕ) (t : Tool) → (check_kind_tool bin floor t).problem ≡ false
unfolding check_kind_tool
problem-check_kind_tool bin floor t = elim (Bool-cases t.on_path) [
  | inl e ↦ rw e (problem-check_version bin floor t.version)
  | inr e ↦ rw e refl
]

problem-check_terraform : (h : Host) → (check_terraform h).problem ≡ not (is_some h.terraform)
unfolding check_terraform
problem-check_terraform h = elim (Option-cases h.terraform) [
  | inl e ↦ rw e refl
  | inr (bin, e) ↦ rw e refl
]

count_problems-check_state_dirs :
    (h : Host)
    → (count_problems (check_state_dirs h) ≡ 0)
      ↔ ((h.config_dir && (h.state_dir && h.plugin_cache)) ≡ true)
unfolding count_problems check_state_dirs
count_problems-check_state_dirs h =
    elim (Bool-cases (h.config_dir && (h.state_dir && h.plugin_cache))) [
      | inl e ↦ rw e (λ u. refl, λ u. refl)
      | inr e ↦ rw e (ground arith)
    ]

-- Terraform and the directories are the only tools that count.
count_problems-tool_checks :
    (h : Host)
    → count_problems (tool_checks h)
      ≡ (if is_some h.terraform then 0 else 1) + count_problems (check_state_dirs h)
unfolding count_problems tool_checks check_kind_tools
count_problems-tool_checks h =
    rw
      (
        problem-check_terraform h,
        problem-check_ssh_client h,
        problem-check_kind_tool (codes "kind") kind_floor h.kind,
        problem-check_kind_tool (codes "kubectl") kubectl_floor h.kubectl,
      )
      (ground arith)

true-false : true ≡ false → ⊥
true-false h = ground arith

never_zero : (n : ℕ) → suc n ≡ 0 → ⊥
never_zero n h = omega (arith, h)

no_case : (true ≡ false) ⊎ ((true ≡ false) ⊎ (false ≡ true)) → ⊥
no_case h = ground arith

count_problems-each_cred :
    (configured valid : Text → Bool) (ps : List Provider)
    → (count_problems (each_cred configured valid ps).0 ≡ 0) ↔ All (HasValid configured valid) ps
unfolding count_problems each_cred
count_problems-each_cred configured valid [] = (λ h. tt, λ h. refl)
count_problems-each_cred configured valid (p ∷ ps) =
    let (r, s) = count_problems-each_cred configured valid ps in
    elim (Bool-cases (is_validator p)) [
      | inr v ↦ rw v (λ h. (inl refl, r h), λ k. s k.1)
      | inl v ↦ elim (Bool-cases (configured p.name)) [
        | inr c ↦ rw (v, c) (λ h. (inr (inl refl), r h), λ k. s k.1)
        | inl c ↦ elim (Bool-cases (valid p.name)) [
          | inl g ↦ rw (v, c, g) (λ h. (inr (inr refl), r h), λ k. s k.1)
          | inr g ↦ rw (v, c, g) (λ h. elim (never_zero _ h) [ ], λ k. elim (no_case k.0) [ ])
        ]
      ]
    ]

each_cred-IsUsable :
    (configured valid : Text → Bool) (ps : List Provider)
    → ((each_cred configured valid ps).1 ≡ true) ↔ Any (IsUsable configured) ps
unfolding each_cred
each_cred-IsUsable configured valid [] = (λ h. elim (true-false (sym h)) [ ], λ h. elim h [ ])
each_cred-IsUsable configured valid (p ∷ ps) =
    let (r, s) = each_cred-IsUsable configured valid ps in
    elim (Bool-cases (is_validator p)) [
      | inr v ↦
          rw v
            (λ h. inr (r h), λ k. elim k [ inl u ↦ elim (true-false (sym u.0)) [ ] | inr t ↦ s t ])
      | inl v ↦ elim (Bool-cases (configured p.name)) [
        | inr c ↦
            rw (v, c)
              (
                λ h. inr (r h),
                λ k. elim k [ inl u ↦ elim (true-false (sym u.1)) [ ] | inr t ↦ s t ],
              )
        | inl c ↦ rw (v, c) (λ h. inl (refl, refl), λ k. refl)
      ]
    ]

count_problems-creds_of :
    (o : Option (Text → Bool)) (valid : Text → Bool)
    → (count_problems (creds_of o valid).0 ≡ 0) ↔ AreValid o valid
unfolding count_problems
count_problems-creds_of none valid = (λ h. elim (never_zero 0 h) [ ], λ k. elim k [ ])
count_problems-creds_of (some configured) valid =
    count_problems-each_cred configured valid providers

creds_of-SomeUsable :
    (o : Option (Text → Bool)) (valid : Text → Bool) → ((creds_of o valid).1 ≡ true) ↔ SomeUsable o
creds_of-SomeUsable none valid = (λ h. elim (true-false (sym h)) [ ], λ k. elim k [ ])
creds_of-SomeUsable (some configured) valid = each_cred-IsUsable configured valid providers

sum_zero : (a b : ℕ) → a + b ≡ 0 → (a ≡ 0) × (b ≡ 0)
sum_zero a b h = (omega (arith, h), omega (arith, h))

one_unless : (b : Bool) → ◌≡◌ {A = ℕ} (if b then 0 else 1) 0 → b ≡ true
one_unless b h = ground arith

verdict : (n : ℕ) → ((if ltb 0 n then err found_problems else ok tt) ≡ ok tt) ↔ (n ≡ 0)
verdict n = elim (Bool-cases (ltb 0 n)) [
  | inl e ↦ rw e (ground (arith, e))
  | inr e ↦ rw e (λ h. ground (arith, e), λ h. refl)
]

doctor_next-launch :
    (n c : ℕ) (b : Bool) → (doctor_next n c b ≡ Next.launch) ↔ ((n ≡ 0) × (b ≡ true))
unfolding doctor_next
doctor_next-launch n c b = ground arith

module _ (h : Host) where
  problems : ℕ
  problems = count_problems (tool_checks h ++ (cred_checks h).0)

  problems-IsHealthy : problems ≡ 0 → IsHealthy h
  unfolding problems cred_checks
  problems-IsHealthy z =
      let (t, c) = sum_zero _ _ (sym (count_problems-append (tool_checks h) _) ∙ z) in
      let (b, d) = sum_zero _ _ (sym (count_problems-tool_checks h) ∙ t) in
      record {
        terraform = one_unless (is_some h.terraform) b;
        dirs = (count_problems-check_state_dirs h).0 d;
        valid = (count_problems-creds_of h.configured h.valid).0 c;
      }

  IsHealthy-problems : IsHealthy h → problems ≡ 0
  unfolding problems cred_checks count_problems check_state_dirs
  IsHealthy-problems k =
      rw
        (
          count_problems-append,
          count_problems-tool_checks,
          k.terraform,
          (count_problems-check_state_dirs h).1 k.dirs,
          (count_problems-creds_of h.configured h.valid).1 k.valid,
        )
        refl

-- Doctor succeeds exactly on a machine where terraform or tofu is found, the three directories can be
-- used, the configuration is read, and each provider that is configured has valid credentials. It names
-- launch as the next command exactly if moreover some provider with credentials is configured.
pub run_doctor-IsHealthy :
    (h : Host)
    → (((run_doctor h).1 ≡ ok tt) ↔ IsHealthy h)
      × (((run_doctor h).0 ≡ Next.launch) ↔ (IsHealthy h × SomeUsable h.configured))
unfolding run_doctor problems cred_checks
run_doctor-IsHealthy h =
    let v = verdict (problems h) in
    let n = doctor_next-launch (problems h) (count_problems (cred_checks h).0) (cred_checks h).1 in
    let u = creds_of-SomeUsable h.configured h.valid in
    (
      (λ e. problems-IsHealthy h (v.0 e), λ k. v.1 (IsHealthy-problems h k)),
      (
        λ e. (problems-IsHealthy h (n.0 e).0, u.0 (n.0 e).1),
        λ k. n.1 (IsHealthy-problems h k.0, u.1 k.1),
      ),
    )
