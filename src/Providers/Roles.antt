-- ===== src/Providers/Roles.antt =====
-- What a session's roles say of its providers, and what is read back from them.
use interview_labs.Prelude.{
  Text, codes, text_eq, text_eq_iff, Bool, true, false, Option, none, some, List, [], ◌∷◌, ◌≡◌,
  refl, is_empty, keep, find_first, All, ◌⊎◌, Bool-cases, Option-cases, inl, inr, arith,
}
use mathlib.Core.Path.{subst}
use interview_labs.Prelude.Assoc.{Assoc, lookup, insert}
use interview_labs.Prelude.Outcome.{ok}
use interview_labs.Providers.{
  Role, Provider, providers, by_role, vm_by_name, ai_by_name, access_by_name, local_by_name,
  active_ai, active_access, provider_by_flag, pick_vm_provider, select_among, select_vm_provider,
  session_roles,
}

module _ (P : Provider → Type 0) where
  find_first-All :
      (q : Provider → Bool) (xs : List Provider) (a : Provider)
      → All P xs
      → find_first q xs ≡ some a
      → P a × (q a ≡ true)
  find_first-All q [] a h e = cc
  find_first-All q (x ∷ xs) a (hx, h) e = elim (Bool-cases (q x)) [
    | inl t ↦ let same : x ≡ a = ground arith in (subst P same hx, rw (← same) t)
    | inr f ↦ find_first-All q xs a h (ground arith)
  ]

  keep-All :
      (q : Provider → Bool) (xs : List Provider)
      → All P xs
      → All (λ p. P p × (q p ≡ true)) (keep q xs)
  keep-All q [] h = tt
  keep-All q (x ∷ xs) (hx, h) = elim (Bool-cases (q x)) [
    | inl t ↦ rw (t, All) ((hx, t), keep-All q xs h)
    | inr f ↦ rw (f, All) (keep-All q xs h)
  ]

-- A later command finds the host again by its name, as a cloud provider or as the local one.
abbrev pub IsKnown : Provider → Type 0
IsKnown p = (vm_by_name p.name ≡ some p) ⊎ (local_by_name p.name ≡ some p)

IsKnown-hosts : All IsKnown (by_role providers Role.vm)
unfolding vm_by_name local_by_name by_role text_eq
IsKnown-hosts = (inl refl, (inl refl, (inl refl, (inr refl, tt))))

-- What the host that a launch selects is.
pub record IsSelected (is_configured : Text → Bool) (flag : Text) (p : Provider) : Type 0 where
  pub known : IsKnown p
  pub configured : is_configured p.name ≡ true
  pub flagged : is_empty flag ≡ false → p.name ≡ flag

module _ (configured : Text → Bool) where
  -- A launch's provider of AI keys is found again by its name.
  ai_by_name-active_ai :
      (disabled : Bool) (p : Provider)
      → active_ai configured disabled ≡ some p
      → ai_by_name p.name ≡ some p
  unfolding active_ai ai_by_name by_role text_eq
  ai_by_name-active_ai disabled p h = ground arith

  access_by_name-active_access :
      (disabled : Bool) (p : Provider)
      → active_access configured disabled ≡ some p
      → access_by_name p.name ≡ some p
  unfolding active_access access_by_name by_role text_eq
  access_by_name-active_access disabled p h = ground arith

  abbrev IsChoice : Provider → Type 0
  IsChoice p = IsKnown p × (configured p.name ≡ true)

  pick_vm_provider-IsChoice :
      (first : Provider) (rest : List Provider) (pick : Option Text) (p : Provider)
      → All IsChoice (first ∷ rest)
      → pick_vm_provider configured first (first ∷ rest) pick ≡ ok p
      → IsChoice p
  pick_vm_provider-IsChoice first rest none p h e = cc
  pick_vm_provider-IsChoice first rest (some sel) p h e =
      elim (Option-cases (find_first (λ a. text_eq a.name sel) (first ∷ rest))) [
        | inl gone ↦ let same : first ≡ p = ground arith in subst IsChoice same h.0
        | inr (a, there) ↦
            let same : a ≡ p = ground arith in
            subst IsChoice same
              (find_first-All IsChoice (λ x. text_eq x.name sel) (first ∷ rest) a h there).0
      ]

  provider_by_flag-IsChoice :
      (xs ys : List Provider) (flag : Text) (p : Provider)
      → All IsChoice ys
      → provider_by_flag xs ys flag ≡ ok p
      → IsChoice p × (p.name ≡ flag)
  unfolding provider_by_flag
  provider_by_flag-IsChoice xs ys flag p h e =
      elim (Option-cases (find_first (λ a. text_eq a.name flag) ys)) [
        | inl gone ↦ absurd (ground arith)
        | inr (a, there) ↦
            let same : a ≡ p = ground arith in
            let (choice, named) = find_first-All IsChoice _ ys a h there in
            (
              subst IsChoice same choice,
              subst (λ (x : Provider). x.name ≡ flag) same ((text_eq_iff a.name flag).0 named),
            )
      ]

  select_among-IsSelected :
      (xs : List Provider) (flag : Text) (is_tty : Bool) (pick : Option Text) (p : Provider)
      → All IsChoice xs
      → select_among configured xs flag is_tty pick ≡ ok p
      → IsSelected configured flag p
  select_among-IsSelected [] flag is_tty pick p h e = cc
  select_among-IsSelected (first ∷ rest) (c ∷ flag) is_tty pick p h e =
      let (choice, named) = provider_by_flag-IsChoice _ (first ∷ rest) (c ∷ flag) p h e in
      record { known = choice.0; configured = choice.1; flagged = λ _. named }
  select_among-IsSelected (first ∷ rest) [] true pick p h e =
      let choice = pick_vm_provider-IsChoice first rest pick p h e in
      record { known = choice.0; configured = choice.1; flagged = λ f. cc }
  select_among-IsSelected (first ∷ rest) [] false pick p h e =
      let same : first ≡ p = ground arith in
      let choice = subst IsChoice same h.0 in
      record { known = choice.0; configured = choice.1; flagged = λ f. cc }

  -- Whatever the flag, the terminal and the answer of the menu are, the host that a launch selects
  -- is configured, is found again by its name, and is the one that the flag names if there is one.
  pub select_vm_provider-IsSelected :
      (flag : Text) (is_tty : Bool) (pick : Option Text) (p : Provider)
      → select_vm_provider configured flag is_tty pick ≡ ok p
      → IsSelected configured flag p
  unfolding select_vm_provider
  select_vm_provider-IsSelected flag is_tty pick p e =
      select_among-IsSelected _ flag is_tty pick p
        (keep-All IsKnown (λ p. configured p.name) (by_role providers Role.vm) IsKnown-hosts) e

-- The provider that a recorded name stands for.
abbrev pub resolve : (Text → Option Provider) → Option Text → Option Provider
resolve by_name none = none
resolve by_name (some name) = by_name name

module _ (configured : Text → Bool) (host : Provider) (no_ai no_dns : Bool) where
  abbrev pub launch_roles : Assoc Text
  launch_roles = session_roles host (active_ai configured no_ai) (active_access configured no_dns)

  -- The roles that a launch in the cloud records name its host under vm, and lead a destroy to the
  -- very providers that mint its key and hold its name, or to none where the launch had none.
  pub session_roles-resolve :
      (lookup (codes "vm") launch_roles ≡ some host.name)
      × (resolve ai_by_name (lookup (codes "ai") launch_roles) ≡ active_ai configured no_ai)
      × (resolve access_by_name (lookup (codes "access") launch_roles)
          ≡ active_access configured no_dns)
  unfolding session_roles active_ai active_access ai_by_name access_by_name by_role lookup insert
      text_eq
  session_roles-resolve = (ground arith, ground arith, ground arith)
