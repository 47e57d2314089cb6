-- ===== src/Root/Reported.antt =====
-- How the errors of the commands reach the operator.
use interview_labs.Prelude.{
  ℕ, Text, Bool, true, false, ◌||◌, none, some, List, [], ◌∷◌, ◌++◌, if◌then◌else◌, ◌≡◌, ◌↔◌, ◌⊎◌,
  inl, inr, codes, has_prefix, Bool-cases, refl, arith,
}
use interview_labs.Prelude.Outcome.{Outcome}
use interview_labs.Root.{
  CmdError, message, is_usage, is_silenced, is_aborted, is_cobra_usage, cancelled, run, execute,
  Round, menu, Line,
}

-- `Inside u e`: unwrapping `e` again and again comes upon `u`.
pub data Inside (u : CmdError) : CmdError → Type 0 where
  itself : Inside u u
  under_silence : {e : CmdError} → Inside u e → Inside u (CmdError.silenced e)
  under_text : {e : CmdError} → (m : Text) → Inside u e → Inside u (CmdError.wrapped m e)

-- A usage error is somewhere inside, or the text begins as cobra begins those of its errors that are
-- counted as misuses.
abbrev pub Begins : Text → Text → Type 0
Begins p s = (rest : Text) × (s ≡ p ++ rest)

abbrev pub IsMisuse : CmdError → Type 0
IsMisuse e =
    ((m : Text) × Inside (CmdError.usage m) e)
    ⊎ (Begins (codes "unknown command") (message e)
        ⊎ (Begins (codes "unknown flag") (message e)
            ⊎ Begins (codes "invalid argument") (message e)))

-- A form that the operator left is somewhere inside.
abbrev pub IsLeft : CmdError → Type 0
IsLeft e = (m : Text) × Inside (CmdError.aborted m) e

-- An error that the command reported itself is somewhere inside.
abbrev pub IsToldOf : CmdError → Type 0
IsToldOf e = (f : CmdError) × Inside (CmdError.silenced f) e

usage-Inside : (e : CmdError) → is_usage e ≡ true → (m : Text) × Inside (CmdError.usage m) e
unfolding is_usage
usage-Inside (CmdError.usage m) h = (m, itself)
usage-Inside (CmdError.aborted m) h = ground arith
usage-Inside (CmdError.plain m) h = ground arith
usage-Inside (CmdError.silenced e) h = let (m, i) = usage-Inside e h in (m, under_silence i)
usage-Inside (CmdError.wrapped t e) h = let (m, i) = usage-Inside e h in (m, under_text t i)

Inside-usage : (m : Text) (e : CmdError) → Inside (CmdError.usage m) e → is_usage e ≡ true
unfolding is_usage
Inside-usage m _ itself = refl
Inside-usage m _ (under_silence i) = Inside-usage m _ i
Inside-usage m _ (under_text t i) = Inside-usage m _ i

aborted-Inside : (e : CmdError) → is_aborted e ≡ true → IsLeft e
unfolding is_aborted
aborted-Inside (CmdError.usage m) h = ground arith
aborted-Inside (CmdError.aborted m) h = (m, itself)
aborted-Inside (CmdError.plain m) h = ground arith
aborted-Inside (CmdError.silenced e) h = let (m, i) = aborted-Inside e h in (m, under_silence i)
aborted-Inside (CmdError.wrapped t e) h = let (m, i) = aborted-Inside e h in (m, under_text t i)

Inside-aborted : (m : Text) (e : CmdError) → Inside (CmdError.aborted m) e → is_aborted e ≡ true
unfolding is_aborted
Inside-aborted m _ itself = refl
Inside-aborted m _ (under_silence i) = Inside-aborted m _ i
Inside-aborted m _ (under_text t i) = Inside-aborted m _ i

silenced-Inside : (e : CmdError) → is_silenced e ≡ true → IsToldOf e
unfolding is_silenced
silenced-Inside (CmdError.usage m) h = ground arith
silenced-Inside (CmdError.aborted m) h = ground arith
silenced-Inside (CmdError.plain m) h = ground arith
silenced-Inside (CmdError.silenced e) h = (e, itself)
silenced-Inside (CmdError.wrapped t e) h = let (f, i) = silenced-Inside e h in (f, under_text t i)

Inside-silenced : (f e : CmdError) → Inside (CmdError.silenced f) e → is_silenced e ≡ true
unfolding is_silenced
Inside-silenced f _ itself = refl
Inside-silenced f _ (under_silence i) = refl
Inside-silenced f _ (under_text t i) = Inside-silenced f _ i

has_prefix-Begins : (s p : Text) → has_prefix s p ≡ true → Begins p s
unfolding has_prefix
has_prefix-Begins s [] h = (s, refl)
has_prefix-Begins [] (c ∷ p) h = ground arith
has_prefix-Begins (d ∷ s) (c ∷ p) h =
    let (r, e) = has_prefix-Begins s p (ground (arith, h)) in (r, ground (arith, h, e))

has_prefix-append : (p r : Text) → has_prefix (p ++ r) p ≡ true
unfolding has_prefix
has_prefix-append [] r = refl
has_prefix-append (c ∷ p) r = ground (arith, has_prefix-append p r)

Begins-has_prefix : (s p : Text) → Begins p s → has_prefix s p ≡ true
Begins-has_prefix s p (r, e) = rw e (has_prefix-append p r)

some_prefix :
    (a b c d : Bool)
    → a || (b || c || d) ≡ true
    → (a ≡ true) ⊎ ((b ≡ true) ⊎ ((c ≡ true) ⊎ (d ≡ true)))
some_prefix a b c d h = ground arith

misuse_cases :
    (e : CmdError)
    → is_usage e || is_cobra_usage e ≡ true
    → (is_usage e ≡ true)
      ⊎ ((has_prefix (message e) (codes "unknown command") ≡ true)
          ⊎ ((has_prefix (message e) (codes "unknown flag") ≡ true)
              ⊎ (has_prefix (message e) (codes "invalid argument") ≡ true)))
unfolding is_cobra_usage
misuse_cases e h =
    some_prefix (is_usage e) (has_prefix (message e) (codes "unknown command"))
      (has_prefix (message e) (codes "unknown flag"))
      (has_prefix (message e) (codes "invalid argument")) h

is_usage-IsMisuse : (e : CmdError) → is_usage e || is_cobra_usage e ≡ true → IsMisuse e
is_usage-IsMisuse e h = elim (misuse_cases e h) [
  | inl a ↦ inl (usage-Inside e a)
  | inr r ↦ inr (elim r [
    | inl a ↦ inl (has_prefix-Begins (message e) (codes "unknown command") a)
    | inr q ↦ inr (elim q [
      | inl a ↦ inl (has_prefix-Begins (message e) (codes "unknown flag") a)
      | inr a ↦ inr (has_prefix-Begins (message e) (codes "invalid argument") a)
    ])
  ])
]

IsMisuse-is_usage : (e : CmdError) → IsMisuse e → is_usage e || is_cobra_usage e ≡ true
unfolding is_cobra_usage
IsMisuse-is_usage e (inl (m, i)) = rw (Inside-usage m e i) refl
IsMisuse-is_usage e (inr (inl b)) =
    ground (arith, Begins-has_prefix (message e) (codes "unknown command") b)
IsMisuse-is_usage e (inr (inr (inl b))) =
    ground (arith, Begins-has_prefix (message e) (codes "unknown flag") b)
IsMisuse-is_usage e (inr (inr (inr b))) =
    ground (arith, Begins-has_prefix (message e) (codes "invalid argument") b)

abbrev code : Bool → ℕ
code b = if b then 2 else 1

code_lem : (e : CmdError) → (execute (some e)).0 ≡ code (is_usage e || is_cobra_usage e)
unfolding cancelled run is_cobra_usage message is_usage
code_lem e = ground arith

lines_lem :
    (e : CmdError)
    → (execute (some e)).1 ≡ (
        if is_aborted e
        then Line.cancelled_line ∷ []
        else if is_silenced e
        then []
        else Line.error_line (message e) ∷ [])
unfolding cancelled run is_silenced message
lines_lem e = ground arith

code_iff :
    {P : Type 0} (b : Bool)
    → (b ≡ true → P)
    → (P → b ≡ true)
    → ((code b ≡ 2) ↔ P) × ((code b ≡ 1) ↔ (¬ P))
code_iff true f g = ((λ _. f refl, λ _. refl), (λ e. ground arith, λ n. elim (n (f refl)) [ ]))
code_iff false f g =
    ((λ e. ground arith, λ p. ground (arith, g p)), (λ _ p. ground (arith, g p), λ _. refl))

-- What is printed for an error: the line of a form that was left, nothing for an error that was
-- reported already, and else its text.
abbrev pub ArePrinted : CmdError → List Line → Type 0
ArePrinted e ls =
    (IsLeft e × (ls ≡ Line.cancelled_line ∷ []))
    ⊎ (((¬ IsLeft e) × IsToldOf e × (ls ≡ []))
        ⊎ ((¬ IsLeft e) × (¬ IsToldOf e) × (ls ≡ Line.error_line (message e) ∷ [])))

execute-ArePrinted : (e : CmdError) → ArePrinted e (execute (some e)).1
execute-ArePrinted e = elim (Bool-cases (is_aborted e)) [
  | inl a ↦ inl (aborted-Inside e a, rw (lines_lem e, a) refl)
  | inr a ↦ elim (Bool-cases (is_silenced e)) [
    | inl t ↦ inr (
        inl (
          (λ l. ground (arith, a, Inside-aborted l.0 e l.1)),
          silenced-Inside e t,
          rw (lines_lem e, a, t) refl,
        ))
    | inr t ↦ inr (
        inr (
          (λ l. ground (arith, a, Inside-aborted l.0 e l.1)),
          (λ l. ground (arith, t, Inside-silenced l.0 e l.1)),
          rw (lines_lem e, a, t) refl,
        ))
  ]
]

-- A command without an error exits with 0 and prints nothing more. A command with an error exits with
-- 2 if unwrapping the error comes upon a usage error, or if its text begins with "unknown command",
-- "unknown flag" or "invalid argument", and with 1 otherwise. It prints one line, that of a cancelled
-- form, if unwrapping comes upon a form that was left; nothing if it does not but comes upon an error
-- that was reported already; and else one line with the text of the error.
pub execute-IsReported :
    (e : CmdError)
    → (execute none ≡ (0, []))
      × (((execute (some e)).0 ≡ 2) ↔ IsMisuse e)
      × (((execute (some e)).0 ≡ 1) ↔ (¬ IsMisuse e))
      × ArePrinted e (execute (some e)).1
unfolding run cancelled
execute-IsReported e =
    let (two, one) =
      code_iff (is_usage e || is_cobra_usage e) (is_usage-IsMisuse e) (IsMisuse-is_usage e) in
    (refl, rw (code_lem e) two, rw (code_lem e) one, execute-ArePrinted e)

abbrev pub forms : List Round → List (Outcome CmdError Text)
forms [] = []
forms (r ∷ rs) = r.form ∷ forms rs

-- What the operator picks decides which commands the menu runs and how it ends, whatever the
-- commands return.
pub menu-forms :
    (rs qs : List Round)
    → forms rs ≡ forms qs
    → ((menu rs).ended ≡ (menu qs).ended) × ((menu rs).ran ≡ (menu qs).ran)
unfolding menu
menu-forms [] [] h = (refl, refl)
menu-forms [] (q ∷ qs) h = ground arith
menu-forms (r ∷ rs) [] h = ground arith
menu-forms (r ∷ rs) (q ∷ qs) h = ground (arith, menu-forms rs qs, h)
