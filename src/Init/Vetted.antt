-- ===== src/Init/Vetted.antt =====
-- Which credentials `interview init` stores.
use interview_labs.Prelude.{
  Text, Bool, true, false, Option, none, some, List, [], ◌∷◌, if◌then◌else◌, ◌≡◌, ◌⊎◌, inl, inr,
  refl, sym, ◌∙◌, Any,
}
use interview_labs.Prelude.Outcome.{Outcome, ok, err}
use interview_labs.Config.{Config}
use interview_labs.Credentials.{Vendor}
use interview_labs.Root.{CmdError, is_aborted}
use interview_labs.Init.{
  Round, configure, pick_init_action, InitEnd, after_configure, after_pick, run_init_loop,
}
use mathlib.Core.Path.{subst}
use interview_labs.Init.Kept.{secrets, IsVetted, IsKept, configure-IsKept}

-- What stands there now is what stood there at first, or was vetted in one of the rounds.
abbrev pub AreVetted : Vendor → Config → List Round → Config → Type 0
AreVetted v first rs c = (secrets v c ≡ secrets v first) ⊎ Any (λ r. IsVetted v (secrets v c) r) rs

AreVetted-later :
    (v : Vendor) (c c' d : Config) (r : Round) (rs : List Round)
    → IsKept v r c c'
    → AreVetted v c' rs d
    → AreVetted v c (r ∷ rs) d
AreVetted-later v c c' d r rs (inl e) (inl q) = inl (q ∙ e)
AreVetted-later v c c' d r rs (inr k) (inl q) = inr (inl (subst (λ x. IsVetted v x r) (sym q) k))
AreVetted-later v c c' d r rs k (inr q) = inr (inr q)

module _ (v : Vendor) (r : Round) (rs : List Round) (c : Config) where
  -- How a round goes on to the others.
  Goes : Type 0
  Goes = (d : Config) → AreVetted v d rs (run_init_loop rs d d).1

  if-AreVetted :
      (b : Bool) (x y : InitEnd × Config)
      → AreVetted v c (r ∷ rs) x.1
      → AreVetted v c (r ∷ rs) y.1
      → AreVetted v c (r ∷ rs) (if b then x else y).1
  if-AreVetted true x y hx hy = hx
  if-AreVetted false x y hx hy = hy

  configured-AreVetted :
      (o : Outcome CmdError Config)
      → ((c' : Config) → o ≡ ok c' → IsKept v r c c')
      → Goes
      → AreVetted v c (r ∷ rs) (after_configure r c c o (run_init_loop rs)).1
  unfolding Goes
  configured-AreVetted (err e) k g =
      if-AreVetted (is_aborted e) _ _ (AreVetted-later v c c _ r rs (inl refl) (g c)) (inl refl)
  configured-AreVetted (ok c') k g =
      if-AreVetted r.can_write _ _ (AreVetted-later v c c' _ r rs (k c' refl) (g c')) (inl refl)

  picked-AreVetted :
      (o : Outcome CmdError (Option (Text × Option Vendor)))
      → Goes
      → AreVetted v c (r ∷ rs) (after_pick r c c o (run_init_loop rs)).1
  picked-AreVetted (err e) g = inl refl
  picked-AreVetted (ok none) g = inl refl
  picked-AreVetted (ok (some p)) g =
      configured-AreVetted (configure p.1 r c) (configure-IsKept v p.1 r c) g

-- The secrets of each provider in the configuration file that `interview init` leaves, whichever way
-- it ends, are those that stood there when it read the file, or the operator entered them in one
-- round in which the vendor accepted exactly them, after at most three retries.
pub run_init_loop-AreVetted :
    (v : Vendor) (rs : List Round) (c : Config) → AreVetted v c rs (run_init_loop rs c c).1
unfolding run_init_loop Goes
run_init_loop-AreVetted v [] c = inl refl
run_init_loop-AreVetted v (r ∷ rs) c =
    picked-AreVetted v r rs c (pick_init_action r.pick) (run_init_loop-AreVetted v rs)
