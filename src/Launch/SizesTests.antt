-- ===== src/Launch/SizesTests.antt =====
-- Two rounds of the menus: the operator leaves the form for the sizes once.
use interview_labs.Prelude.{codes, List, [], ◌∷◌, ◌≡◌, refl, inl, inr, Any, text_eq}
use interview_labs.Prelude.Assoc.{lookup, insert}
use interview_labs.Prelude.Outcome.{ok, err}
use interview_labs.Root.{CmdError, is_aborted}
use interview_labs.Terraform.{text_lt}
use interview_labs.Launch.Sizes.{
  Region, SizeInfo, no_size, cheaper, sort_sizes, size_options, region_by_slug, Round, Picks,
  pick_rounds,
}
use interview_labs.Launch.Offered.{IsOffer, pick_rounds-IsOffer}

abbrev small : SizeInfo
small = record no_size { slug = codes "s"; hourly = 3 }

abbrev large : SizeInfo
large = record no_size { slug = codes "l"; hourly = 9 }

abbrev sizes : List SizeInfo
sizes = large ∷ small ∷ []

abbrev frankfurt : Region
frankfurt = record { slug = codes "fra1"; label = codes "Frankfurt" }

abbrev rounds : List Round
rounds =
    record {
      region = ok (codes "ams3");
      sizes = ok sizes;
      size = err (CmdError.aborted (codes "user aborted"));
    }
    ∷ record { region = ok (codes "fra1"); sizes = ok sizes; size = ok (codes "s") }
    ∷ []

picks_small : pick_rounds (frankfurt ∷ []) rounds ≡ Picks.picked frankfurt small
unfolding pick_rounds region_by_slug size_options sort_sizes cheaper text_lt lookup insert text_eq
    is_aborted
picks_small = refl

pick_rounds-IsOffer_example : Any (λ r. IsOffer r frankfurt small) rounds
pick_rounds-IsOffer_example =
    pick_rounds-IsOffer (frankfurt ∷ []) frankfurt small rounds (tt, (inr (inl refl), tt))
      picks_small
