-- ===== src/Launch/Sizes.antt =====
-- internal/cli/launch.go, pickRegionSize: the menus for the region and the size of a machine. What the
-- vendor offers and what the forms return are parameters, for each round of the loop; prices are in a
-- unit that is small enough.
use interview_labs.Prelude.{
  ℕ, Text, Bool, Option, none, some, List, [], ◌∷◌, if◌then◌else◌, text_eq, find_first, map, ltb,
  ◌==◌,
}
use interview_labs.Prelude.Assoc.{Assoc, lookup, insert}
use interview_labs.Prelude.Outcome.{Outcome, ok, err}
use interview_labs.Root.{CmdError, is_aborted}
use interview_labs.Terraform.{text_lt}

-- provider.Option
pub record Region : Type 0 where
  pub slug : Text
  pub label : Text

pub record SizeInfo : Type 0 where
  pub slug : Text
  pub category : Text
  pub vcpus : ℕ
  pub mem_gb : ℕ
  pub disk_gb : ℕ
  pub hourly : ℕ
  pub currency : Text

abbrev pub no_size : SizeInfo
no_size = record {
  slug = [];
  category = [];
  vcpus = 0;
  mem_gb = 0;
  disk_gb = 0;
  hourly = 0;
  currency = [];
}

-- Cheapest first, then by slug.
unfoldable pub cheaper : SizeInfo → SizeInfo → Bool
unfolding text_lt
cheaper a b = if a.hourly == b.hourly then text_lt a.slug b.slug else ltb a.hourly b.hourly

abbrev pub insert_size : SizeInfo → List SizeInfo → List SizeInfo
insert_size s [] = s ∷ []
insert_size s (x ∷ xs) = let rest = insert_size s xs in if cheaper x s then x ∷ rest else s ∷ x ∷ xs

unfoldable pub sort_sizes : List SizeInfo → List SizeInfo
sort_sizes [] = []
sort_sizes (s ∷ ss) = insert_size s (sort_sizes ss)

abbrev pub by_slug : List SizeInfo → Assoc SizeInfo → Assoc SizeInfo
by_slug [] m = m
by_slug (s ∷ ss) m = by_slug ss (insert s.slug s m)

-- The slugs of the options in their order, and the sizes by slug.
unfoldable pub size_options : List SizeInfo → List Text × Assoc SizeInfo
unfolding sort_sizes
size_options sizes =
    (map (λ (s : SizeInfo). s.slug) (sort_sizes sizes), by_slug (sort_sizes sizes) [])

unfoldable pub region_by_slug : List Region → Text → Region
region_by_slug regions slug = elim (find_first (λ r. text_eq r.slug slug) regions) [
  | none ↦ record { slug = slug; label = slug }
  | some r ↦ r
]

-- One round: the region that the form returns, the sizes that the vendor has there, and the size
-- that the second form returns if it is shown.
pub record Round : Type 0 where
  pub region : Outcome CmdError Text
  pub sizes : Outcome CmdError (List SizeInfo)
  pub size : Outcome CmdError Text

pub data Picks : Type 0 where
  waiting : Picks
  failed : CmdError → Picks
  picked : Region → SizeInfo → Picks

-- A missing key of a map reads as the zero value.
abbrev pub or_no_size : Option SizeInfo → SizeInfo
or_no_size none = no_size
or_no_size (some s) = s

abbrev pub pick_size : List Region → Text → List SizeInfo → Outcome CmdError Text → Picks → Picks
pick_size regions slug sizes (err e) rest = if is_aborted e then rest else Picks.failed e
pick_size regions slug sizes (ok s) rest =
    Picks.picked (region_by_slug regions slug) (or_no_size (lookup s (size_options sizes).1))

-- With no matching size the loop goes back to the regions.
abbrev pub with_sizes :
    List Region → Text → Outcome CmdError (List SizeInfo) → Outcome CmdError Text → Picks → Picks
with_sizes regions slug (err e) size rest = Picks.failed e
with_sizes regions slug (ok []) size rest = rest
with_sizes regions slug (ok (s ∷ ss)) size rest = pick_size regions slug (s ∷ ss) size rest

abbrev pub with_region : List Region → Round → Outcome CmdError Text → Picks → Picks
with_region regions r (err e) rest = Picks.failed e
with_region regions r (ok slug) rest = with_sizes regions slug r.sizes r.size rest

-- The loop: without a further round it waits for the operator.
unfoldable pub pick_rounds : List Region → List Round → Picks
pick_rounds regions [] = Picks.waiting
pick_rounds regions (r ∷ rs) =
    let rest = pick_rounds regions rs in with_region regions r r.region rest

unfoldable pub pick_region_size : Outcome CmdError (List Region) → List Round → Picks
unfolding pick_rounds
pick_region_size (err e) rs = Picks.failed e
pick_region_size (ok regions) rs = pick_rounds regions rs
