-- ===== src/Launch/Offered.antt =====
-- What the menus for the region and the size can lead to.
use interview_labs.Prelude.{
  Text, some, List, [], ◌∷◌, text_eq, text_eq_iff, ◌≡◌, ◌⊎◌, inl, inr, refl, sym, ap, ◌∙◌, arith,
  Bool-cases, Any, All,
}
use interview_labs.Prelude.Assoc.{Assoc, lookup, insert, lookup-insert}
use interview_labs.Prelude.Outcome.{Outcome, ok, err}
use interview_labs.Root.{CmdError}
use interview_labs.Launch.Sizes.{
  Region, SizeInfo, cheaper, insert_size, sort_sizes, by_slug, size_options, region_by_slug, Round,
  Picks, or_no_size, with_sizes, with_region, pick_rounds,
}
use mathlib.Core.Path.{subst}

-- The size is among them.
abbrev pub Has : List SizeInfo → SizeInfo → Type 0
Has l s = Any (λ x. x ≡ s) l

Has-insert_size : (a s : SizeInfo) (l : List SizeInfo) → Has (insert_size s l) a → Has (s ∷ l) a
Has-insert_size a s [] h = h
Has-insert_size a s (x ∷ l) h = elim (Bool-cases (cheaper x s)) [
  | inl e ↦ elim (rw e at h) [
    | inl q ↦ inr (inl q)
    | inr q ↦ elim (Has-insert_size a s l q) [ inl t ↦ inl t | inr t ↦ inr (inr t) ]
  ]
  | inr e ↦ rw e at h
]

Has-sort_sizes : (a : SizeInfo) (l : List SizeInfo) → Has (sort_sizes l) a → Has l a
unfolding sort_sizes
Has-sort_sizes a [] h = h
Has-sort_sizes a (s ∷ l) h = elim (Has-insert_size a s (sort_sizes l) h) [
  | inl e ↦ inl e
  | inr k ↦ inr (Has-sort_sizes a l k)
]

some-injective : (a b : SizeInfo) → some a ≡ some b → a ≡ b
some-injective a b h = ground arith

-- Looking a slug up finds an offered size with that slug.
lookup-by_slug :
    (l : List SizeInfo) (m : Assoc SizeInfo) (k : Text) (a : SizeInfo)
    → lookup k (by_slug l m) ≡ some a
    → (Has l a × (a.slug ≡ k)) ⊎ (lookup k m ≡ some a)
lookup-by_slug [] m k a h = inr h
lookup-by_slug (s ∷ l) m k a h = elim (lookup-by_slug l (insert s.slug s m) k a h) [
  | inl q ↦ inl (inr q.0, q.1)
  | inr q ↦ elim (Bool-cases (text_eq s.slug k)) [
    | inl e ↦
        (let t = some-injective s a (rw (lookup-insert, e) at q) in
          inl (inl t, ap (λ (x : SizeInfo). x.slug) (sym t) ∙ (text_eq_iff s.slug k).0 e))
    | inr e ↦ inr (rw (lookup-insert, e) at q)
  ]
]

-- A size with this slug is among them.
abbrev pub HasSlug : List SizeInfo → Text → Type 0
HasSlug l k = Any (λ (x : SizeInfo). x.slug ≡ k) l

HasSlug-insert_size :
    (k : Text) (s : SizeInfo) (l : List SizeInfo) → HasSlug (s ∷ l) k → HasSlug (insert_size s l) k
HasSlug-insert_size k s [] h = h
HasSlug-insert_size k s (x ∷ l) h = elim (Bool-cases (cheaper x s)) [
  | inl e ↦ rw e (elim h [
    | inl q ↦ inr (HasSlug-insert_size k s l (inl q))
    | inr (inl q) ↦ inl q
    | inr (inr q) ↦ inr (HasSlug-insert_size k s l (inr q))
  ])
  | inr e ↦ rw e h
]

HasSlug-sort_sizes : (k : Text) (l : List SizeInfo) → HasSlug l k → HasSlug (sort_sizes l) k
unfolding sort_sizes
HasSlug-sort_sizes k [] h = h
HasSlug-sort_sizes k (s ∷ l) h =
    HasSlug-insert_size k s (sort_sizes l)
      (elim h [ inl q ↦ inl q | inr q ↦ inr (HasSlug-sort_sizes k l q) ])

by_slug-lookup :
    (l : List SizeInfo) (m : Assoc SizeInfo) (k : Text)
    → HasSlug l k ⊎ ((b : SizeInfo) × (lookup k m ≡ some b))
    → (a : SizeInfo) × (lookup k (by_slug l m) ≡ some a)
by_slug-lookup [] m k (inl q) = elim q [ ]
by_slug-lookup [] m k (inr q) = q
by_slug-lookup (s ∷ l) m k h =
    by_slug-lookup l (insert s.slug s m) k (elim (Bool-cases (text_eq s.slug k)) [
      | inl e ↦ inr (s, rw (lookup-insert, e) refl)
      | inr e ↦ elim h [
        | inl (inl q) ↦ ground (arith, text_eq_iff s.slug k, q, e)
        | inl (inr q) ↦ inl q
        | inr (b, q) ↦ inr (b, rw (lookup-insert, e) q)
      ]
    ])

lookup_nothing : (k : Text) (a : SizeInfo) → lookup k [] ≡ some a → ⊥
unfolding lookup
lookup_nothing k a h = ground arith

-- The size that is picked by a slug among the options.
picked_size :
    (l : List SizeInfo) (k : Text)
    → HasSlug l k
    → Has l (or_no_size (lookup k (size_options l).1))
      × ((or_no_size (lookup k (size_options l).1)).slug ≡ k)
unfolding size_options
picked_size l k h =
    let (a, e) = by_slug-lookup (sort_sizes l) [] k (inl (HasSlug-sort_sizes k l h)) in
    elim (lookup-by_slug (sort_sizes l) [] k a e) [
      | inl (g, q) ↦ rw e (Has-sort_sizes a l g, q)
      | inr q ↦ elim (lookup_nothing k a q) [ ]
    ]

region_by_slug-slug : (regions : List Region) (k : Text) → (region_by_slug regions k).slug ≡ k
unfolding region_by_slug
region_by_slug-slug [] k = refl
region_by_slug-slug (r ∷ rs) k = ground (arith, text_eq_iff r.slug k, region_by_slug-slug rs k)

-- The form for the sizes returns one of its options.
abbrev pub IsOption : Outcome CmdError (List SizeInfo) → Outcome CmdError Text → Type 0
IsOption (ok l) (ok k) = HasSlug l k
IsOption (ok l) (err e) = Unit
IsOption (err e) k = Unit

-- The round offered this size in this region, and both were picked in it.
abbrev pub IsOffer : Round → Region → SizeInfo → Type 0
IsOffer r region si =
    (r.region ≡ ok region.slug)
    × ((l : List SizeInfo) × (r.sizes ≡ ok l) × Has l si)
    × (r.size ≡ ok si.slug)

picked-injective :
    (r q : Region) (s t : SizeInfo) → Picks.picked r s ≡ Picks.picked q t → (r ≡ q) × (s ≡ t)
picked-injective r q s t h = ground arith

module _ (regions : List Region) (region : Region) (si : SizeInfo) where
  -- What follows a round in which the form for the regions returned a slug.
  with_sizes-IsOffer :
      (r : Round) (slug : Text) (sizes : Outcome CmdError (List SizeInfo))
      (size : Outcome CmdError Text) (rest : Picks)
      → r.region ≡ ok slug
      → r.sizes ≡ sizes
      → r.size ≡ size
      → IsOption sizes size
      → with_sizes regions slug sizes size rest ≡ Picks.picked region si
      → IsOffer r region si ⊎ (rest ≡ Picks.picked region si)
  with_sizes-IsOffer r slug (err e) size rest er el ek o h = ground arith
  with_sizes-IsOffer r slug (ok []) size rest er el ek o h = inr h
  with_sizes-IsOffer r slug (ok (s ∷ ss)) (err e) rest er el ek o h = ground arith
  with_sizes-IsOffer r slug (ok (s ∷ ss)) (ok k) rest er el ek o h =
      let (g, q) = picked-injective _ region _ si h in
      let (has, named) = picked_size (s ∷ ss) k o in
      inl (
        er ∙ ap ok (sym (region_by_slug-slug regions slug) ∙ ap (λ (x : Region). x.slug) g),
        (s ∷ ss, el, subst (Has (s ∷ ss)) q has),
        ek ∙ ap ok (sym named ∙ ap (λ (x : SizeInfo). x.slug) q),
      )

  with_region-IsOffer :
      (r : Round) (slug : Outcome CmdError Text) (rest : Picks)
      → r.region ≡ slug
      → IsOption r.sizes r.size
      → with_region regions r slug rest ≡ Picks.picked region si
      → IsOffer r region si ⊎ (rest ≡ Picks.picked region si)
  with_region-IsOffer r (err e) rest er o h = ground arith
  with_region-IsOffer r (ok slug) rest er o h =
      with_sizes-IsOffer r slug r.sizes r.size rest er refl refl o h

  -- Where the form for the sizes returns one of its options, a region and a size that the menus end
  -- with were picked in one round, in which the vendor offered that size.
  pub pick_rounds-IsOffer :
      (rs : List Round)
      → All (λ (r : Round). IsOption r.sizes r.size) rs
      → pick_rounds regions rs ≡ Picks.picked region si
      → Any (λ r. IsOffer r region si) rs
  unfolding pick_rounds
  pick_rounds-IsOffer [] o h = ground arith
  pick_rounds-IsOffer (r ∷ rs) (o, os) h =
      elim (with_region-IsOffer r r.region (pick_rounds regions rs) refl o h) [
        | inl q ↦ inl q
        | inr q ↦ inr (pick_rounds-IsOffer rs os q)
      ]
