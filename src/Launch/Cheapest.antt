-- ===== src/Launch/Cheapest.antt =====
-- The order of the sizes in their menu (sizeOptions).
use interview_labs.Prelude.{Text, true, false, List, [], ◌∷◌, ◌≡◌, inl, inr, arith, Bool-cases}
use interview_labs.Terraform.{text_lt}
use interview_labs.Launch.Sizes.{SizeInfo, cheaper, insert_size, sort_sizes}
use mathlib.Core.List.{Perm}
use mathlib.Core.List.Perm

text_lt-asym : (s t : Text) → text_lt s t ≡ true → text_lt t s ≡ false
unfolding text_lt
text_lt-asym s [] h = ground arith
text_lt-asym [] (d ∷ t) h = ground arith
text_lt-asym (c ∷ s) (d ∷ t) h = ground (arith, text_lt-asym s t)

cheaper-asym : (a b : SizeInfo) → cheaper a b ≡ true → cheaper b a ≡ false
unfolding cheaper
cheaper-asym a b h = ground (arith, text_lt-asym a.slug b.slug)

-- No size stands directly before a cheaper one.
abbrev pub IsSorted : List SizeInfo → Type 0
IsSorted [] = Unit
IsSorted (x ∷ []) = Unit
IsSorted (x ∷ y ∷ l) = (cheaper y x ≡ false) × IsSorted (y ∷ l)

insert_size-IsSorted : (s : SizeInfo) (l : List SizeInfo) → IsSorted l → IsSorted (insert_size s l)
insert_size-IsSorted s [] h = tt
insert_size-IsSorted s (x ∷ []) h = ground (arith, cheaper-asym x s)
insert_size-IsSorted s (x ∷ y ∷ l) h =
    ground (arith, cheaper-asym x s, cheaper-asym y s, insert_size-IsSorted s (y ∷ l))

sort_sizes-IsSorted : (l : List SizeInfo) → IsSorted (sort_sizes l)
unfolding sort_sizes
sort_sizes-IsSorted [] = tt
sort_sizes-IsSorted (s ∷ l) = insert_size-IsSorted s (sort_sizes l) (sort_sizes-IsSorted l)

insert_size-Perm : (s : SizeInfo) (l : List SizeInfo) → Perm (insert_size s l) (s ∷ l)
insert_size-Perm s [] = Perm.refl (s ∷ [])
insert_size-Perm s (x ∷ l) = elim (Bool-cases (cheaper x s)) [
  | inl e ↦ rw e (Perm.trans (Perm.cons x (insert_size-Perm s l)) (Perm.swap s x l))
  | inr e ↦ rw e (Perm.refl (s ∷ x ∷ l))
]

sort_sizes-Perm : (l : List SizeInfo) → Perm (sort_sizes l) l
unfolding sort_sizes
sort_sizes-Perm [] = Perm.refl []
sort_sizes-Perm (s ∷ l) =
    Perm.trans (insert_size-Perm s (sort_sizes l)) (Perm.cons s (sort_sizes-Perm l))

-- The sizes are shown in an order in which none stands directly before a cheaper one, or before one of
-- the same price with a smaller slug, and they are the sizes that the vendor offers, each as often.
pub sort_sizes-IsMenu : (l : List SizeInfo) → IsSorted (sort_sizes l) × Perm (sort_sizes l) l
sort_sizes-IsMenu l = (sort_sizes-IsSorted l, sort_sizes-Perm l)
