-- ===== src/Prelude/Assoc.antt =====
-- A Go map with text keys, as an association list with one entry for each key.
use interview_labs.Prelude.Booleans.{if◌then◌else◌, Bool-cases}
use interview_labs.Prelude.Texts.{Text, text_eq, text_eq_iff}
use mathlib.Core.Path.{◌≡◌, refl}
use mathlib.Core.Logic.{inl, inr}
use mathlib.Core.Bool.{Bool, false}
use mathlib.Core.Option.{Option, none, some}
use mathlib.Core.List.{List, [], ◌∷◌}
use native.Mathlib.Omega.{arith}

abbrev pub Assoc {ℓ} : Type ℓ → Type ℓ
Assoc V = List (Text × V)

module _ {ℓ} {V : Type ℓ} where
  unfoldable pub lookup : Text → Assoc V → Option V
  lookup k [] = none
  lookup k ((j, v) ∷ m) = if text_eq j k then some v else lookup k m

  -- m[k] = v
  unfoldable pub insert : Text → V → Assoc V → Assoc V
  insert k v [] = (k, v) ∷ []
  insert k v ((j, w) ∷ m) = if text_eq j k then (k, v) ∷ m else (j, w) ∷ insert k v m

  -- delete(m, k)
  unfoldable pub remove : Text → Assoc V → Assoc V
  remove k [] = []
  remove k ((j, v) ∷ m) = let rest = remove k m in if text_eq j k then rest else (j, v) ∷ rest

  pub lookup-insert :
      (k j : Text) (v : V) (m : Assoc V)
      → lookup j (insert k v m) ≡ (if text_eq k j then some v else lookup j m)
  unfolding lookup insert
  lookup-insert k j v [] = refl
  lookup-insert k j v ((i, w) ∷ m) =
      ground (arith, text_eq_iff k j, text_eq_iff i k, text_eq_iff i j, lookup-insert k j v m)

  pub lookup-remove :
      (k j : Text) (m : Assoc V)
      → lookup j (remove k m) ≡ (if text_eq k j then none else lookup j m)
  unfolding lookup remove
  lookup-remove k j [] = ground arith
  lookup-remove k j ((i, v) ∷ m) =
      ground (arith, lookup-remove k j m, text_eq_iff i k, text_eq_iff i j, text_eq_iff k j)

pub ruleset map_laws = (lookup-insert, lookup-remove)

module _ {ℓ} {V : Type ℓ} where
  -- for k, v := range m { if p(v) { delete(m, k) } }
  unfoldable pub remove_if : (V → Bool) → Assoc V → Assoc V
  remove_if p [] = []
  remove_if p ((j, v) ∷ m) = let rest = remove_if p m in if p v then rest else (j, v) ∷ rest

  -- No key has two entries.
  abbrev pub IsDistinct : Assoc V → Type ℓ
  IsDistinct [] = Unit
  IsDistinct ((k, v) ∷ m) = (lookup k m ≡ none) × IsDistinct m

  lookup-insert-none :
      (k j : Text) (v : V) (m : Assoc V)
      → text_eq k j ≡ false
      → lookup j m ≡ none
      → lookup j (insert k v m) ≡ none
  lookup-insert-none k j v m h e = rw (lookup-insert, h) e

  pub insert-IsDistinct :
      (k : Text) (v : V) (m : Assoc V) → IsDistinct m → IsDistinct (insert k v m)
  unfolding insert
  insert-IsDistinct k v [] h = (unfold lookup in refl, tt)
  insert-IsDistinct k v ((j, w) ∷ m) (h, hs) = elim (Bool-cases (text_eq j k)) [
    | inl e ↦ rw (e, insert) (rw ((text_eq_iff j k).0 e) at h, hs)
    | inr e ↦
        rw (e, insert)
          (
            lookup-insert-none k j v m (ground (arith, text_eq_iff j k, text_eq_iff k j)) h,
            insert-IsDistinct k v m hs,
          )
  ]

  abbrev pub unless : (V → Bool) → Option V → Option V
  unless p none = none
  unless p (some v) = if p v then none else some v

  pub lookup-remove_if :
      (p : V → Bool) (k : Text) (m : Assoc V)
      → IsDistinct m
      → lookup k (remove_if p m) ≡ unless p (lookup k m)
  unfolding lookup remove_if
  lookup-remove_if p k [] h = refl
  lookup-remove_if p k ((j, v) ∷ m) (h, hs) =
      ground (arith, lookup-remove_if p k m hs, text_eq_iff j k)

  pub remove_if-IsDistinct :
      (p : V → Bool) (m : Assoc V) → IsDistinct m → IsDistinct (remove_if p m)
  unfolding remove_if
  remove_if-IsDistinct p [] h = tt
  remove_if-IsDistinct p ((j, v) ∷ m) (h, hs) = elim (Bool-cases (p v)) [
    | inl e ↦ rw (e, remove_if) (remove_if-IsDistinct p m hs)
    | inr e ↦
        rw (e, remove_if) (ground (arith, lookup-remove_if p j m hs), remove_if-IsDistinct p m hs)
  ]
