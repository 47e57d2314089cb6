-- ===== src/Gateway/Limiter/Credit.antt =====
-- The limiter's abstract state: for each key a credit that grows with time up to a full burst. The
-- buckets are a representation of it.
use native.Mathlib.Nat.{le_dest}
use interview_labs.Prelude.{
  ap, Option-cases, ℕ, ◌+◌, ◌*◌, ◌≤◌, Text, inl, inr, true, some, ◌≡◌, refl, arith, text_eq,
  if◌then◌else◌,
}
use interview_labs.Prelude.Int.{ℤ, pos, sub_ℕ, ◌+ℤ◌, ◌≤ℤ◌, leb_ℤ, +ℤ_parts, eq_of_parts}
use interview_labs.Prelude.Assoc.{
  Assoc, lookup, insert, IsDistinct, insert-IsDistinct, lookup-remove_if, remove_if-IsDistinct,
  lookup-insert,
}
use interview_labs.Gateway.Limiter.{
  Bucket, Limiter, full, bucket_of, refill, take_token, new_limiter, is_stale, allow, sweep,
}

-- The tokens that a key has at a time, times the window.
unfoldable pub credit : Limiter → Text → ℕ → ℤ
unfolding bucket_of
credit l key now = refill l (bucket_of l key now) now

-- At time `now`: no key twice, no bucket from the future or in debt.
pub record IsValid (l : Limiter) (now : ℕ) : Type 0 where
  pub distinct : IsDistinct l.buckets
  pub sound :
      (k : Text) (b : Bucket) → lookup k l.buckets ≡ some b → (b.last ≤ now) × (pos 0 ≤ℤ b.tokens)

refill-le-full : (l : Limiter) (b : Bucket) (now : ℕ) → refill l b now ≤ℤ full l
unfolding refill
refill-le-full l b now = ground arith

-- A bucket that was written at `now` has at `now` what was written.
pub refill-written :
    (l : Limiter) (t : ℤ) (now : ℕ)
    → t ≤ℤ full l
    → refill l (record { tokens = t; last = now }) now ≡ t
unfolding refill
refill-written l t now h = ground (
  arith,
  +ℤ_parts t (sub_ℕ (now * l.burst) (now * l.burst)),
  eq_of_parts t (t +ℤ sub_ℕ (now * l.burst) (now * l.burst)),
)

-- Only the burst and the window matter.
refill-buckets :
    (l : Limiter) (m : Assoc Bucket) (b : Bucket) (now : ℕ)
    → refill (record l { buckets = m }) b now ≡ refill l b now
unfolding refill
refill-buckets l m b now = refl

-- What `allow` leaves of the credit of the key that it is asked for.
abbrev pub charged : Limiter → ℤ → ℤ
charged l c = if leb_ℤ (pos l.window) c then take_token l c else c

charged-le-full : (l : Limiter) (c : ℤ) → c ≤ℤ full l → charged l c ≤ℤ full l
charged-le-full l c h = ground (arith, +ℤ_parts c (sub_ℕ 0 l.window))

-- Writing the bucket of `k` at `now`.
abbrev pub written : Limiter → Text → ℤ → ℕ → Limiter
written l k t now = record l { buckets = insert k (record { tokens = t; last = now }) l.buckets }

credit-written :
    (l : Limiter) (k j : Text) (t : ℤ) (now : ℕ)
    → t ≤ℤ full l
    → credit (written l k t now) j now ≡ (if text_eq k j then t else credit l j now)
unfolding credit
credit-written l k j t now h =
    grind (arith, lookup-insert, refill-written l t now h, refill-buckets)

pub allow-written :
    (l : Limiter) (k : Text) (now : ℕ)
    → allow l k now
      ≡ (written l k (charged l (credit l k now)) now, leb_ℤ (pos l.window) (credit l k now))
unfolding allow credit
allow-written l k now = ground arith

credit-le-full : (l : Limiter) (k : Text) (now : ℕ) → credit l k now ≤ℤ full l
unfolding credit
credit-le-full l k now = refill-le-full l (bucket_of l k now) now

-- A new limiter gives every key a full burst.
pub credit-new :
    (burst window : ℕ) (k : Text) (now : ℕ)
    → credit (new_limiter burst window) k now ≡ pos (burst * window)
unfolding credit new_limiter lookup refill
credit-new burst window k now = ground (
  arith,
  +ℤ_parts (pos (burst * window)) (sub_ℕ (now * burst) (now * burst)),
  eq_of_parts (pos (burst * window)) (pos (burst * window) +ℤ sub_ℕ (now * burst) (now * burst)),
)

pub credit-charged :
    (l : Limiter) (k j : Text) (now : ℕ)
    → credit (allow l k now).0 j now
      ≡ (if text_eq k j then charged l (credit l k now) else credit l j now)
credit-charged l k j now =
    rw allow-written (credit-written l k j _ now (charged-le-full l _ (credit-le-full l k now)))

grown :
    (last span later burst : ℕ) → last + span ≤ later → last * burst + span * burst ≤ later * burst
grown last span later burst h = let (k, e) = le_dest h in omega (arith, ap (λ (t : ℕ). t * burst) e)

-- An idle bucket that is swept was full already.
stale-refill :
    (l : Limiter) (b : Bucket) (now later : ℕ)
    → pos 0 ≤ℤ b.tokens
    → now ≤ later
    → is_stale l now b ≡ true
    → refill l b later ≡ full l
unfolding refill
stale-refill l b now later pos_tokens le stale =
    let elapsed : b.last + 2 * l.window ≤ later = ground arith in
    ground (
      arith,
      grown b.last (2 * l.window) later l.burst elapsed,
      +ℤ_parts b.tokens (sub_ℕ (later * l.burst) (b.last * l.burst)),
      eq_of_parts (b.tokens +ℤ sub_ℕ (later * l.burst) (b.last * l.burst)) (full l),
    )

-- Sweeping is not observable: from the time of the sweep on every key has the credit that it would
-- have had without it, if no key has two buckets, no bucket is later than the sweep, and none is in
-- debt.
pub credit-sweep :
    (l : Limiter) (now later : ℕ) (k : Text)
    → IsValid l now
    → now ≤ later
    → credit (sweep l now) k later ≡ credit l k later
unfolding credit sweep
credit-sweep l now later k v le = elim (Option-cases (lookup k l.buckets)) [
  | inl gone ↦
      grind (arith, lookup-remove_if (is_stale l now) k l.buckets v.distinct, refill-buckets)
  | inr (b, there) ↦ grind (
    arith,
    lookup-remove_if (is_stale l now) k l.buckets v.distinct,
    refill-buckets,
    stale-refill l b now later (v.sound k b there).1 le,
    refill-written l (full l) later,
  )
]

pub sweep-IsValid : (l : Limiter) (now : ℕ) → IsValid l now → IsValid (sweep l now) now
unfolding sweep
sweep-IsValid l now v = record {
  distinct = remove_if-IsDistinct (is_stale l now) l.buckets v.distinct;
  sound = λ k b e. elim (Option-cases (lookup k l.buckets)) [
    | inl gone ↦ ground (arith, lookup-remove_if (is_stale l now) k l.buckets v.distinct)
    | inr (c, there) ↦
        ground (arith, lookup-remove_if (is_stale l now) k l.buckets v.distinct, v.sound k c there)
  ];
}

refill-nonneg :
    (l : Limiter) (b : Bucket) (now : ℕ)
    → b.last ≤ now
    → pos 0 ≤ℤ b.tokens
    → pos 0 ≤ℤ refill l b now
unfolding refill
refill-nonneg l b now le pos_tokens = ground (
  arith,
  grown b.last 0 now l.burst,
  +ℤ_parts b.tokens (sub_ℕ (now * l.burst) (b.last * l.burst)),
)

pub credit-nonneg :
    (l : Limiter) (k : Text) (before now : ℕ)
    → IsValid l before
    → before ≤ now
    → pos 0 ≤ℤ credit l k now
unfolding credit
credit-nonneg l k before now v le = elim (Option-cases (lookup k l.buckets)) [
  | inl gone ↦ rw (gone, bucket_of) (rw (refill-written l (full l) now (omega arith)) (omega arith))
  | inr (b, there) ↦
      rw (there, bucket_of)
        (refill-nonneg l b now (omega (arith, (v.sound k b there).0)) (v.sound k b there).1)
]

charged-nonneg : (l : Limiter) (c : ℤ) → pos 0 ≤ℤ c → pos 0 ≤ℤ charged l c
charged-nonneg l c h = ground (arith, +ℤ_parts c (sub_ℕ 0 l.window))

pub allow-IsValid :
    (l : Limiter) (k : Text) (before now : ℕ)
    → IsValid l before
    → before ≤ now
    → IsValid (allow l k now).0 now
allow-IsValid l k before now v le = rw allow-written (record {
  distinct = insert-IsDistinct k _ l.buckets v.distinct;
  sound = λ j b e. ground (
    arith,
    lookup-insert k j (record { tokens = charged l (credit l k now); last = now }) l.buckets,
    charged-nonneg l (credit l k now) (credit-nonneg l k before now v le),
    v.sound j b,
  );
})
