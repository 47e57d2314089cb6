-- ===== src/Gateway/Limiter/Refined.antt =====
-- The limiter as a credit for each key: what an attempt costs it, and how it grows.
use native.Mathlib.Nat.{le_dest}
use interview_labs.Prelude.{
  ap, Option-cases, ℕ, ◌+◌, ◌-◌, ◌*◌, ◌≤◌, Text, inl, inr, ◌≡◌, sym, arith, text_eq, text_eq_iff,
  ◌&&◌, Bool, if◌then◌else◌,
}
use interview_labs.Prelude.Int.{
  ℤ, pos, pos_part, neg_part, sub_ℕ, ◌+ℤ◌, leb_ℤ, min_ℤ, +ℤ_parts, eq_of_parts,
}
use interview_labs.Prelude.Assoc.{lookup}
use interview_labs.Gateway.Limiter.{Bucket, Limiter, full, bucket_of, refill, new_limiter, allow}
use interview_labs.Gateway.Limiter.Credit.{
  credit, credit-charged, credit-new, refill-written, allow-written,
}

mul-elapsed : (t later burst : ℕ) → t ≤ later → later * burst ≡ t * burst + (later - t) * burst
mul-elapsed t later burst h =
    let (k, e) = le_dest h in
    let d : later - t ≡ k = omega arith in
    omega (arith, ap (λ (s : ℕ). s * burst) e, ap (λ (s : ℕ). s * burst) d)

-- Growing in two spans, with the limit applied in between, is growing in one.
min_later :
    (limit t a b : ℤ) (d : ℕ)
    → pos_part b + neg_part a ≡ pos_part a + neg_part b + d
    → min_ℤ limit (t +ℤ b) ≡ min_ℤ limit (min_ℤ limit (t +ℤ a) +ℤ pos d)
min_later limit t a b d h = ground (
  arith,
  +ℤ_parts t a,
  +ℤ_parts t b,
  +ℤ_parts (min_ℤ limit (t +ℤ a)) (pos d),
  +ℤ_parts limit (pos d),
  +ℤ_parts (t +ℤ a) (pos d),
  eq_of_parts (t +ℤ b) (t +ℤ a +ℤ pos d),
  eq_of_parts (t +ℤ b) limit,
  eq_of_parts limit (t +ℤ a +ℤ pos d),
)

-- What a credit becomes in a span of time: `burst` more for each nanosecond, up to a full burst.
abbrev pub grown_by : Limiter → ℕ → ℤ → ℤ
grown_by l span c = min_ℤ (pos (l.burst * l.window)) (c +ℤ pos (span * l.burst))

refill-later :
    (l : Limiter) (b : Bucket) (now later : ℕ)
    → now ≤ later
    → refill l b later ≡ grown_by l (later - now) (refill l b now)
unfolding refill
refill-later l b now later h =
    min_later (full l) b.tokens (sub_ℕ (now * l.burst) (b.last * l.burst))
      (sub_ℕ (later * l.burst) (b.last * l.burst)) ((later - now) * l.burst)
      (ground (arith, mul-elapsed now later l.burst h))

grown_by-full : (l : Limiter) (span : ℕ) → grown_by l span (full l) ≡ full l
grown_by-full l span = ground (
  arith,
  +ℤ_parts (full l) (pos (span * l.burst)),
  eq_of_parts (full l) (full l +ℤ pos (span * l.burst)),
)

credit-later :
    (l : Limiter) (k : Text) (now later : ℕ)
    → now ≤ later
    → credit l k later ≡ grown_by l (later - now) (credit l k now)
unfolding credit
credit-later l k now later h = elim (Option-cases (lookup k l.buckets)) [
  | inl gone ↦
      rw (gone, bucket_of)
        (rw
          (
            refill-written l (full l) later (omega arith),
            refill-written l (full l) now (omega arith),
          )
          (sym (grown_by-full l (later - now))))
  | inr (b, there) ↦ rw (there, bucket_of) (refill-later l b now later h)
]

-- A whole token, times the window, less.
abbrev pub spend : Limiter → ℤ → ℤ
spend l c = c +ℤ sub_ℕ 0 l.window

allow-kept :
    (l : Limiter) (k : Text) (now : ℕ)
    → ((allow l k now).0.burst ≡ l.burst) × ((allow l k now).0.window ≡ l.window)
unfolding allow
allow-kept l k now = ground arith

-- A key's credit, counted in tokens times the window, is what it may spend. An attempt is admitted
-- exactly when the key's credit holds a whole token. It then costs the key one token; a refused
-- attempt costs nothing, and no other key's credit changes, whatever the times. From the attempt
-- on every credit grows by `burst` for each nanosecond, up to a full burst; with a new
-- limiter every key has a full burst.
pub allow_refines :
    (l : Limiter) (k j : Text) (now later : ℕ)
    → now ≤ later
    → ((allow l k now).1 ≡ leb_ℤ (pos l.window) (credit l k now))
      × (credit (allow l k now).0 j now ≡ (
          if text_eq k j && leb_ℤ (pos l.window) (credit l k now)
          then spend l (credit l j now)
          else credit l j now))
      × (credit (allow l k now).0 j later
          ≡ grown_by l (later - now) (credit (allow l k now).0 j now))
      × (credit (new_limiter l.burst l.window) j now ≡ pos (l.burst * l.window))
allow_refines l k j now later h = (
  ap (λ (r : Limiter × Bool). r.1) (allow-written l k now),
  ground (arith, text_eq_iff k j, credit-charged l k j now, ap (λ (t : Text). credit l t now)),
  rw ((allow-kept l k now).0, (allow-kept l k now).1) at
      (credit-later (allow l k now).0 j now later h),
  credit-new l.burst l.window j now,
)
