-- ===== src/Gateway/Limiter/Rate.antt =====
-- How many attempts a client gets in a stretch of time, whatever the others do.
use native.Mathlib.Nat.{le_dest}
use interview_labs.Prelude.{
  ℕ, suc, ◌+◌, ◌-◌, ◌*◌, ◌≤◌, Text, Bool, Option-cases, inl, inr, true, false, List, [], ◌∷◌, ◌≡◌,
  ap, refl, arith, text_eq, text_eq_iff, ◌&&◌, if◌then◌else◌,
}
use interview_labs.Prelude.Int.{ℤ, pos_part, neg_part, sub_ℕ, +ℤ_parts}
use interview_labs.Prelude.Assoc.{lookup}
use interview_labs.Gateway.Limiter.{
  Bucket, Limiter, full, bucket_of, refill, new_limiter, allow, sweep,
}
use interview_labs.Gateway.Limiter.Credit.{
  credit, IsValid, credit-charged, allow-written, credit-sweep, sweep-IsValid, allow-IsValid,
  credit-nonneg, credit-new, refill-written,
}

-- What happens to the limiter: a login attempt of a client, or a round of the sweeper.
pub data Event : Type 0 where
  attempt : Text → ℕ → Event
  clean : ℕ → Event

abbrev pub time_of : Event → ℕ
time_of (attempt k t) = t
time_of (clean t) = t

-- The times do not fall, from `t` on and up to `last`.
abbrev pub IsOrdered : ℕ → ℕ → List Event → Type 0
IsOrdered t last [] = t ≤ last
IsOrdered t last (e ∷ es) = (t ≤ time_of e) × IsOrdered (time_of e) last es

abbrev pub handle : Limiter → Event → Limiter
handle l (attempt k t) = (allow l k t).0
handle l (clean t) = sweep l t

-- Whether the event is an attempt of `k` that is let through.
abbrev pub is_admitted : Text → Limiter → Event → Bool
is_admitted k l (attempt j t) = text_eq j k && (allow l j t).1
is_admitted k l (clean t) = false

-- How many attempts of `k` are let through.
unfoldable pub admitted : Text → Limiter → List Event → ℕ
admitted k l [] = 0
admitted k l (e ∷ es) =
    let rest = admitted k (handle l e) es in if is_admitted k l e then suc rest else rest

mul-elapsed : (t later burst : ℕ) → t ≤ later → later * burst ≡ t * burst + (later - t) * burst
mul-elapsed t later burst h =
    let (k, e) = le_dest h in
    let d : later - t ≡ k = omega arith in
    omega (arith, ap (λ (s : ℕ). s * burst) e, ap (λ (s : ℕ). s * burst) d)

-- `a` exceeds `b` by at most `d`.
abbrev ExceedsBy : ℕ → ℤ → ℤ → Type 0
ExceedsBy d a b = pos_part a + neg_part b ≤ pos_part b + neg_part a + d

refill-later :
    (l : Limiter) (b : Bucket) (t later : ℕ)
    → t ≤ later
    → ExceedsBy ((later - t) * l.burst) (refill l b later) (refill l b t)
unfolding refill
refill-later l b t later h = ground (
  arith,
  mul-elapsed t later l.burst,
  +ℤ_parts b.tokens (sub_ℕ (later * l.burst) (b.last * l.burst)),
  +ℤ_parts b.tokens (sub_ℕ (t * l.burst) (b.last * l.burst)),
)

mul-elapsed_sum :
    (t s last burst : ℕ)
    → t ≤ s
    → s ≤ last
    → (last - t) * burst ≡ (s - t) * burst + (last - s) * burst
mul-elapsed_sum t s last burst h h' = omega (
  arith,
  mul-elapsed t last burst (omega arith),
  mul-elapsed t s burst h,
  mul-elapsed s last burst h',
)

-- A credit grows by at most `burst` for each nanosecond.
credit-later :
    (l : Limiter) (k : Text) (t later : ℕ)
    → t ≤ later
    → ExceedsBy ((later - t) * l.burst) (credit l k later) (credit l k t)
unfolding credit
credit-later l k t later h = elim (Option-cases (lookup k l.buckets)) [
  | inl gone ↦
      rw (gone, bucket_of)
        (omega (
          arith,
          ap pos_part (refill-written l (full l) later (omega arith)),
          ap neg_part (refill-written l (full l) later (omega arith)),
          ap pos_part (refill-written l (full l) t (omega arith)),
          ap neg_part (refill-written l (full l) t (omega arith)),
        ))
  | inr (b, there) ↦ rw (there, bucket_of) (refill-later l b t later h)
]

-- One attempt of `j`, seen from `k`: if it is let through and `k` is its client, a token is spent.
spend :
    (l : Limiter) (k j : Text) (t : ℕ)
    → pos_part (credit (allow l j t).0 k t)
        + neg_part (credit l k t)
        + (if text_eq j k && (allow l j t).1 then l.window else 0)
      ≤ pos_part (credit l k t) + neg_part (credit (allow l j t).0 k t)
spend l k j t = ground (
  arith,
  allow-written l j t,
  credit-charged l j k t,
  text_eq_iff j k,
  +ℤ_parts (credit l k t) (sub_ℕ 0 l.window),
)

burst_kept :
    (l : Limiter) (j : Text) (t : ℕ)
    → ((allow l j t).0.burst ≡ l.burst) × ((allow l j t).0.window ≡ l.window)
unfolding allow
burst_kept l j t = ground arith

pub IsValid-later : (l : Limiter) (t s : ℕ) → t ≤ s → IsValid l t → IsValid l s
IsValid-later l t s h v = record {
  distinct = v.distinct;
  sound = λ k b e. (omega (arith, (v.sound k b e).0), (v.sound k b e).1);
}

-- The tokens that a key can still spend up to `last`.
abbrev Affords : ℕ → ℕ → ℕ → ℤ → ℕ → ℕ → Type 0
Affords n window burst c t last = n * window + neg_part c ≤ pos_part c + (last - t) * burst

spent :
    (b : Bool) (l : Limiter) (c c' c'' : ℤ) (n t s last : ℕ)
    → pos_part c'' + neg_part c' + (if b then l.window else 0) ≤ pos_part c' + neg_part c''
    → ExceedsBy ((s - t) * l.burst) c' c
    → (last - t) * l.burst ≡ (s - t) * l.burst + (last - s) * l.burst
    → Affords n l.window l.burst c'' s last
    → Affords (if b then suc n else n) l.window l.burst c t last
spent true l c c' c'' n t s last h1 h2 h3 h4 = omega arith
spent false l c c' c'' n t s last h1 h2 h3 h4 = omega arith

attempt_step :
    (l : Limiter) (k j : Text) (n t s last : ℕ)
    → t ≤ s
    → s ≤ last
    → Affords n l.window l.burst (credit (allow l j s).0 k s) s last
    → Affords
        (if text_eq j k && (allow l j s).1 then suc n else n)
        l.window
        l.burst
        (credit l k t)
        t
        last
attempt_step l k j n t s last h h' ih =
    spent (text_eq j k && (allow l j s).1) l (credit l k t) (credit l k s) _ n t s last
      (spend l k j s) (credit-later l k t s h) (mul-elapsed_sum t s last l.burst h h') ih

clean_step :
    (l : Limiter) (k : Text) (n t s last : ℕ)
    → IsValid l t
    → t ≤ s
    → s ≤ last
    → Affords n l.window l.burst (credit (sweep l s) k s) s last
    → Affords n l.window l.burst (credit l k t) t last
clean_step l k n t s last v h h' ih =
    let same = credit-sweep l s s k (IsValid-later l t s h v) (omega arith) in
    omega (
      arith,
      ap pos_part same,
      ap neg_part same,
      credit-later l k t s h,
      mul-elapsed_sum t s last l.burst h h',
    )

sweep_kept : (l : Limiter) (t : ℕ) → ((sweep l t).burst ≡ l.burst) × ((sweep l t).window ≡ l.window)
unfolding sweep
sweep_kept l t = (refl, refl)

admitted-Affords :
    (k : Text) (events : List Event) (l : Limiter) (t last : ℕ)
    → IsValid l t
    → IsOrdered t last events
    → (t ≤ last) × Affords (admitted k l events) l.window l.burst (credit l k t) t last
unfolding admitted sweep
admitted-Affords k [] l t last v o = (o, omega (arith, credit-nonneg l k t t v (omega arith)))
admitted-Affords k (attempt j s ∷ es) l t last v (h, o) =
    let (le, ih) = admitted-Affords k es (allow l j s).0 s last (allow-IsValid l j t s v h) o in
    (
      omega arith,
      attempt_step l k j (admitted k (allow l j s).0 es) t s last h le
          (rw (burst_kept l j s).0 at (rw (burst_kept l j s).1 at ih)),
    )
admitted-Affords k (clean s ∷ es) l t last v (h, o) =
    let (le, ih) =
      admitted-Affords k es (sweep l s) s last (sweep-IsValid l s (IsValid-later l t s h v)) o in
    (
      omega arith,
      clean_step l k (admitted k (sweep l s) es) t s last v h le
          (rw (sweep_kept l s).0 at (rw (sweep_kept l s).1 at ih)),
    )

pub IsValid-new : (burst window t : ℕ) → IsValid (new_limiter burst window) t
unfolding new_limiter lookup
IsValid-new burst window t = record { distinct = tt; sound = λ k b e. cc }

-- Between two moments `t` and `last` a client gets through at most a burst and what the elapsed
-- time pays for, `burst` attempts for each window, whatever other clients do and however often the
-- buckets are swept in between. Times do not go back.
pub admitted_bound :
    (burst window : ℕ) (k : Text) (t last : ℕ) (events : List Event)
    → IsOrdered t last events
    → admitted k (new_limiter burst window) events * window ≤ burst * window + (last - t) * burst
unfolding new_limiter
admitted_bound burst window k t last events o =
    let (_, affords) =
      admitted-Affords k events (new_limiter burst window) t last (IsValid-new burst window t) o in
    bound affords
  where
    bound :
        Affords
          (admitted k (new_limiter burst window) events)
          (new_limiter burst window).window
          (new_limiter burst window).burst
          (credit (new_limiter burst window) k t)
          t
          last
        → admitted k (new_limiter burst window) events * window
          ≤ burst * window + (last - t) * burst
    bound h = omega (arith, rw (credit-new burst window k t) at h)
