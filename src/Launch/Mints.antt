-- ===== src/Launch/Mints.antt =====
-- What a trace says of the AI keys that a launch mints.
use interview_labs.Prelude.{Text, Bool, true, false, ◌&&◌, ◌||◌, not, List, [], ◌∷◌, ◌≡◌, refl, ◌⊎◌}
use interview_labs.Session.Metadata.{Metadata}
use interview_labs.Pipeline.{Op, Event, State}
use interview_labs.Launch.Steps
use native.Mathlib.Omega.{arith}

abbrev is_pull : Op → Bool
is_pull (Op.pull gateway vscode) = true
is_pull _ = false

abbrev pub no_mint : List Event → Bool
no_mint [] = true
no_mint (e ∷ t) = not (Steps.is_mint e.op) && no_mint t

-- Whether the images were pulled.
abbrev pub has_pull : List Event → Bool
has_pull [] = false
has_pull (e ∷ t) = e.done && is_pull e.op || has_pull t

abbrev minted_by : Bool → Op → List Text → List Text
minted_by true (Op.mint hash) t = hash ∷ t
minted_by _ _ t = t

-- The hashes of the keys that were minted.
abbrev pub minted_keys : List Event → List Text
minted_keys [] = []
minted_keys (e ∷ t) = minted_by e.done e.op (minted_keys t)

-- Each attempt to mint a key has a pull of the images before it.
pub PullFirst : List Event → Type 0
PullFirst [] = Unit
PullFirst (e ∷ t) = (Steps.is_mint e.op ≡ true → has_pull t ≡ true) × PullFirst t

pub unmint : (o : Op) (d : Bool) (t : List Text) → Steps.is_mint o ≡ false → minted_by d o t ≡ t
unmint (Op.mint h) d t e = ground arith
unmint o true t e = refl
unmint o false t e = refl

pub PullFirst-unmint : (t : List Event) → no_mint t ≡ true → PullFirst t
unfolding PullFirst
PullFirst-unmint [] h = tt
PullFirst-unmint (e ∷ t) h = (ground arith, PullFirst-unmint t (ground arith))

pub keys-unmint : (t : List Event) → no_mint t ≡ true → minted_keys t ≡ []
keys-unmint [] h = refl
keys-unmint (e ∷ t) h = ground (arith, unmint e.op e.done (minted_keys t), keys-unmint t)

-- An order of the attempts to mint: what must have happened before one, and what it says of the
-- trace.
pub record MintOrder : Type 1 where
  pub Ready : List Event → Type 0
  pub Ordered : List Event → Type 0
  pub ready-step : (e : Event) (t : List Event) → Ready t → Ready (e ∷ t)
  pub ordered-none : (t : List Event) → no_mint t ≡ true → Ordered t
  pub ordered-mint : (e : Event) (t : List Event) → no_mint t ≡ true → Ready t → Ordered (e ∷ t)
  pub ordered-step :
      (e : Event) (t : List Event) → Steps.is_mint e.op ≡ false → Ordered t → Ordered (e ∷ t)

abbrev pub any_order : MintOrder
any_order = record {
  Ready = λ t. Unit;
  Ordered = λ t. Unit;
  ready-step = λ e t h. tt;
  ordered-none = λ t h. tt;
  ordered-mint = λ e t h r. tt;
  ordered-step = λ e t h r. tt;
}

pub pulled_order-step : (e : Event) (t : List Event) → has_pull t ≡ true → has_pull (e ∷ t) ≡ true
pulled_order-step e t h = ground arith

pub PullFirst-mint :
    (e : Event) (t : List Event) → no_mint t ≡ true → has_pull t ≡ true → PullFirst (e ∷ t)
unfolding PullFirst
PullFirst-mint e t h r = ((λ _. r), PullFirst-unmint t h)

pub PullFirst-step :
    (e : Event) (t : List Event) → Steps.is_mint e.op ≡ false → PullFirst t → PullFirst (e ∷ t)
unfolding PullFirst
PullFirst-step e t h r = ((λ q. ground arith), r)

abbrev pub pulled_order : MintOrder
pulled_order = record {
  Ready = λ t. has_pull t ≡ true;
  Ordered = PullFirst;
  ready-step = pulled_order-step;
  ordered-none = PullFirst-unmint;
  ordered-mint = PullFirst-mint;
  ordered-step = PullFirst-step;
}

-- At most one key was minted, and its hash stands in the session.
abbrev pub IsRecorded : State → Type 0
IsRecorded s = (minted_keys s.trace ≡ []) ⊎ (minted_keys s.trace ≡ s.meta.ai_key_hash ∷ [])

pub IsRecorded-step :
    (s : State) (o : Op) (m : Metadata) (b : Bool)
    → Steps.is_mint o ≡ false
    → m.ai_key_hash ≡ s.meta.ai_key_hash
    → IsRecorded s
    → (minted_by b o (minted_keys s.trace) ≡ [])
      ⊎ (minted_by b o (minted_keys s.trace) ≡ m.ai_key_hash ∷ [])
IsRecorded-step s o m b e h r = ground (arith, unmint o b (minted_keys s.trace))
