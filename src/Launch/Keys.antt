-- ===== src/Launch/Keys.antt =====
-- The phases before the mint of the AI key, the mint, and the phases after it.
use interview_labs.Prelude.{Text, Bool, true, false, [], ◌∷◌, ◌≡◌, refl, ap, inl, inr}
use interview_labs.Session.Metadata.{Metadata, Phase}
use interview_labs.Pipeline.{MintedKey, Op, State, World, Act, Nothing, perform, write}
use interview_labs.Pipeline.Triples.{
  Triple, Keeps, Triple-pure, Triple-bind, Triple-weaken, Triple-perform, Triple-write, Triple-gets,
}
use interview_labs.Launch.Phases.{Inputs, pull_stack, mint_ai_key, mint_if}
use interview_labs.Launch.Steps
use native.Mathlib.Omega.{arith}
use interview_labs.Launch.Mints.{
  no_mint, minted_keys, MintOrder, pulled_order, IsRecorded, IsRecorded-step, keys-unmint,
}

module _ (w : World) where
  abbrev pub Before : State → Type 0
  Before s = no_mint s.trace ≡ true

  pub Before-performed :
      (op : Op) → Steps.is_mint op ≡ false → Steps.is_store op ≡ false → Keeps Before (perform w op)
  Before-performed op e _ = Triple-perform w op (λ s h. ground arith) (λ s h. ground arith)

  pub Before-written : (f : Metadata → Metadata) → Steps.KeepsHash f → Keeps Before (write w f)
  Before-written f e = Triple-write w f (λ s h. h) (λ s h. h)

module _ (w : World) (o : MintOrder) where
  abbrev pub Pulled : State → Type 0
  Pulled s = (no_mint s.trace ≡ true) × o.Ready s.trace

  abbrev pub After : State → Type 0
  After s = IsRecorded s × o.Ordered s.trace

  pub Pulled-performed :
      (op : Op) → Steps.is_mint op ≡ false → Steps.is_store op ≡ false → Keeps Pulled (perform w op)
  Pulled-performed op e _ =
      Triple-perform w op (λ s h. (ground arith, o.ready-step _ _ h.1))
        (λ s h. (ground arith, o.ready-step _ _ h.1))

  pub Pulled-written : (f : Metadata → Metadata) → Steps.KeepsHash f → Keeps Pulled (write w f)
  Pulled-written f e =
      Triple-write w f (λ s h. (h.0, o.ready-step _ _ h.1)) (λ s h. (h.0, o.ready-step _ _ h.1))

  pub After-performed :
      (op : Op) → Steps.is_mint op ≡ false → Steps.is_store op ≡ false → Keeps After (perform w op)
  After-performed op e _ =
      Triple-perform w op
        (λ s h. (IsRecorded-step s op s.meta false e refl h.0, o.ordered-step _ _ e h.1))
        (λ s h. (IsRecorded-step s op s.meta true e refl h.0, o.ordered-step _ _ e h.1))

  pub After-written : (f : Metadata → Metadata) → Steps.KeepsHash f → Keeps After (write w f)
  After-written f e =
      Triple-write w f
        (λ s h. (
          IsRecorded-step s (Op.write_metadata (f s.meta)) (f s.meta) false refl (e s.meta) h.0,
          o.ordered-step _ _ refl h.1,
        ))
        (λ s h. (
          IsRecorded-step s (Op.write_metadata (f s.meta)) (f s.meta) true refl (e s.meta) h.0,
          o.ordered-step _ _ refl h.1,
        ))

  pub Before-After : (s : State) → Before w s → After s
  Before-After s h = (inl (keys-unmint s.trace h), o.ordered-none s.trace h)

  -- A key with hash `h` was minted, and is not yet in the session.
  abbrev Minted : Text → State → Type 0
  Minted h s = (minted_keys s.trace ≡ h ∷ []) × o.Ordered s.trace

  Triple-mint : (h : Text) → Triple Pulled (Minted h) After (perform w (Op.mint h))
  Triple-mint h =
      Triple-perform w _ (λ s p. (inl (keys-unmint s.trace p.0), o.ordered-mint _ _ p.0 p.1))
        (λ s p. (ap (λ t. h ∷ t) (keys-unmint s.trace p.0), o.ordered-mint _ _ p.0 p.1))

  Triple-store_key :
      (key : MintedKey)
      → Triple
          (Minted key.hash)
          After
          After
          (write w (λ m. record m { ai_key_hash = key.hash; ai_cap_usd = key.cap_usd }))
  Triple-store_key key =
      Triple-write w _ (λ s p. (inr p.0, o.ordered-step _ _ refl p.1))
        (λ s p. (inr p.0, o.ordered-step _ _ refl p.1))

  Triple-mint_ai_key : Triple Pulled After After (mint_ai_key w)
  unfolding mint_ai_key
  Triple-mint_ai_key =
      Triple-bind _ _
        (Triple-weaken _ (λ s h. h) (λ s h. h) (λ s h. Before-After s h.0)
          (Steps.Keeps-set_phase w Pulled Pulled-performed Pulled-written Phase.ai_mint))
        (λ _. Triple-bind _ _ (Triple-gets _) (λ key.
          Triple-bind {Q = Minted key.hash} _ _ (Triple-mint key.hash)
            (λ _. Triple-bind _ _ (Triple-store_key key) (λ _. Triple-pure _ (λ s h. h)))))

  pub Triple-mint_if : (b : Bool) → Triple Pulled After After (mint_if w b)
  unfolding mint_if
  Triple-mint_if true = Triple-mint_ai_key
  Triple-mint_if false = Triple-pure _ (λ s h. Before-After s h.0)

module _ (w : World) where
  pub Triple-pull_stack :
      (i : Inputs) → Triple (Before w) (Pulled w pulled_order) (Before w) (pull_stack w i)
  unfolding pull_stack
  Triple-pull_stack i =
      Triple-bind _ _
        (Steps.Keeps-set_phase w (Before w) (Before-performed w) (Before-written w)
          Phase.pull_stack)
        (λ _.
          Triple-bind _ _ (Before-performed w (Op.open_log _) refl refl)
            (λ _. Triple-perform w _ (λ s h. h) (λ s h. (h, refl))))

module _ (w : World) (o : MintOrder) where
  -- A phase before the mint.
  pub early : {m : Act Nothing} → Keeps (Before w) m → Triple (Before w) (Before w) (After w o) m
  early k = Triple-weaken _ (λ s h. h) (λ s h. h) (Before-After w o) k

  -- A phase between the pull and the mint.
  pub pulled :
      {m : Act Nothing} → Keeps (Pulled w o) m → Triple (Pulled w o) (Pulled w o) (After w o) m
  pulled k = Triple-weaken _ (λ s h. h) (λ s h. h) (λ s h. Before-After w o s h.0) k
