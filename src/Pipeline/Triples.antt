-- ===== src/Pipeline/Triples.antt =====
-- Statements about steps: from a state with `P`, a step that returns leaves one with `Q`, and a
-- step that fails leaves one with `E`. One rule for each way to build a step.
use interview_labs.Prelude.{◌≡◌, refl, Bool, true, false, if◌then◌else◌}
use interview_labs.Session.Metadata.{Metadata}
use interview_labs.Pipeline.{
  write_metadata, op_failed, logged, changed, stored, State, World, Op, Failure, Result, ok, err,
  Act, Nothing, pure, raise, gets, continue, after_error, or_else, catch, recover, attempt, ◌>>=◌,
  perform, write,
}

module _ {A : Type 0} (Q E : State → Type 0) where
  abbrev pub Post : Result A → State → Type 0
  Post (ok a) s = Q s
  Post (err e) s = E s

pub record Triple {A : Type 0} (P Q E : State → Type 0) (m : Act A) : Type 0 where
  pub at : (s : State) → P s → Post Q E (m s).0 (m s).1

-- A property that a step keeps, whether it returns or fails.
abbrev pub Keeps : {A : Type 0} → (State → Type 0) → Act A → Type 0
Keeps P m = Triple P P P m

module _ {A : Type 0} {P Q E : State → Type 0} where
  pub Triple-pure : (a : A) → ((s : State) → P s → Q s) → Triple P Q E (pure a)
  unfolding pure
  Triple-pure a h = record { at = h }

  pub Triple-raise : (e : Failure) → ((s : State) → P s → E s) → Triple P Q E (raise {A = A} e)
  unfolding raise
  Triple-raise e h = record { at = h }

module _ {A : Type 0} {P : State → Type 0} where
  pub Keeps-pure : (a : A) → Keeps P (pure a)
  Keeps-pure a = Triple-pure a (λ s h. h)

  pub Keeps-raise : (e : Failure) → Keeps P (raise {A = A} e)
  Keeps-raise e = Triple-raise e (λ s h. h)

  pub Keeps-gets : (f : State → A) → Keeps P (gets f)
  unfolding gets
  Keeps-gets f = record { at = λ s h. h }

module _ {A : Type 0} {P E : State → Type 0} where
  pub Triple-gets : (f : State → A) → Triple P P E (gets f)
  unfolding gets
  Triple-gets f = record { at = λ s h. h }

module _ {A B : Type 0} {Q R E : State → Type 0} where
  bind-Post :
      (f : A → Act B)
      → ((a : A) → Triple Q R E (f a))
      → (r : Result A) (s : State) → Post Q E r s
      → Post R E (continue r f s).0 (continue r f s).1
  bind-Post f kf (ok a) s h = (kf a).at s h
  bind-Post f kf (err e) s h = h

module _ {A B : Type 0} {P Q R E : State → Type 0} where
  pub Triple-bind :
      (m : Act A) (f : A → Act B)
      → Triple P Q E m
      → ((a : A) → Triple Q R E (f a))
      → Triple P R E (m >>= f)
  unfolding ◌>>=◌
  Triple-bind m f km kf = record { at = λ s h. bind-Post f kf (m s).0 (m s).1 (km.at s h) }

module _ {A B : Type 0} {P R E : State → Type 0} where
  -- What is read, with what is known of it.
  pub Triple-read :
      (f : State → A) (k : A → Act B) (Known : A → State → Type 0)
      → ((s : State) → P s → Known (f s) s)
      → ((a : A) → Triple (Known a) R E (k a))
      → Triple P R E (gets f >>= k)
  unfolding ◌>>=◌ gets
  Triple-read f k Known h kk = record { at = λ s p. (kk (f s)).at s (h s p) }

module _ {A : Type 0} {P Q E : State → Type 0} where
  pub Triple-if :
      (b : Bool) (m n : Act A)
      → (b ≡ true → Triple P Q E m)
      → (b ≡ false → Triple P Q E n)
      → Triple P Q E (if b then m else n)
  Triple-if true m n km kn = km refl
  Triple-if false m n km kn = kn refl

module _ {A : Type 0} {Q Q' E E' : State → Type 0} where
  Post-weaken :
      ((s : State) → Q s → Q' s)
      → ((s : State) → E s → E' s)
      → (r : Result A) (s : State) → Post Q E r s
      → Post Q' E' r s
  Post-weaken hq he (ok a) s h = hq s h
  Post-weaken hq he (err e) s h = he s h

module _ {A : Type 0} {P P' Q Q' E E' : State → Type 0} where
  pub Triple-weaken :
      (m : Act A)
      → ((s : State) → P' s → P s)
      → ((s : State) → Q s → Q' s)
      → ((s : State) → E s → E' s)
      → Triple P Q E m
      → Triple P' Q' E' m
  Triple-weaken m hp hq he k = record {
    at = λ s h. Post-weaken hq he (m s).0 (m s).1 (k.at s (hp s h));
  }

module _ {A B : Type 0} {P : State → Type 0} where
  pub Keeps-bind :
      (m : Act A) (f : A → Act B) → Keeps P m → ((a : A) → Keeps P (f a)) → Keeps P (m >>= f)
  Keeps-bind m f km kf = Triple-bind m f km kf

module _ {A B : Type 0} {P : State → Type 0} where
  after_error-Post :
      (n : Act B)
      → Keeps P n
      → (r : Result A) (s : State) → Post P P r s
      → Post P P (after_error r n s).0 (after_error r n s).1
  after_error-Post n kn (ok a) s h = h
  after_error-Post n kn (err e) s h = either (n s).0 (n s).1 (kn.at s h)
    where
      either : (r : Result B) (s' : State) → Post P P r s' → P s'
      either (ok b) s' h' = h'
      either (err x) s' h' = h'

  pub Keeps-or_else : (m : Act A) (n : Act B) → Keeps P m → Keeps P n → Keeps P (or_else m n)
  unfolding or_else
  Keeps-or_else m n km kn = record { at = λ s h. after_error-Post n kn (m s).0 (m s).1 (km.at s h) }

module _ {A : Type 0} {Q E F : State → Type 0} where
  recover-Post :
      (f : Failure → Act A)
      → ((e : Failure) → Triple E Q F (f e))
      → (r : Result A) (s : State) → Post Q E r s
      → Post Q F (recover r f s).0 (recover r f s).1
  recover-Post f kf (ok a) s h = h
  recover-Post f kf (err e) s h = (kf e).at s h

module _ {A : Type 0} {P Q E F : State → Type 0} where
  pub Triple-catch :
      (m : Act A) (f : Failure → Act A)
      → Triple P Q E m
      → ((e : Failure) → Triple E Q F (f e))
      → Triple P Q F (catch m f)
  unfolding catch
  Triple-catch m f km kf = record { at = λ s h. recover-Post f kf (m s).0 (m s).1 (km.at s h) }

module _ {P Q F : State → Type 0} where
  -- A step whose error is not looked at may leave any of two properties.
  pub Triple-attempt : (m : Act Nothing) → Triple P Q Q m → Triple P Q F (attempt m)
  unfolding attempt
  Triple-attempt m k = Triple-catch m _ k (λ e. Triple-pure tt (λ s h. h))

module _ {A : Type 0} (Q : State → Type 0) where
  either : (r : Result A) (s : State) → Post Q Q r s → Q s
  either (ok a) s h = h
  either (err e) s h = h

module _ {A : Type 0} {P Q : State → Type 0} where
  -- What holds after a step, whether it returns or fails.
  pub Triple-after : (m : Act A) (s : State) → Triple P Q Q m → P s → Q (m s).1
  Triple-after m s k h = either Q (m s).0 (m s).1 (k.at s h)

module _ (w : World) {P Q E : State → Type 0} where
  pub Triple-perform :
      (op : Op)
      → ((s : State) → P s → E (logged op false s))
      → ((s : State) → P s → Q (logged op true s))
      → Triple P Q E (perform w op)
  unfolding perform
  Triple-perform op he hq = record { at = λ s h. split s h (w.fails op s.trace) }
    where
      split :
          (s : State)
          → P s
          → (b : Bool)
          → (let (r, s') =
                if◌then◌else◌ {A = Result Nothing × State} b
                  (err (op_failed op), logged op false s)
                  (ok tt, logged op true s) in
              Post Q E r s')
      split s h true = he s h
      split s h false = hq s h

  pub Triple-write :
      (f : Metadata → Metadata)
      → ((s : State) → P s → E (changed f s))
      → ((s : State) → P s → Q (stored f s))
      → Triple P Q E (write w f)
  unfolding write
  Triple-write f he hq = record {
    at = λ s h. split s h (w.fails (write_metadata (f s.meta)) s.trace);
  }
    where
      split :
          (s : State)
          → P s
          → (b : Bool)
          → (let (r, s') =
                if◌then◌else◌ {A = Result Nothing × State} b
                  (err (op_failed (write_metadata (f s.meta))), changed f s)
                  (ok tt, stored f s) in
              Post Q E r s')
      split s h true = he s h
      split s h false = hq s h

pub ruleset keeps_rules =
    (Keeps-pure, Keeps-raise, Keeps-gets, Keeps-bind, Triple-if, Keeps-or_else)
