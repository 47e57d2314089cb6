-- ===== src/Pipeline/Total.antt =====
-- Steps that return when no operation fails.
use interview_labs.Prelude.{false, List, ◌≡◌, refl}
use interview_labs.Session.Metadata.{Metadata}
use interview_labs.Pipeline.{
  World, State, Op, Event, Failure, Result, ok, err, Act, Nothing, pure, gets, ◌>>=◌, or_else,
  catch, attempt, perform, write, write_metadata, continue, recover, after_error,
}

-- No operation fails, whatever was done before.
abbrev pub IsCalm : World → Type 0
IsCalm w = (op : Op) (t : List Event) → w.fails op t ≡ false

abbrev Returned : {A : Type 0} → Result A → Type 0
Returned (ok a) = Unit
Returned (err e) = ⊥

-- From every state the step returns.
pub record Total {A : Type 0} (m : Act A) : Type 0 where
  pub at : (s : State) → Returned (m s).0

module _ {A : Type 0} where
  pub Total-pure : (a : A) → Total (pure a)
  unfolding pure
  Total-pure a = record { at = λ s. tt }

  pub Total-gets : (f : State → A) → Total (gets f)
  unfolding gets
  Total-gets f = record { at = λ s. tt }

module _ {A B : Type 0} where
  continue-Returned :
      (f : A → Act B)
      → ((a : A) → Total (f a))
      → (r : Result A) (s : State) → Returned r
      → Returned (continue r f s).0
  continue-Returned f k (ok a) s h = (k a).at s
  continue-Returned f k (err e) s h = elim h [ ]

  after_error-Returned :
      (n : Act B) (r : Result A) (s : State) → Returned r → Returned (after_error r n s).0
  after_error-Returned n (ok a) s h = tt
  after_error-Returned n (err e) s h = elim h [ ]

  pub Total-bind : (m : Act A) (f : A → Act B) → Total m → ((a : A) → Total (f a)) → Total (m >>= f)
  unfolding ◌>>=◌
  Total-bind m f km kf = record { at = λ s. continue-Returned f kf (m s).0 (m s).1 (km.at s) }

  pub Total-or_else : (m : Act A) (n : Act B) → Total m → Total (or_else m n)
  unfolding or_else
  Total-or_else m n km = record { at = λ s. after_error-Returned n (m s).0 (m s).1 (km.at s) }

module _ {A : Type 0} where
  recover-Returned :
      (f : Failure → Act A) (r : Result A) (s : State) → Returned r → Returned (recover r f s).0
  recover-Returned f (ok a) s h = tt
  recover-Returned f (err e) s h = elim h [ ]

  pub Total-catch : (m : Act A) (f : Failure → Act A) → Total m → Total (catch m f)
  unfolding catch
  Total-catch m f km = record { at = λ s. recover-Returned f (m s).0 (m s).1 (km.at s) }

pub Total-attempt : (m : Act Nothing) → Total m → Total (attempt m)
unfolding attempt
Total-attempt m km = Total-catch m _ km

ok-Returned : (r : Result Nothing) → Returned r → r ≡ ok tt
ok-Returned (ok a) h = refl
ok-Returned (err e) h = elim h [ ]

pub Total-ok : (m : Act Nothing) → Total m → (s : State) → (m s).0 ≡ ok tt
Total-ok m k s = ok-Returned (m s).0 (k.at s)

module _ (w : World) (calm : IsCalm w) where
  pub Total-perform : (op : Op) → Total (perform w op)
  unfolding perform
  Total-perform op = record { at = λ s. rw (calm op s.trace) tt }

  pub Total-write : (f : Metadata → Metadata) → Total (write w f)
  unfolding write
  Total-write f = record { at = λ s. rw (calm (write_metadata (f s.meta)) s.trace) tt }

pub ruleset total_rules = (
  Total-pure, Total-gets, Total-bind, Total-or_else, Total-catch, Total-attempt, Total-perform,
  Total-write,
)
