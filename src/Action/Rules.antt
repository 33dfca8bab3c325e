-- ===== src/Action/Rules.antt =====
-- A relation between the state before and the state after, kept by whole actions: one rule for each
-- way to build an action. The relation has to be reflexive and transitive.
use env_forge.Prelude.{Bool, true, false, Option, none, some, Text, slice_to}
use env_forge.Go.{Error, Result, ok, err, panic, hung}
use env_forge.Action.{
  Run, Action, continue, recover, ◌>>=◌, ◌>>◌, pure, fail, hang, catch, finally, context, deref,
  get_env, short_id, when, choose, actions,
}

pub record IsPreorder {D : Type 0} (R : Run D → Run D → Type 0) : Type 0 where
  pub rfl : (s : Run D) → R s s
  pub trans : (s t u : Run D) → R s t → R t u → R s u

-- Whatever `m` comes back with, the state that it leaves is related to the one it found.
pub record Keeps {D A : Type 0} (R : Run D → Run D → Type 0) (m : Action D A) : Type 0 where
  pub at : (s : Run D) → R s (m s).1

module _ {D : Type 0} {R : Run D → Run D → Type 0} (p : IsPreorder R) where
  pub Keeps-pure : {A : Type 0} (a : A) → Keeps R (pure a)
  unfolding pure
  Keeps-pure a = record { at = p.rfl }

  pub Keeps-fail : {A : Type 0} (e : Error) → Keeps R (fail {A = A} e)
  unfolding fail
  Keeps-fail e = record { at = p.rfl }

  pub Keeps-get_env : Keeps R get_env
  unfolding get_env
  Keeps-get_env = record { at = p.rfl }

  pub Keeps-hang : {A : Type 0} → Keeps R (hang {A = A})
  unfolding hang
  Keeps-hang = record { at = p.rfl }

  pub Keeps-deref : {A : Type 0} (o : Option A) → Keeps R (deref o)
  unfolding actions
  Keeps-deref none = record { at = p.rfl }
  Keeps-deref (some a) = record { at = p.rfl }

  pub Keeps-short_id : Keeps R short_id
  unfolding short_id
  Keeps-short_id = record { at = λ s. (Keeps-deref (slice_to s.env.id 8)).at s }

  module _ {A B : Type 0} where
    continue-keeps :
        (f : A → Action D B)
        → ((a : A) → Keeps R (f a))
        → (r : Result A) (s : Run D) → R s (continue r f s).1
    continue-keeps f k (ok a) s = (k a).at s
    continue-keeps f k (err e) s = p.rfl s
    continue-keeps f k panic s = p.rfl s
    continue-keeps f k hung s = p.rfl s

    pub Keeps-bind :
        (m : Action D A) (f : A → Action D B)
        → Keeps R m
        → ((a : A) → Keeps R (f a))
        → Keeps R (m >>= f)
    unfolding ◌>>=◌
    Keeps-bind m f km kf = record {
      at = λ s. p.trans _ _ _ (km.at s) (continue-keeps f kf (m s).0 (m s).1);
    }

  pub Keeps-then :
      {B : Type 0} (m : Action D (Unit {0})) (n : Action D B)
      → Keeps R m
      → Keeps R n
      → Keeps R (m >> n)
  unfolding ◌>>◌
  Keeps-then m n km kn = Keeps-bind m (λ _. n) km (λ _. kn)

  pub Keeps-context : {A : Type 0} (c : Text) (m : Action D A) → Keeps R m → Keeps R (context c m)
  unfolding context
  Keeps-context c m km = record { at = km.at }

  recover-keeps :
      {A : Type 0} (f : Error → Action D A)
      → ((e : Error) → Keeps R (f e))
      → (r : Result A) (s : Run D) → R s (recover r f s).1
  recover-keeps f k (err e) s = (k e).at s
  recover-keeps f k (ok a) s = p.rfl s
  recover-keeps f k panic s = p.rfl s
  recover-keeps f k hung s = p.rfl s

  pub Keeps-catch :
      {A : Type 0} (m : Action D A) (f : Error → Action D A)
      → Keeps R m
      → ((e : Error) → Keeps R (f e))
      → Keeps R (catch m f)
  unfolding catch
  Keeps-catch m f km kf = record {
    at = λ s. p.trans _ _ _ (km.at s) (recover-keeps f kf (m s).0 (m s).1);
  }

  pub Keeps-finally :
      {A : Type 0} (m : Action D A) (n : Action D (Unit {0}))
      → Keeps R m
      → Keeps R n
      → Keeps R (finally m n)
  unfolding finally
  Keeps-finally m n km kn = record { at = λ s. p.trans _ _ _ (km.at s) (kn.at (m s).1) }

  pub Keeps-when : (b : Bool) (m : Action D (Unit {0})) → Keeps R m → Keeps R (when b m)
  unfolding when pure
  Keeps-when true m km = km
  Keeps-when false m km = record { at = p.rfl }

  pub Keeps-choose :
      {A : Type 0} (b : Bool) (m n : Action D A) → Keeps R m → Keeps R n → Keeps R (choose b m n)
  unfolding choose
  Keeps-choose true m n km kn = km
  Keeps-choose false m n km kn = kn

pub ruleset keeps_rules = (
  Keeps-pure, Keeps-fail, Keeps-get_env, Keeps-hang, Keeps-deref, Keeps-short_id, Keeps-bind,
  Keeps-then, Keeps-context, Keeps-catch, Keeps-finally, Keeps-when, Keeps-choose,
)
