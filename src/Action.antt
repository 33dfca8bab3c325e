-- ===== src/Action.antt =====
-- Code that mutates the environment it was handed, writes to a store and calls services, and that
-- may fail. What was done before a failure stays done, so the state comes back beside the error.
pub mod Rules
pub mod Post
pub mod Follows
use env_forge.Prelude.{
  ◌≡◌, ◌≢◌, List, [], ◌∷◌, ◌++◌, Option, none, some, Bool, true, false, Text, slice_to,
}
use env_forge.Environment.{Environment}
use env_forge.Go.{Error, Result, ok, err, panic, hung, wrapped}
use env_forge.Cloud.{Call, Reply, Oracle}

-- environment.StateClient. `D` is what the implementation keeps. `put` hands back the environment
-- as its caller sees it afterwards, since an implementation may stamp it.
pub record StateClient (D : Type 0) : Type 0 where
  pub get : Text → D → Result Environment × D
  pub put : Environment → D → Result (Unit {0}) × Environment × D

-- An environment without its stamp.
abbrev pub unstamped : Environment → Environment
unstamped e = record e { updated_at = 0 }

-- What a client of the store relies on: `put` changes no field of its argument but the stamp, what
-- was put is what is read, and nothing else changes. A `put` that fails has written nothing.
pub record IsStateClient {D : Type 0} (c : StateClient D) : Type 0 where
  pub stamps : (e : Environment) (d : D) → unstamped (c.put e d).1 ≡ unstamped e
  pub get-put :
      (e : Environment) (d : D)
      → (c.put e d).0 ≡ ok tt
      → (stored : Environment) × ((c.get e.id (c.put e d).2).0 ≡ ok stored)
        × (unstamped stored ≡ unstamped e)
  pub get-put_ne :
      (e : Environment) (d : D) (k : Text) → k ≢ e.id → (c.get k (c.put e d).2).0 ≡ (c.get k d).0
  pub get-put_err :
      (e : Environment) (d : D) (k : Text)
      → (c.put e d).0 ≢ ok tt
      → (c.get k (c.put e d).2).0 ≡ (c.get k d).0
  pub get_keeps : (k : Text) (d : D) → (c.get k d).1 ≡ d

-- What runs under a step: the environment behind the pointer, the store, the calls made.
pub record Run (D : Type 0) : Type 0 where
  pub env : Environment
  pub db : D
  pub calls : List Call

abbrev pub Action : Type 0 → Type 0 → Type 0
Action D A = Run D → Result A × Run D

module _ {D A B : Type 0} where
  abbrev pub continue : Result A → (A → Action D B) → Action D B
  continue (ok a) f s = f a s
  continue (err e) f s = (err e, s)
  continue panic f s = (panic, s)
  continue hung f s = (hung, s)

  infixl 10 ◌>>=◌
  unfoldable pub ◌>>=◌ : Action D A → (A → Action D B) → Action D B
  ◌>>=◌ m f s = continue (m s).0 f (m s).1

module _ {D B : Type 0} where
  infixl 10 ◌>>◌
  unfoldable pub ◌>>◌ : Action D (Unit {0}) → Action D B → Action D B
  m >> k = m >>= λ _. k

module _ {D A : Type 0} where
  unfoldable pub pure : A → Action D A
  pure a s = (ok a, s)

  unfoldable pub fail : Error → Action D A
  fail e s = (err e, s)

  unfoldable pub crash : Action D A
  crash s = (panic, s)

  -- the loop goes on
  unfoldable pub hang : Action D A
  hang s = (hung, s)

  abbrev pub recover : Result A → (Error → Action D A) → Action D A
  recover (ok a) f s = (ok a, s)
  recover (err e) f s = f e s
  recover panic f s = (panic, s)
  recover hung f s = (hung, s)

  -- an error is examined before it is returned
  unfoldable pub catch : Action D A → (Error → Action D A) → Action D A
  catch m f s = recover (m s).0 f (m s).1

  -- defer: `n` runs whatever `m` comes back with, and its own result is dropped
  unfoldable pub finally : Action D A → Action D (Unit {0}) → Action D A
  finally m n s = ((m s).0, (n (m s).1).1)

  -- if err != nil { return fmt.Errorf("context: %w", err) }
  unfoldable pub context : Text → Action D A → Action D A
  context c m s = (wrapped c (m s).0, (m s).1)

  -- A pointer that is dereferenced.
  unfoldable pub deref : Option A → Action D A
  deref none = crash
  deref (some a) = pure a

-- aws.ToString
abbrev pub to_string : Option Text → Text
to_string none = []
to_string (some s) = s

abbrev pub drop_answer : {A : Type 0} → Result A → Result (Unit {0})
drop_answer (ok a) = ok tt
drop_answer (err e) = err e
drop_answer panic = panic
drop_answer hung = hung

module _ {D : Type 0} where
  unfoldable pub get_env : Action D Environment
  get_env s = (ok s.env, s)

  unfoldable pub set_env : (Environment → Environment) → Action D (Unit {0})
  set_env f s = (ok tt, record s { env = f s.env })

  -- env.ID[:8]
  unfoldable pub short_id : Action D Text
  short_id s = deref (slice_to s.env.id 8) s

  -- store.Put(env)
  unfoldable pub put : StateClient D → Action D (Unit {0})
  put c s = let (r, env, db) = c.put s.env s.db in (r, record s { env = env; db = db })

  -- a call of a service
  unfoldable pub call : Oracle → (c : Call) → Action D (Reply c)
  call o c s = (o s.calls c, record s { calls = s.calls ++ c ∷ [] })

  -- a call whose answer is dropped, `_, err := f()`
  unfoldable pub invoke : Oracle → Call → Action D (Unit {0})
  invoke o c s = (drop_answer (o s.calls c), record s { calls = s.calls ++ c ∷ [] })

  -- if b { ... }
  unfoldable pub when : Bool → Action D (Unit {0}) → Action D (Unit {0})
  when true m = m
  when false m = pure tt

-- if b { ... } else { ... }
unfoldable pub choose : {D A : Type 0} → Bool → Action D A → Action D A → Action D A
choose true m n = m
choose false m n = n

-- To unfold this is to unfold every action of this module.
unfoldable pub actions : Unit {0}
unfolding ◌>>=◌ ◌>>◌ pure fail crash hang catch finally context deref get_env set_env short_id when
    choose put call invoke
actions = tt
