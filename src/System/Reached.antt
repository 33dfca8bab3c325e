-- ===== src/System/Reached.antt =====
-- What holds in every state that forge-api reaches, in whatever order things happen.
use mathlib.Core.Path.{subst}
use env_forge.Prelude.{
  ◌≡◌, refl, sym, ap, ◌∙◌, false, List, ◌∷◌, ◌++◌, Option, Text, is_empty, All, All-append,
  All-split, All-mem, All-weaken,
}
use env_forge.Environment.{Environment}
use env_forge.Environment.Json.{TimeText}
use env_forge.Environment.Origin.{origin}
use env_forge.Environment.Store
use env_forge.Environment.Store.{Bucket, IsBucket, Store}
use env_forge.Environment.Store.Origins.{
  Backed, IsOwned, Extends, Advances, Advances-refl, Advances-trans, wait-Advances, Extends-trans,
  Backed-extends, Backed-origin,
}
use env_forge.Go.{Result, ok, err, panic, hung}
use env_forge.Conductor.{Stub}
use env_forge.Api.Internal.{Verifier}
use env_forge.Api.Provision.{Begun}
use env_forge.System.{
  Task, spawned, blocked, env_of, System, begun, Step, create, start, finish, fetch, save, opened,
  leave, wait, conduct, restart, Reach, here, next,
}
use env_forge.System.Moves.{
  Running, Running-extends, conclude-Advances, handle_internal_put-Advances,
  handle_create_env-Advances, begin-Advances,
}

module _ {B C : Type 0} (b : Bucket B) (t : TimeText) where
  -- Every environment is stored under its own id and has an owner, and what goroutines and requests
  -- to workers hold in memory is stored, as far as its origin goes.
  pub record IsConsistent (s : System B C) : Type 0 where
    pub owned : IsOwned b t s.store
    pub tasks : All (λ task. Backed b t s.store (env_of task)) s.tasks
    pub read : All (Backed b t s.store) s.read

  pub record Follows (s u : System B C) : Type 0 where
    pub extends : Extends b t s.store u.store
    pub consistent : IsConsistent u

module _ {B C K : Type 0} (b : Bucket B) (t : TimeText) (laws : IsBucket b) (stub : Stub C)
    (self_url : Text) (v : Option (Verifier K)) where
  -- what was read stays backed, whatever the store advances to
  follow :
      (s u : System B C)
      → IsConsistent b t s
      → Advances b t s.store u.store
      → Running b t laws u.store u.tasks
      → u.read ≡ s.read
      → Follows b t s u
  follow s u g a running same = record {
    extends = a.extends;
    consistent = record {
      owned = a.owned;
      tasks = running;
      read =
          subst (All (Backed b t u.store)) (sym same)
            (All-weaken s.read (λ x. Backed-extends b t s.store u.store x a.extends) g.read);
    };
  }

  -- the goroutines before and after one of them, and that one
  split :
      (s : System B C) (before after : List Task) (task : Task)
      → IsConsistent b t s
      → s.tasks ≡ before ++ (task ∷ after)
      → Running b t laws s.store before
        × Backed b t s.store (env_of task)
        × Running b t laws s.store after
  split s before after task g e =
      let (left, right) =
        All-split _ before (task ∷ after) (subst (Running b t laws s.store) e g.tasks) in
      (left, right.0, right.1)

  rest :
      (s : System B C) (st : Store B) (before after : List Task)
      → Extends b t s.store st
      → Running b t laws s.store before
      → Running b t laws s.store after
      → Running b t laws st (before ++ after)
  rest s st before after f l r =
      All-append _ before after (Running-extends b t laws s.store st before f l)
        (Running-extends b t laws s.store st after f r)

  -- however the goroutine ends its part before StartSaga
  begun-Follows :
      (s : System B C) (before after : List Task) (env : Environment) (r : Result Text)
      (m : Begun b t stub self_url)
      → IsConsistent b t s
      → s.tasks ≡ before ++ (spawned env ∷ after)
      → Advances b t s.store m.store
      → origin m.env ≡ origin env
      → Follows b t s (begun b t stub self_url r m before after s)
  begun-Follows s before after env r m g e a same =
      let (left, mine, right) = split s before after (spawned env) g e in
      let held =
        Backed-origin b t m.store env m.env same
          (Backed-extends b t s.store m.store env a.extends mine) in
      let others = rest s m.store before after a.extends left right in
      ended r held others (λ saga_id.
        All-append _ before (blocked saga_id m.env ∷ after)
          (Running-extends b t laws s.store m.store before a.extends left)
          (held, Running-extends b t laws s.store m.store after a.extends right))
    where
      ended :
          (r : Result Text)
          → Backed b t m.store m.env
          → Running b t laws m.store (before ++ after)
          → ((saga_id : Text)
              → Running b t laws m.store (before ++ (blocked saga_id m.env ∷ after)))
          → Follows b t s (begun b t stub self_url r m before after s)
      ended (ok saga_id) held others all = follow s _ g a (all saga_id) refl
      ended (err x) held others all =
          let a' = conclude-Advances b t laws (err x) m.env m.store held a.owned in
          follow s _ g (Advances-trans b t s.store m.store _ a a')
            (Running-extends b t laws m.store _ (before ++ after) a'.extends others) refl
      ended panic held others all = follow s _ g a others refl
      ended hung held others all = follow s _ g a others refl

  -- what holds of a state holds after each step, and what is stored stays stored with its origin
  Step-Follows :
      {s u : System B C} → IsConsistent b t s → Step b t stub self_url v s u → Follows b t s u
  Step-Follows {s} g (create body id free) =
      let (a, new) = handle_create_env-Advances b t laws body id s.store free g.owned in
      follow s _ g a
        (All-append _ _ s.tasks new (Running-extends b t laws s.store _ s.tasks a.extends g.tasks))
        refl
  Step-Follows {s} g (start before after env e) =
      let (left, mine, right) = split s before after (spawned env) g e in
      let (a, same) = begin-Advances b t laws stub self_url env s.store s.conductor mine g.owned in
      begun-Follows s before after env _ _ g e a same
  Step-Follows {s} g (finish before after saga_id env ended e) =
      let (left, mine, right) = split s before after (blocked saga_id env) g e in
      let a = conclude-Advances b t laws _ env s.store mine g.owned in
      follow s _ g a (rest s _ before after a.extends left right) refl
  Step-Follows {s} g (fetch id env found) = record {
    extends = λ k e h. (e, h, refl);
    consistent = record {
      owned = g.owned;
      tasks = g.tasks;
      read = (
        (env, ap (λ i. (Store.get b t i s.store).0) (g.owned id env found).0 ∙ found, refl),
        g.read,
      );
    };
  }
  Step-Follows {s} g (save header env x m same) =
      let a =
        handle_internal_put-Advances b t laws v header x s.store
          (Backed-origin b t s.store env x same (All-mem _ env s.read g.read m)) g.owned in
      follow s _ g a (Running-extends b t laws s.store _ s.tasks a.extends g.tasks) refl
  Step-Follows {s} g (leave before after env e) = record {
    extends = λ k x h. (x, h, refl);
    consistent = record {
      owned = g.owned;
      tasks = g.tasks;
      read =
          let (left, right) =
            All-split _ before (env ∷ after) (subst (All (Backed b t s.store)) e g.read) in
          All-append _ before after left right.1;
    };
  }
  Step-Follows {s} g (wait now) =
      let a = wait-Advances b t s.store now g.owned in
      follow s _ g a (Running-extends b t laws s.store _ s.tasks a.extends g.tasks) refl
  Step-Follows {s} g (conduct c) = follow s _ g (Advances-refl b t s.store g.owned) g.tasks refl
  Step-Follows {s} g restart = follow s _ g (Advances-refl b t s.store g.owned) tt refl

  Reach-Follows :
      {s u : System B C} → IsConsistent b t s → Reach b t stub self_url v s u → Follows b t s u
  Reach-Follows {s} g here = record { extends = λ k e h. (e, h, refl); consistent = g }
  Reach-Follows {s} {u = w} g (next {u} r step) =
      let f = Reach-Follows g r in
      let n = Step-Follows f.consistent step in
      record {
        extends = Extends-trans b t s.store u.store w.store f.extends n.extends;
        consistent = n.consistent;
      }

  -- However requests to forge-api, provision goroutines, requests to workers and restarts of
  -- forge-api follow one another, transaction by transaction, if new ids are fresh, and the store
  -- that was opened has every environment under its own id and with an owner: this is so in every
  -- state that is reached, and what is stored in such a state is, in every state that is reached
  -- from there, still stored under the same id with the same owner, time of creation and flags.
  pub Reach-stored :
      (st : Store B) (c : C) (s u : System B C)
      → IsOwned b t st
      → Reach b t stub self_url v (opened st c) s
      → Reach b t stub self_url v s u
      → (k : Text) (e : Environment) → (Store.get b t k s.store).0 ≡ ok e
      → (e.id ≡ k)
        × (is_empty e.owner ≡ false)
        × ((later : Environment) × ((Store.get b t k u.store).0 ≡ ok later)
            × (origin later ≡ origin e))
  Reach-stored st c s u owned before after k e found =
      let g : IsConsistent b t (opened st c) = record { owned = owned; tasks = tt; read = tt } in
      let f = Reach-Follows g before in
      let (same_id, has_owner) = f.consistent.owned k e found in
      (same_id, has_owner, (Reach-Follows f.consistent after).extends k e found)
