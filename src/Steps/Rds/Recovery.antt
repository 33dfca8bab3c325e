-- ===== src/Steps/Rds/Recovery.antt =====
-- The RDS step on an instance that a run before it has asked for and that is not yet available.
use mathlib.Core.List.{append-nil, append_assoc}
use env_forge.Prelude.{
  ◌≡◌, refl, sym, ap, ◌∙◌, Bool, true, false, List, [], ◌∷◌, ◌++◌, some, Text, lit, is_empty,
  slice_to,
}
use env_forge.Environment.{Environment}
use env_forge.Go.{Result, ok, err, panic, hung}
use env_forge.Cloud.{DbInstance, Call, Oracle, rand_read, create_db_instance, describe_db_instances}
use env_forge.Action.{
  StateClient, Run, Action, actions, continue, choose, put, call, invoke, set_env, ◌>>=◌, ◌>>◌,
  context, get_env, pure,
}
use env_forge.Action.Rules.{IsPreorder, Keeps, keeps_rules}
use env_forge.Steps.Rds.{
  first_available, hex_encode, generate_password, is_available, is_already_done, create,
  await_endpoint, provision, execute,
}

-- calls were only added
pub record IsGrown {D : Type 0} (s t : Run D) : Type 0 where
  pub added : List Call
  pub calls : t.calls ≡ s.calls ++ added

module _ {D : Type 0} where
  IsGrown-preorder : IsPreorder (IsGrown {D = D})
  IsGrown-preorder = record {
    rfl = λ s. record { added = []; calls = sym (append-nil _) };
    trans = λ s t u v w. record {
      added = v.added ++ w.added;
      calls = w.calls ∙ ap (λ l. l ++ w.added) v.calls ∙ append_assoc s.calls v.added w.added;
    };
  }

  set_env-IsGrown : (f : Environment → Environment) → Keeps (IsGrown {D = D}) (set_env f)
  unfolding set_env
  set_env-IsGrown f = record { at = λ s. record { added = []; calls = sym (append-nil _) } }

  put-IsGrown : (c : StateClient D) → Keeps IsGrown (put c)
  unfolding put
  put-IsGrown c = record { at = λ s. record { added = []; calls = sym (append-nil _) } }

  call-IsGrown : (o : Oracle) (x : Call) → Keeps (IsGrown {D = D}) (call o x)
  unfolding call
  call-IsGrown o x = record { at = λ s. record { added = x ∷ []; calls = refl } }

  invoke-IsGrown : (o : Oracle) (x : Call) → Keeps (IsGrown {D = D}) (invoke o x)
  unfolding invoke
  invoke-IsGrown o x = record { at = λ s. record { added = x ∷ []; calls = refl } }

  continue-IsGrown :
      {A B : Type 0} (r : Result A) (f : A → Action D B) (u s : Run D)
      → IsGrown u s
      → ((a : A) → Keeps IsGrown (f a))
      → IsGrown u (continue r f s).1
  continue-IsGrown (ok a) f u s g k = IsGrown-preorder.trans u s _ g ((k a).at s)
  continue-IsGrown (err e) f u s g k = g
  continue-IsGrown panic f u s g k = g
  continue-IsGrown hung f u s g k = g

  choose-false :
      (b : Bool) (m n : Action D (Unit {0})) (u s : Run D)
      → b ≡ false
      → IsGrown u (n s).1
      → IsGrown u (choose b m n s).1
  unfolding choose
  choose-false true m n u s h g = cc h
  choose-false false m n u s h g = g

  choose-eq :
      {A : Type 0} (b : Bool) (m n : Action D A) (s : Run D) → b ≡ false → choose b m n s ≡ n s
  unfolding choose
  choose-eq true m n s h = cc h
  choose-eq false m n s h = refl

ruleset grown_rules =
    (keeps_rules, IsGrown-preorder, set_env-IsGrown, put-IsGrown, call-IsGrown, invoke-IsGrown)

module _ {D : Type 0} (o : Oracle) (c : StateClient D) where
  -- the state after IsAlreadyDone has asked for the instance
  abbrev pub polled : Run D → Run D
  polled s = record s { calls = s.calls ++ describe_db_instances s.env.rds_instance_id ∷ [] }

  is_available-pending :
      (s : Run D) (out : List DbInstance)
      → o s.calls (describe_db_instances s.env.rds_instance_id) ≡ ok out
      → first_available out ≡ false
      → is_available o s.env.rds_instance_id s ≡ (ok false, polled s)
  unfolding is_available actions
  is_available-pending s out described pending = rw (described, pending)

  is_already_done-pending :
      (s : Run D) (out : List DbInstance)
      → s.env.dry_run ≡ false
      → is_empty s.env.rds_instance_id ≡ false
      → o s.calls (describe_db_instances s.env.rds_instance_id) ≡ ok out
      → first_available out ≡ false
      → is_already_done o s ≡ (ok false, polled s)
  unfolding is_already_done get_env ◌>>=◌
  is_already_done-pending s out real named described pending =
      choose-eq s.env.dry_run _ _ s real
      ∙ choose-eq (is_empty s.env.rds_instance_id) _ _ s named
      ∙ is_available-pending s out described pending

  -- the creation that Execute asks for
  abbrev pub creation : Text → Text → Environment → Call
  creation short bytes e =
      create_db_instance (lit "env-forge-" ++ short) (hex_encode bytes) (lit "env-forge-" ++ short)
        e.security_group_id e.id

  abbrev pub asked : Run D → Text → Text → Run D
  asked s short bytes = record s {
    calls = (s.calls ++ rand_read 16 ∷ []) ++ creation short bytes s.env ∷ [];
  }

  -- the environment that Execute has filled in, and the request
  abbrev filled : Run D → Text → Text → Run D
  filled s short bytes = record {
    env = record s.env {
      rds_password = hex_encode bytes;
      rds_instance_id = lit "env-forge-" ++ short;
    };
    db = s.db;
    calls = s.calls ++ rand_read 16 ∷ [];
  }

  abbrev request : Run D → Text → Text → Result (Unit {0}) × Run D
  request s short bytes =
      context (lit "create db instance") (invoke o (creation short bytes s.env))
        (filled s short bytes)

  create-creates :
      (s : Run D) (short bytes : Text)
      → slice_to s.env.id 8 ≡ some short
      → o s.calls (rand_read 16) ≡ ok bytes
      → IsGrown (asked s short bytes) (create o c s).1
  unfolding create generate_password actions
  create-creates s short bytes sliced random =
      rw (sliced, random)
        (continue-IsGrown {A = Unit {0}} (request s short bytes).0
          (λ u. put c >> pure (lit "env-forge-" ++ short)) (asked s short bytes)
          (request s short bytes).1 (record { added = []; calls = sym (append-nil _) })
          (λ u. search grown_rules depth 10))

  await_endpoint-IsGrown : (db_id : Text) → Keeps IsGrown (await_endpoint o c db_id)
  unfolding await_endpoint
  await_endpoint-IsGrown db_id = search grown_rules depth 20

  execute-creates :
      (s : Run D) (short bytes : Text)
      → s.env.dry_run ≡ false
      → slice_to s.env.id 8 ≡ some short
      → o s.calls (rand_read 16) ≡ ok bytes
      → IsGrown (asked s short bytes) (execute o c s).1
  unfolding execute provision ◌>>=◌ get_env
  execute-creates s short bytes real sliced random = choose-false s.env.dry_run _ _ _ s real (
      continue-IsGrown (create o c s).0 (await_endpoint o c) _ _
        (create-creates s short bytes sliced random) await_endpoint-IsGrown)

  -- Where the environment, not of a dry run, has the id of a database and AWS lists a first instance
  -- that is not available, or none, IsAlreadyDone says no, and Execute then, if it gets its random
  -- bytes, asks for an instance to be created, with a new password, whatever else comes back.
  pub pending-creates :
      (s : Run D) (out : List DbInstance) (short bytes : Text)
      → s.env.dry_run ≡ false
      → is_empty s.env.rds_instance_id ≡ false
      → o s.calls (describe_db_instances s.env.rds_instance_id) ≡ ok out
      → first_available out ≡ false
      → slice_to s.env.id 8 ≡ some short
      → o (polled s).calls (rand_read 16) ≡ ok bytes
      → (is_already_done o s ≡ (ok false, polled s))
        × IsGrown (asked (polled s) short bytes) (execute o c (polled s)).1
  pending-creates s out short bytes real named described pending sliced random = (
    is_already_done-pending s out real named described pending,
    execute-creates (polled s) short bytes real sliced random,
  )
