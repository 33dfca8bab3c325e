-- ===== src/Action/Post.antt =====
-- What holds after an action that succeeds: one rule for each way to build an action.
use env_forge.Prelude.{◌≡◌, sym, ap, ◌∙◌, Bool, true, false}
use env_forge.Environment.{Environment}
use env_forge.Go.{Error, Result, ok, err, panic, hung}
use env_forge.Cloud.{Call, Oracle}
use env_forge.Action.Rules.{IsPreorder, Keeps, keeps_rules}
use env_forge.Action.{
  call, invoke, StateClient, IsStateClient, unstamped, Run, Action, continue, ◌>>=◌, ◌>>◌, fail,
  set_env, put, choose,
}

-- If `m` returns a result, it and the state that is left satisfy `Q`.
pub record Ensures {D A : Type 0} (Q : A → Run D → Type 0) (m : Action D A) : Type 0 where
  pub at : (s : Run D) (a : A) → (m s).0 ≡ ok a → Q a (m s).1

module _ {D B : Type 0} {Q : B → Run D → Type 0} where
  pub Ensures-fail : (e : Error) → Ensures Q (fail e)
  unfolding fail
  Ensures-fail e = record { at = λ s a h. cc }

  pub Ensures-choose :
      (b : Bool) (m n : Action D B) → Ensures Q m → Ensures Q n → Ensures Q (choose b m n)
  unfolding choose
  Ensures-choose true m n km kn = km
  Ensures-choose false m n km kn = kn

  continue-ensures :
      {A : Type 0} (f : A → Action D B)
      → ((a : A) → Ensures Q (f a))
      → (r : Result A) (s : Run D) (b : B) → (continue r f s).0 ≡ ok b
      → Q b (continue r f s).1
  continue-ensures f k (ok a) s b h = (k a).at s b h
  continue-ensures f k (err e) s b h = cc
  continue-ensures f k panic s b h = cc
  continue-ensures f k hung s b h = cc

  -- only the last action of a sequence counts
  pub Ensures-bind :
      {A : Type 0} (m : Action D A) (f : A → Action D B)
      → ((a : A) → Ensures Q (f a))
      → Ensures Q (m >>= f)
  unfolding ◌>>=◌
  Ensures-bind m f k = record { at = λ s. continue-ensures f k (m s).0 (m s).1 }

  pub Ensures-then : (m : Action D (Unit {0})) (n : Action D B) → Ensures Q n → Ensures Q (m >> n)
  unfolding ◌>>◌
  Ensures-then m n k = Ensures-bind m (λ _. n) (λ _. k)

pub ruleset post_rules = (Ensures-fail, Ensures-choose, Ensures-bind, Ensures-then)

-- The environment in memory is the one that is stored under its id, up to the stamp.
abbrev pub IsSaved : {D : Type 0} → StateClient D → Run D → Type 0
IsSaved c t =
    (stored : Environment) × ((c.get t.env.id t.db).0 ≡ ok stored)
    × (unstamped stored ≡ unstamped t.env)

module _ {D : Type 0} (c : StateClient D) (laws : IsStateClient c) where
  pub put-IsSaved : Ensures (λ _ t. IsSaved c t) (put c)
  unfolding put
  put-IsSaved = record {
    at = λ s a h.
        let (stored, p, q) = laws.get-put s.env s.db h in
        let same_id = ap (λ e. e.id) (laws.stamps s.env s.db) in
        (stored, rw same_id p, q ∙ sym (laws.stamps s.env s.db));
  }

  pub set_put-Ensures :
      (P : Environment → Type 0)
      → ((e e' : Environment) → unstamped e' ≡ unstamped e → P e → P e')
      → (f : Environment → Environment) → ((e : Environment) → P (f e))
      → Ensures (λ _ t. P t.env) (set_env f >> put c)
  unfolding put set_env ◌>>=◌ ◌>>◌
  set_put-Ensures P same f h = record {
    at = λ s a q. same (f s.env) _ (laws.stamps (f s.env) s.db) (h s.env);
  }

-- A property of the environment that is not lost.
pub record Preserves {D : Type 0} (P : Environment → Type 0) (s t : Run D) : Type 0 where
  pub kept : P s.env → P t.env

module _ {D : Type 0} {P : Environment → Type 0} where
  pub Preserves-preorder : IsPreorder (Preserves {D = D} P)
  Preserves-preorder = record {
    rfl = λ s. record { kept = λ h. h };
    trans = λ s t u f g. record { kept = λ h. g.kept (f.kept h) };
  }

  pub set_env-Preserves :
      (f : Environment → Environment)
      → ((e : Environment) → P e → P (f e))
      → Keeps (Preserves {D = D} P) (set_env f)
  unfolding set_env
  set_env-Preserves f k = record { at = λ s. record { kept = k s.env } }

  pub call-Preserves : (o : Oracle) (x : Call) → Keeps (Preserves {D = D} P) (call o x)
  unfolding call
  call-Preserves o x = record { at = λ s. record { kept = λ h. h } }

  pub invoke-Preserves : (o : Oracle) (x : Call) → Keeps (Preserves {D = D} P) (invoke o x)
  unfolding invoke
  invoke-Preserves o x = record { at = λ s. record { kept = λ h. h } }

  pub put-Preserves :
      {c : StateClient D}
      → IsStateClient c
      → ((e e' : Environment) → unstamped e' ≡ unstamped e → P e → P e')
      → Keeps (Preserves P) (put c)
  unfolding put
  put-Preserves laws same = record {
    at = λ s. record { kept = same s.env _ (laws.stamps s.env s.db) };
  }

-- what the first action makes true, the second does not lose
pub set_then-Ensures :
    {D B : Type 0} (P : Environment → Type 0) (f : Environment → Environment) (n : Action D B)
    → ((e : Environment) → P (f e))
    → Keeps (Preserves P) n
    → Ensures (λ _ t. P t.env) (set_env f >> n)
unfolding set_env ◌>>=◌ ◌>>◌
set_then-Ensures P f n h k = record {
  at = λ s a q. (k.at (record s { env = f s.env })).kept (h s.env);
}

pub ruleset preserve_rules =
    (keeps_rules, Preserves-preorder, set_env-Preserves, call-Preserves, invoke-Preserves)
