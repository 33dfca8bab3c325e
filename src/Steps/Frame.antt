-- ===== src/Steps/Frame.antt =====
-- What a step leaves alone, whatever the services answer and however it ends.
pub mod Each
pub mod Every
pub mod Recorded
use mathlib.Core.List.{append-nil, append_assoc}
use env_forge.Prelude.{◌≡◌, ◌≢◌, refl, sym, ap, ◌∙◌, List, [], ◌∷◌, ◌++◌, Text}
use env_forge.Environment.{Environment}
use env_forge.Cloud.{Call, Oracle}
use env_forge.Action.{StateClient, IsStateClient, unstamped, Run, set_env, put, call, invoke}
use env_forge.Action.Rules.{IsPreorder, Keeps}

abbrev pub outside : (Environment → Environment) → Environment → Environment
outside clear e = unstamped (clear e)

-- From `s` to `t` the environment changed at most in the fields that `clear` empties and in its
-- stamp, no other key of the store reads otherwise, and calls were only added.
pub record IsWithin {D : Type 0} (c : StateClient D) (clear : Environment → Environment)
    (s t : Run D) : Type 0 where
  pub env : outside clear t.env ≡ outside clear s.env
  pub others : (k : Text) → k ≢ s.env.id → (c.get k t.db).0 ≡ (c.get k s.db).0
  pub added : List Call
  pub calls : t.calls ≡ s.calls ++ added

module _ {D : Type 0} {c : StateClient D} {clear : Environment → Environment}
    (keeps_id : (e : Environment) → (clear e).id ≡ e.id) where
  IsWithin-id : {s t : Run D} → IsWithin c clear s t → t.env.id ≡ s.env.id
  IsWithin-id {s} {t} w = sym (keeps_id t.env) ∙ ap (λ e. e.id) w.env ∙ keeps_id s.env

  IsWithin-preorder : IsPreorder (IsWithin c clear)
  IsWithin-preorder = record {
    rfl = λ s. record { env = refl; others = λ k h. refl; added = []; calls = sym (append-nil _) };
    trans = λ s t u v w. record {
      env = w.env ∙ v.env;
      others = λ k h. w.others k (λ e. h (e ∙ IsWithin-id v)) ∙ v.others k h;
      added = v.added ++ w.added;
      calls = w.calls ∙ ap (λ l. l ++ w.added) v.calls ∙ append_assoc s.calls v.added w.added;
    };
  }

module _ {D : Type 0} {c : StateClient D} {clear : Environment → Environment} where
  set_env-IsWithin :
      (f : Environment → Environment)
      → ((e : Environment) → outside clear (f e) ≡ outside clear e)
      → Keeps (IsWithin c clear) (set_env f)
  unfolding set_env
  set_env-IsWithin f h = record {
    at =
        λ s. record { env = h s.env; others = λ k n. refl; added = []; calls = sym (append-nil _) };
  }

  call-IsWithin : (o : Oracle) (x : Call) → Keeps (IsWithin c clear) (call o x)
  unfolding call
  call-IsWithin o x = record {
    at = λ s. record { env = refl; others = λ k n. refl; added = x ∷ []; calls = refl };
  }

  invoke-IsWithin : (o : Oracle) (x : Call) → Keeps (IsWithin c clear) (invoke o x)
  unfolding invoke
  invoke-IsWithin o x = record {
    at = λ s. record { env = refl; others = λ k n. refl; added = x ∷ []; calls = refl };
  }

  -- `clear` leaves the stamp alone, so it does not matter whether it goes first
  put-IsWithin :
      ((e : Environment) → outside clear e ≡ outside clear (unstamped e))
      → IsStateClient c
      → Keeps (IsWithin c clear) (put c)
  unfolding put
  put-IsWithin h laws = record {
    at = λ s. record {
      env = h _ ∙ ap (outside clear) (laws.stamps s.env s.db) ∙ sym (h s.env);
      others = laws.get-put_ne s.env s.db;
      added = [];
      calls = sym (append-nil _);
    };
  }

-- What a relation has to respect, for the fields that a step may change, so that every step keeps
-- it: the changes of those fields, the puts, the calls, and one after another.
pub record IsFrame {D : Type 0} (c : StateClient D)
    (R : (Environment → Environment) → Run D → Run D → Type 0) : Type 0 where
  pub preorder :
      (clear : Environment → Environment)
      → ((e : Environment) → (clear e).id ≡ e.id)
      → IsPreorder (R clear)
  pub set :
      (clear f : Environment → Environment)
      → ((e : Environment) → outside clear (f e) ≡ outside clear e)
      → Keeps (R clear) (set_env f)
  pub put :
      (clear : Environment → Environment)
      → ((e : Environment) → outside clear e ≡ outside clear (unstamped e))
      → Keeps (R clear) (put c)
  pub call :
      (clear : Environment → Environment) (o : Oracle) (x : Call) → Keeps (R clear) (call o x)
  pub invoke :
      (clear : Environment → Environment) (o : Oracle) (x : Call) → Keeps (R clear) (invoke o x)

pub IsWithin-IsFrame : {D : Type 0} {c : StateClient D} → IsStateClient c → IsFrame c (IsWithin c)
IsWithin-IsFrame laws = record {
  preorder = λ clear keeps_id. IsWithin-preorder keeps_id;
  set = λ clear. set_env-IsWithin;
  put = λ clear h. put-IsWithin h laws;
  call = λ clear. call-IsWithin;
  invoke = λ clear. invoke-IsWithin;
}
