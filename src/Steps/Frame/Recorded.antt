-- ===== src/Steps/Frame/Recorded.antt =====
-- What a step puts: a client that keeps a record of it, and the relation that every step respects.
use mathlib.Core.List.{append-nil, append_assoc}
use env_forge.Prelude.{◌≡◌, refl, sym, ap, ◌∙◌, List, [], ◌∷◌, ◌++◌, All, All-append, All-weaken}
use env_forge.Environment.{Environment}
use env_forge.Environment.Origin.{origin}
use env_forge.Action.{StateClient, unstamped, Run, set_env, put, call, invoke}
use env_forge.Action.Rules.{IsPreorder, Keeps}
use env_forge.Steps.All.{Kind, vpc, rds, ec2, s3, identity, config, health, registry, without}
use env_forge.Steps.Frame.{outside, IsFrame}

-- the state behind a client, and all that was put
abbrev pub Recording : Type 0 → Type 0
Recording D = D × List Environment

-- a client, with a record of what is put
unfoldable pub recorded : {D : Type 0} → StateClient D → StateClient (Recording D)
recorded c = record {
  get = λ id d. let (r, d') = c.get id d.0 in (r, (d', d.1));
  put = λ e d. let (r, e', d') = c.put e d.0 in (r, e', (d', d.1 ++ e ∷ []));
}

-- the environment is another one outside of a step's fields
abbrev pub Agrees : (Environment → Environment) → Environment → Environment → Type 0
Agrees clear e x = outside clear x ≡ outside clear e

-- From `s` to `t` the environment changed at most in the fields that `clear` empties and in its
-- stamp, and this is so of everything that was put in between.
pub record Recorded {D : Type 0} (clear : Environment → Environment) (s t : Run (Recording D))
    : Type 0 where
  pub env : Agrees clear s.env t.env
  pub added : List Environment
  pub log : t.db.1 ≡ s.db.1 ++ added
  pub each : All (Agrees clear s.env) added

-- every put, whatever its result, hands back what it was given, up to the stamp
abbrev pub Stamps : {D : Type 0} → StateClient D → Type 0
Stamps {D} c = (e : Environment) (d : D) → unstamped (c.put e d).1 ≡ unstamped e

module _ {D : Type 0} where
  quiet :
      (clear : Environment → Environment) (s t : Run (Recording D))
      → Agrees clear s.env t.env
      → t.db ≡ s.db
      → Recorded clear s t
  quiet clear s t h same = record {
    env = h;
    added = [];
    log = ap (λ d. d.1) same ∙ sym (append-nil _);
    each = tt;
  }

  pub Recorded-preorder : (clear : Environment → Environment) → IsPreorder (Recorded {D = D} clear)
  Recorded-preorder clear = record {
    rfl = λ s. quiet clear s s refl refl;
    trans = λ s t u v w. record {
      env = w.env ∙ v.env;
      added = v.added ++ w.added;
      log = w.log ∙ ap (λ l. l ++ w.added) v.log ∙ append_assoc s.db.1 v.added w.added;
      each =
          All-append (Agrees clear s.env) v.added w.added v.each
            (All-weaken w.added (λ x p. p ∙ v.env) w.each);
    };
  }

  put-Recorded :
      (c : StateClient D)
      → Stamps c
      → (clear : Environment → Environment)
      → ((e : Environment) → outside clear e ≡ outside clear (unstamped e))
      → Keeps (Recorded clear) (put (recorded c))
  unfolding put recorded
  put-Recorded c stamps clear h = record {
    at = λ s. record {
      env = h _ ∙ ap (outside clear) (stamps s.env s.db.0) ∙ sym (h s.env);
      added = s.env ∷ [];
      log = refl;
      each = (refl, tt);
    };
  }

  pub Recorded-IsFrame : (c : StateClient D) → Stamps c → IsFrame (recorded c) Recorded
  unfolding set_env call invoke
  Recorded-IsFrame c stamps = record {
    preorder = λ clear keeps_id. Recorded-preorder clear;
    set = λ clear f h. record { at = λ s. quiet clear s _ (h s.env) refl };
    put = put-Recorded c stamps;
    call = λ clear o x. record { at = λ s. quiet clear s _ refl refl };
    invoke = λ clear o x. record { at = λ s. quiet clear s _ refl refl };
  }

-- no step changes what was fixed at the creation
pub without-origin : (k : Kind) (e x : Environment) → Agrees (without k) e x → origin x ≡ origin e
without-origin vpc e x h = ap origin h
without-origin rds e x h = ap origin h
without-origin ec2 e x h = ap origin h
without-origin s3 e x h = ap origin h
without-origin identity e x h = ap origin h
without-origin config e x h = ap origin h
without-origin health e x h = ap origin h
without-origin registry e x h = ap origin h
