-- ===== src/Action/Follows.antt =====
-- The sequence of calls that an action makes, as far as it gets.
use mathlib.Core.List.{append-nil, append_assoc}
use env_forge.Prelude.{
  ◌≡◌, refl, sym, ap, ◌∙◌, Bool, true, false, not, if◌then◌else◌, is_empty, List, [], ◌∷◌, ◌++◌,
  Text,
}
use env_forge.Environment.{Environment}
use env_forge.Go.{Result, ok, err, panic, hung, wrapped}
use env_forge.Cloud.{Call, Oracle}
use env_forge.Action.{
  StateClient, Run, Action, continue, ◌>>=◌, ◌>>◌, pure, context, set_env, put, invoke, when,
  choose,
}

-- From `before` to `after` the calls of a start of `plan` were made, in its order, and all of them if
-- the result is no error.
pub record Followed {D : Type 0} (plan : List Call) (before after : Run D) (r : Result (Unit {0}))
    : Type 0 where
  pub made : List Call
  pub left : List Call
  pub whole : plan ≡ made ++ left
  pub calls : after.calls ≡ before.calls ++ made
  pub finished : r ≡ ok tt → left ≡ []

pub record Follows {D : Type 0} (plan : List Call) (m : Action D (Unit {0})) : Type 0 where
  pub at : (s : Run D) → Followed plan s (m s).1 (m s).0

wrapped-ok : (what : Text) (r : Result (Unit {0})) → wrapped what r ≡ ok tt → r ≡ ok tt
wrapped-ok what (ok x) h = h
wrapped-ok what (err e) h = absurd (cc h)
wrapped-ok what panic h = cc h
wrapped-ok what hung h = cc h

-- the calls of a part that is skipped if an id is empty
abbrev pub unless_empty : Text → Call → List Call
unless_empty [] x = []
unless_empty (b ∷ id) x = x ∷ []

module _ {D : Type 0} where
  Followed-nil : (s t : Run D) (r : Result (Unit {0})) → t.calls ≡ s.calls → Followed [] s t r
  Followed-nil s t r e = record {
    made = [];
    left = [];
    whole = refl;
    calls = e ∙ sym (append-nil s.calls);
    finished = λ h. refl;
  }

  pub Follows-pure : Follows {D = D} [] (pure tt)
  unfolding pure
  Follows-pure = record { at = λ s. Followed-nil s s (ok tt) refl }

  pub Follows-set_env : (f : Environment → Environment) → Follows {D = D} [] (set_env f)
  unfolding set_env
  Follows-set_env f = record { at = λ s. Followed-nil s _ _ refl }

  pub Follows-put : (c : StateClient D) → Follows {D = D} [] (put c)
  unfolding put
  Follows-put c = record { at = λ s. Followed-nil s _ _ refl }

  pub Follows-invoke : (o : Oracle) (x : Call) → Follows {D = D} (x ∷ []) (invoke o x)
  unfolding invoke
  Follows-invoke o x = record {
    at = λ s. record { made = x ∷ []; left = []; whole = refl; calls = refl; finished = λ h. refl };
  }

  pub Follows-context :
      (plan : List Call) (what : Text) (m : Action D (Unit {0}))
      → Follows plan m
      → Follows plan (context what m)
  unfolding context
  Follows-context plan what m k = record {
    at = λ s.
        let w = k.at s in
        record {
          made = w.made;
          left = w.left;
          whole = w.whole;
          calls = w.calls;
          finished = λ h. w.finished (wrapped-ok what (m s).0 h);
        };
  }

  pub Follows-when :
      (id : Text) (x : Call) (m : Action D (Unit {0}))
      → Follows (x ∷ []) m
      → Follows (unless_empty id x) (when (not (is_empty id)) m)
  unfolding when
  Follows-when [] x m k = Follows-pure
  Follows-when (b ∷ id) x m k = k

  continued :
      (p q : List Call) (n : Action D (Unit {0})) (s t : Run D) (r : Result (Unit {0}))
      → Followed p s t r
      → Follows q n
      → Followed (p ++ q) s (continue r (λ _. n) t).1 (continue r (λ _. n) t).0
  continued p q n s t (ok tt) k l =
      let w = l.at t in
      let all : p ≡ k.made =
        k.whole ∙ ap (λ x. k.made ++ x) (k.finished refl) ∙ append-nil k.made in
      record {
        made = k.made ++ w.made;
        left = w.left;
        whole =
            ap (λ x. x ++ q) all
            ∙ ap (λ x. k.made ++ x) w.whole
            ∙ sym (append_assoc k.made w.made w.left);
        calls = w.calls ∙ ap (λ x. x ++ w.made) k.calls ∙ append_assoc s.calls k.made w.made;
        finished = w.finished;
      }
  continued p q n s t (err e) k l = record {
    made = k.made;
    left = k.left ++ q;
    whole = ap (λ x. x ++ q) k.whole ∙ append_assoc k.made k.left q;
    calls = k.calls;
    finished = λ h. absurd (cc h);
  }
  continued p q n s t panic k l = record {
    made = k.made;
    left = k.left ++ q;
    whole = ap (λ x. x ++ q) k.whole ∙ append_assoc k.made k.left q;
    calls = k.calls;
    finished = λ h. absurd (cc h);
  }
  continued p q n s t hung k l = record {
    made = k.made;
    left = k.left ++ q;
    whole = ap (λ x. x ++ q) k.whole ∙ append_assoc k.made k.left q;
    calls = k.calls;
    finished = λ h. absurd (cc h);
  }

  pub Follows-then :
      (p q : List Call) (m n : Action D (Unit {0}))
      → Follows p m
      → Follows q n
      → Follows (p ++ q) (m >> n)
  unfolding ◌>>◌ ◌>>=◌
  Follows-then p q m n k l = record { at = λ s. continued p q n s (m s).1 (m s).0 (k.at s) l }

  pub Follows-choose :
      (p q : List Call) (b : Bool) (m n : Action D (Unit {0}))
      → Follows p m
      → Follows q n
      → Follows (if b then p else q) (choose b m n)
  unfolding choose
  Follows-choose p q true m n k l = k
  Follows-choose p q false m n k l = l

  -- the two calls of a step that deletes one thing and waits for it
  pub Follows-pair :
      (o : Oracle) (c : StateClient D) (a b : Text) (x y : Call) (clear : Environment → Environment)
      → Follows
          (x ∷ y ∷ [])
          (context a (invoke o x) >> (context b (invoke o y) >> (set_env clear >> put c)))
  Follows-pair o c a b x y clear =
      Follows-then (x ∷ []) (y ∷ []) _ _ (Follows-context _ a _ (Follows-invoke o x)) (
        Follows-then (y ∷ []) [] _ _ (Follows-context _ b _ (Follows-invoke o y))
          (Follows-then [] [] _ _ (Follows-set_env clear) (Follows-put c)))
