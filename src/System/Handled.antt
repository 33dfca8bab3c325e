-- ===== src/System/Handled.antt =====
-- A request to a step endpoint, from its first transaction to its last.
use mathlib.Core.List.{Memᴰ}
use env_forge.Prelude.{
  ◌≡◌, ◌≢◌, refl, sym, ap, ◌∙◌, ℕ, Bool, Bool-cases, inl, inr, Option, none, some, Text, is_empty,
}
use mathlib.Core.Path.{subst}
use env_forge.Environment.{Environment}
use env_forge.Environment.Json.{TimeText}
use env_forge.Environment.Origin.{origin}
use env_forge.Environment.Store.{Bucket}
use env_forge.Go.{Result, ok}
use env_forge.Cloud.{Oracle}
use env_forge.Action.{StateClient, Run, set_env, put, call, invoke}
use env_forge.Action.Rules.{IsPreorder, Keeps}
use env_forge.Conductor.{Stub}
use env_forge.Steps.All.{Kind, Options, name_of, build_steps}
use env_forge.Steps.Frame.{outside, IsFrame}
use env_forge.Steps.Frame.Recorded.{Agrees, without-origin}
use env_forge.Worker.{Worker, with_env, handle}
use env_forge.Worker.Framed.{with_env-Leaves}
use env_forge.Api.Internal.{Verifier}
use env_forge.Remote
use env_forge.Remote.{auth_header, client}
use env_forge.System.{System, Reach, here}
use env_forge.System.Requests.{Fate, Busy, IsMeanwhile}
use env_forge.System.Served.{Course-trans, remote, Passes, get-Passes, get-read, put-Passes}

module _ {B C K : Type 0} (b : Bucket B) (t : TimeText) (stub : Stub C) (self_url : Text)
    (v : Option (Verifier K)) (between : ℕ → System B C → System B C) (fate : ℕ → Fate)
    (meanwhile : IsMeanwhile b t stub self_url v between)
    (denies : (k : Verifier K) → v ≡ some k → k.denied.code ≢ 200)
    (token : Option (Result Text)) where
  abbrev pub over_http : StateClient (Busy B C)
  over_http = remote b t stub self_url v between fate meanwhile denies token

  abbrev GoesOn : System B C → System B C → Type 0
  GoesOn = Passes b t stub self_url v between fate meanwhile denies token

  -- what the step works on has the origin of an environment that was read
  abbrev IsHeld : Run (Busy B C) → Type 0
  IsHeld r = (e : Environment) × Memᴰ e r.db.1.read × (origin r.env ≡ origin e)

  -- The environment changed at most in the fields that `clear` empties and in its stamp; and if this
  -- leaves origins alone, and the environment was held, the system went on and it still is.
  record Amid (clear : Environment → Environment) (s u : Run (Busy B C)) : Type 0 where
    env : Agrees clear s.env u.env
    goes :
        ((e x : Environment) → Agrees clear e x → origin x ≡ origin e)
        → IsHeld s
        → GoesOn s.db.1 u.db.1 × IsHeld u

  still :
      (clear : Environment → Environment) (s u : Run (Busy B C))
      → Agrees clear s.env u.env
      → u.db ≡ s.db
      → Amid clear s u
  still clear s u h same = record {
    env = h;
    goes = λ k (e, m, q). (
      subst (λ d. GoesOn s.db.1 d.1) (sym same) (here, λ x n. n),
      (e, subst (λ d. Memᴰ e d.1.read) (sym same) m, k s.env u.env h ∙ q),
    );
  }

  Amid-preorder : (clear : Environment → Environment) → IsPreorder (Amid clear)
  Amid-preorder clear = record {
    rfl = λ s. still clear s s refl refl;
    trans = λ s u w f g. record {
      env = g.env ∙ f.env;
      goes = λ k held.
          let ((r, keep), middle) = f.goes k held in
          let ((r', keep'), held') = g.goes k middle in
          (
            (
              Course-trans b t stub self_url v between fate meanwhile denies token r r',
              λ x n. keep' x (keep x n),
            ),
            held',
          );
    };
  }

  put_same : (s : Run (Busy B C)) → (put over_http s).1.env ≡ s.env
  unfolding put client Remote.put
  put_same s = refl

  put-Amid : (clear : Environment → Environment) → Keeps (Amid clear) (put over_http)
  unfolding put
  put-Amid clear = record {
    at = λ s. record {
      env = ap (outside clear) (put_same s);
      goes = λ k (e, m, q).
          let (r, keep) =
            put-Passes b t stub self_url v between fate meanwhile denies token s.db.0 s.db.1 e s.env
              m q in
          ((r, keep), (e, keep e m, ap origin (put_same s) ∙ q));
    };
  }

  Amid-IsFrame : IsFrame over_http Amid
  unfolding set_env call invoke
  Amid-IsFrame = record {
    preorder = λ clear keeps_id. Amid-preorder clear;
    set = λ clear f h. record { at = λ s. still clear s _ (h s.env) refl };
    put = λ clear h. put-Amid clear;
    call = λ clear o x. record { at = λ s. still clear s _ refl refl };
    invoke = λ clear o x. record { at = λ s. still clear s _ refl refl };
  }

  module _ (p : Options) (o : Oracle) (k : Kind) (compensate : Bool) where
    served :
        (env_id : Text) (w : Worker (Busy B C)) (s : System B C) (r : Result Environment)
        → GoesOn s w.db.1
        → ((e : Environment) → r ≡ ok e → Memᴰ e w.db.1.read)
        → Reach b t stub self_url v s
            (with_env over_http
              (build_steps p o over_http)
              env_id
              (name_of k)
              compensate
              r
              w).1.db.1
    served env_id w s r (before, kept) read =
        elim (with_env-Leaves p o over_http Amid-IsFrame k env_id compensate r w) [
          | inl (env, found, (u, amid, h)) ↦
              let ((after, keep), held) =
                amid.goes (without-origin k) (env, read env found, refl) in
              subst (λ d. Reach b t stub self_url v s d.1) (sym h)
                (Course-trans b t stub self_url v between fate meanwhile denies token before after)
          | inr same ↦ subst (λ d. Reach b t stub self_url v s d.1) (sym same) before
        ]

    -- Whatever else goes on between the transactions of a request to one of forge-worker's eight
    -- step endpoints, forward or backward, whatever its body is, whatever the services answer,
    -- whichever of its requests to forge-api or their replies are lost, and whether or not its
    -- token lets them through, if a denial is not a 200: the request takes forge-api from state to
    -- state by steps of the system.
    pub handle-Reach :
        (body : Option Text) (w : Worker (Busy B C))
        → Reach b t stub self_url v w.db.1
            (handle over_http (build_steps p o over_http) (name_of k) compensate body w).1.db.1
    unfolding handle
    handle-Reach none w = here
    handle-Reach (some env_id) w = elim (Bool-cases (is_empty env_id)) [
      | inl h ↦ rw h here
      | inr h ↦ rw h (
          served env_id _ w.db.1 _
            (get-Passes b t stub self_url v between fate meanwhile denies token w.db.0 w.db.1
              env_id)
            (get-read b t stub self_url v between fate meanwhile denies token w.db.0 w.db.1 env_id))
    ]
