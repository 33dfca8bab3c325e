-- ===== src/Api/Lifecycle/Drained.antt =====
-- What still runs when ListenAndServe has returned.
use mathlib.Core.Path.{subst}
use env_forge.Prelude.{◌≡◌, refl, sym, ap, ◌∙◌, ℕ, zero, suc, ◌+◌, ◌≤◌, true, arith, ◌⊎◌, inl, inr}
use env_forge.Go.{ok}
use env_forge.Api.Lifecycle.{
  Lifecycle, draining, returned, listening, Move, accept, cancel, shut, break_off, drain, refuse,
  spawn, done, Runs, here, next,
}

-- the move from x to y is one of a course of things
abbrev pub Passes : {s u : Lifecycle} → Runs s u → Lifecycle → Lifecycle → Type 0
Passes here x y = ⊥
Passes (next {u} {w} r m) x y = ((x ≡ u) × (y ≡ w)) ⊎ Passes r x y

-- the state in which s.wg.Wait came back in the course `r`, and what may be left since then
record Drained {u : Lifecycle} (r : Runs listening u) : Type 0 where
  at : Lifecycle
  passed : Passes r at (record at { phase = returned (ok tt) })
  stood : at.phase ≡ draining
  cancelled : at.cancelled ≡ true
  idle : at.running ≡ 0
  left : u.running + u.handled ≤ at.handled

-- What holds after every course: ListenAndServe only drains when the context is done, and once it has
-- returned nil it was drained.
record IsOrderly {u : Lifecycle} (r : Runs listening u) : Type 0 where
  cancelled : u.phase ≡ draining → u.cancelled ≡ true
  drained : u.phase ≡ returned (ok tt) → Drained r

Drained-counted :
    (s u : Lifecycle) (r : Runs listening s) (m : Move s u)
    → u.running + u.handled ≤ s.running + s.handled
    → Drained r
    → Drained (next r m)
Drained-counted s u r m fewer d = record {
  at = d.at;
  passed = inr d.passed;
  stood = d.stood;
  cancelled = d.cancelled;
  idle = d.idle;
  left = omega (arith, d.left, fewer);
}

-- a step that lets nothing new in
Orderly-counted :
    (s u : Lifecycle) (r : Runs listening s) (m : Move s u)
    → u.phase ≡ s.phase
    → u.cancelled ≡ s.cancelled
    → u.running + u.handled ≤ s.running + s.handled
    → IsOrderly r
    → IsOrderly (next r m)
Orderly-counted s u r m same still fewer g = record {
  cancelled = λ h. still ∙ g.cancelled (sym same ∙ h);
  drained = λ h. Drained-counted s u r m fewer (g.drained (sym same ∙ h));
}

Move-IsOrderly :
    (s u : Lifecycle) (r : Runs listening s) (m : Move s u) → IsOrderly r → IsOrderly (next r m)
Move-IsOrderly s u r (accept p e) g = record {
  cancelled = λ h. absurd (cc);
  drained = λ h. absurd (cc);
}
Move-IsOrderly s u r (cancel e) g = record {
  cancelled = λ h. ap (λ l. l.cancelled) e;
  drained = λ h.
      Drained-counted s u r (cancel e) (ground arith) (g.drained (sym (ap (λ l. l.phase) e) ∙ h));
}
Move-IsOrderly s u r (shut p q e) g = record {
  cancelled = λ h. ap (λ l. l.cancelled) e ∙ q;
  drained = λ h. absurd (cc);
}
Move-IsOrderly s u r (break_off x p e) g = record {
  cancelled = λ h. absurd (cc);
  drained = λ h. absurd (cc);
}
Move-IsOrderly s u r (drain p q e) g = record {
  cancelled = λ h. absurd (cc);
  drained = λ h. record {
    at = s;
    passed = inl (refl, sym e);
    stood = p;
    cancelled = g.cancelled p;
    idle = q;
    left = ground arith;
  };
}
Move-IsOrderly s u r (refuse n p e) g =
    Orderly-counted s u r (refuse n p e) (ap (λ l. l.phase) e) (ap (λ l. l.cancelled) e)
      (ground arith) g
Move-IsOrderly s u r (spawn n p e) g =
    Orderly-counted s u r (spawn n p e) (ap (λ l. l.phase) e) (ap (λ l. l.cancelled) e)
      (ground arith) g
Move-IsOrderly s u r (done n p e) g =
    Orderly-counted s u r (done n p e) (ap (λ l. l.phase) e) (ap (λ l. l.cancelled) e)
      (ground arith) g

Runs-IsOrderly : (u : Lifecycle) (r : Runs listening u) → IsOrderly r
Runs-IsOrderly u here = record { cancelled = λ h. absurd (cc); drained = λ h. absurd (cc) }
Runs-IsOrderly u (next {u = s} r m) = Move-IsOrderly s u r m (Runs-IsOrderly s r)

-- as many requests as one likes are accepted
accepted : (n : ℕ) → Runs listening (record listening { handled = n })
accepted zero = here
accepted (suc n) = next (accepted n) (accept refl refl)

abbrev late : ℕ → ℕ → Lifecycle
late n k = record { phase = returned (ok tt); cancelled = true; handled = k; running = n }

-- and start their goroutines when ListenAndServe has returned
spawned : (n k : ℕ) → Runs listening (late 0 (n + k)) → Runs listening (late n k)
spawned zero k r = subst (λ j. Runs listening (late 0 j)) (omega arith) r
spawned (suc n) k r =
    next (spawned n (suc k) (subst (λ j. Runs listening (late 0 j)) (omega arith) r))
      (spawn k refl refl)

drained : (n : ℕ) → Runs listening (late 0 n)
drained n =
    next (next (next (accepted n) (cancel refl)) (shut refl refl refl)) (drain refl refl refl)

-- For every number there is a course of things in which ListenAndServe has returned nil, and that many
-- provision goroutines run.
pub Runs-late :
    (n : ℕ) → (u : Lifecycle) × Runs listening u × (u.phase ≡ returned (ok tt)) × (u.running ≡ n)
Runs-late n = (
  late n 0,
  spawned n 0 (subst (λ j. Runs listening (late 0 j)) (omega arith) (drained n)),
  refl,
  refl,
)

-- Whatever comes in and in whatever order things happen: in every course of things at whose end
-- ListenAndServe of forge-api has returned nil, there is the very move with which it returned, out of
-- a state in which it was draining, the context was done, and no provision goroutine that the
-- WaitGroup counts was running; and at least as many requests to create were then still before
-- s.wg.Add as are there or run as goroutines at the end. So none runs at the end if no such request
-- was left at that move.
pub Runs-drained :
    (u : Lifecycle) (r : Runs listening u)
    → u.phase ≡ returned (ok tt)
    → (at : Lifecycle) × Passes r at (record at { phase = returned (ok tt) })
      × (at.phase ≡ draining)
      × (at.cancelled ≡ true)
      × (at.running ≡ 0)
      × (u.running + u.handled ≤ at.handled)
Runs-drained u r h =
    let d = (Runs-IsOrderly u r).drained h in (d.at, d.passed, d.stood, d.cancelled, d.idle, d.left)
