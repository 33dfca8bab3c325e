-- ===== src/Api/Sagas/Abort.antt =====
-- What a 200 of the abort route means.
use mathlib.Core.Path.{subst}
use env_forge.Prelude.{
  ◌≡◌, ◌≢◌, ◌↔◌, refl, ap, ℕ, false, Bool-cases, inl, inr, Option, none, some, Text, lit, is_empty,
  arith,
}
use env_forge.Environment.{Environment}
use env_forge.Environment.Json.{TimeText}
use env_forge.Environment.Store.{Bucket, Store}
use env_forge.Go.{Result, ok, err, panic, hung, is_not_found}
use env_forge.Conductor.{SagaExecution, Stub, abort_saga}
use env_forge.Api.{Body, saga, Response, reply, find_by_prefix}
use env_forge.Api.Sagas.{answer, about_saga, about_env, handle_abort_env}

abbrev pub shown : SagaExecution → Option Response
shown exec = some (reply 200 (saga exec))

code_of : Option Response → ℕ
code_of none = 0
code_of (some r) = r.code

ne_shown : (r : Option Response) (exec : SagaExecution) → code_of r ≢ 200 → r ≢ shown exec
unfolding code_of
ne_shown r exec differs h = differs (ap code_of h)

saga_of : Body → SagaExecution → SagaExecution
saga_of (saga e) d = e
saga_of _ d = d

execution_of : Option Response → SagaExecution → SagaExecution
execution_of none d = d
execution_of (some r) d = saga_of r.body d

answer-shown :
    (what : Text) (r : Result SagaExecution) (exec : SagaExecution)
    → (answer what saga r ≡ shown exec) ↔ (r ≡ ok exec)
unfolding code_of execution_of saga_of
answer-shown what (ok e) exec = (
  λ h. ap ok (ap (λ x. execution_of x exec) h),
  λ h. ap (λ (x : Result SagaExecution). answer what saga x) h,
)
answer-shown what (err e) exec = (λ h. absurd (ne_shown _ exec (omega arith) h), λ h. cc h)
answer-shown what panic exec = (λ h. cc h, λ h. cc h)
answer-shown what hung exec = (λ h. cc h, λ h. cc h)

-- what an abort that is shown rests on, `c'` being the conductor's state after it
abbrev pub Aborted :
    {B C : Type 0}
    → Bucket B
    → TimeText
    → Option (Stub C)
    → Text
    → Store B
    → C
    → SagaExecution
    → C
    → Type 0
Aborted {C = C} b t client prefix s c exec c' =
    (stub : Stub C) × (env : Environment) × (client ≡ some stub)
    × (find_by_prefix b t prefix s ≡ ok env)
    × (is_empty env.saga_id ≡ false)
    × (stub.abort_saga env.saga_id c ≡ (ok exec, c'))

abbrev pair_eq : {A B : Type 0} {x y : A × B} → x.0 ≡ y.0 → x.1 ≡ y.1 → x ≡ y
pair_eq e f = λ i. (e i, f i)

module _ {B C : Type 0} (b : Bucket B) (t : TimeText) where
  found-shown :
      (stub : Stub C) (env : Environment) (c : C) (exec : SagaExecution) (c' : C)
      → (about_saga (lit "abort") (abort_saga stub) env c ≡ (shown exec, c'))
        ↔ ((is_empty env.saga_id ≡ false) × (abort_saga stub env.saga_id c ≡ (ok exec, c')))
  unfolding code_of
  found-shown stub env c exec c' = elim (Bool-cases (is_empty env.saga_id)) [
    | inl blank ↦ (
      λ h. absurd (ne_shown _ exec (omega arith) (ap (λ x. x.0) (rw blank at h))),
      λ g. absurd (cc (g.0, blank)),
    )
    | inr full ↦
        let whole = answer-shown (lit "abort") (abort_saga stub env.saga_id c).0 exec in
        (
          λ h.
              let h' = rw full at h in
              (full, pair_eq (whole.0 (ap (λ x. x.0) h')) (ap (λ x. x.1) h')),
          λ (_, asked). rw full (pair_eq (whole.1 (ap (λ x. x.0) asked)) (ap (λ x. x.1) asked)),
        )
  ]

  failed-shown :
      (stub : Stub C) (prefix : Text) (r : Result Environment) (c : C) (exec : SagaExecution)
      (c' : C)
      → about_env (lit "abort") (abort_saga stub) prefix r c ≡ (shown exec, c')
      → (env : Environment) × (r ≡ ok env)
        × (is_empty env.saga_id ≡ false)
        × (abort_saga stub env.saga_id c ≡ (ok exec, c'))
  unfolding code_of
  failed-shown stub prefix (ok env) c exec c' h =
      let (full, asked) = (found-shown stub env c exec c').0 h in (env, refl, full, asked)
  failed-shown stub prefix (err e) c exec c' h = elim (Bool-cases (is_not_found e)) [
    | inl missing ↦ absurd (ne_shown _ exec (omega arith) (ap (λ x. x.0) (rw missing at h)))
    | inr other ↦ absurd (ne_shown _ exec (omega arith) (ap (λ x. x.0) (rw other at h)))
  ]
  failed-shown stub prefix panic c exec c' h = absurd (cc (ap (λ x. x.0) h))
  failed-shown stub prefix hung c exec c' h = absurd (cc (ap (λ x. x.0) h))

  asked-shown :
      (stub : Stub C) (prefix : Text) (r : Result Environment) (env : Environment) (c : C)
      (exec : SagaExecution) (c' : C)
      → r ≡ ok env
      → is_empty env.saga_id ≡ false
      → abort_saga stub env.saga_id c ≡ (ok exec, c')
      → about_env (lit "abort") (abort_saga stub) prefix r c ≡ (shown exec, c')
  asked-shown stub prefix r env c exec c' found full asked =
      rw found ((found-shown stub env c exec c').1 (full, asked))

  -- POST /envs/{id}/abort answers 200 with a saga's execution, and leaves the conductor in a state,
  -- exactly if the server has a saga client, the first environment whose id has the prefix has a
  -- saga's id, and the AbortSaga of saga-conductor's own client, called with that id, answers with that
  -- execution and leaves the conductor in that state.
  pub handle_abort_env_iff :
      (client : Option (Stub C)) (prefix : Text) (s : Store B) (c : C) (exec : SagaExecution)
      (c' : C)
      → (handle_abort_env b t client prefix s c ≡ (shown exec, c'))
        ↔ Aborted b t client prefix s c exec c'
  unfolding handle_abort_env code_of abort_saga
  handle_abort_env_iff none prefix s c exec c' =
      (λ h. absurd (ne_shown _ exec (omega arith) (ap (λ x. x.0) h)), λ g. absurd (cc (g.2)))
  handle_abort_env_iff (some stub) prefix s c exec c' = (
    λ h.
        let (env, found, full, asked) = failed-shown stub prefix _ c exec c' h in
        (stub, env, refl, found, full, asked),
    λ (stub', env, same, found, full, asked).
        let stub_is : stub' ≡ stub = cc same in
        asked-shown stub prefix _ env c exec c' found full
          (subst (λ (x : Stub C). abort_saga x env.saga_id c ≡ (ok exec, c')) stub_is asked),
  )
