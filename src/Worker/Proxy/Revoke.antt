-- ===== src/Worker/Proxy/Revoke.antt =====
-- What a 200 of the revocation route means.
use mathlib.Core.Path.{subst}
use env_forge.Prelude.{
  ◌≡◌, ◌↔◌, refl, ap, ℕ, Bool, true, false, Bool-cases, inl, inr, List, [], ◌∷◌, ◌++◌, Option, none,
  some, Text, lit, is_empty, arith, ◌≢◌,
}
use env_forge.Go.{Result, ok, err, panic, hung, wrapped}
use env_forge.Cloud.{Call, Oracle}
use env_forge.Action.{drop_answer}
use env_forge.Admin.{revoke_token}
use env_forge.Worker.Proxy.{
  Response, empty, reply, answer, RevokeRequest, revoke, handle_revoke_token,
}

abbrev pub accepted : Option Response
accepted = reply 200 empty

-- what a revocation that is accepted rests on
abbrev pub Revoked : Bool → Oracle → Option RevokeRequest → List Call → List Call → Type 0
Revoked configured o body before after =
    (req : RevokeRequest) × (configured ≡ true)
    × (body ≡ some req)
    × (is_empty req.token_id ≡ false)
    × (drop_answer (o before (Call.revoke_token req.token_id req.expires_at)) ≡ ok tt)
    × (after ≡ before ++ Call.revoke_token req.token_id req.expires_at ∷ [])

unfoldable pub code_of : Option Response → ℕ
code_of none = 0
code_of (some r) = r.code

ne_accepted : (r : Option Response) → code_of r ≢ 200 → r ≢ accepted
unfolding code_of
ne_accepted r differs h = differs (ap code_of h)

answer-accepted :
    (what : Text) (r : Result (Unit {0}))
    → (answer what (λ _. empty) (wrapped what r) ≡ accepted) ↔ (r ≡ ok tt)
unfolding code_of
answer-accepted what (ok tt) = (λ h. refl, λ h. refl)
answer-accepted what (err e) = (λ h. absurd (ne_accepted _ (omega arith) h), λ h. cc h)
answer-accepted what panic = (λ h. cc h, λ h. cc h)
answer-accepted what hung = (λ h. cc h, λ h. cc h)

revoke-accepted :
    (o : Oracle) (body : Option RevokeRequest) (before : List Call)
    → ((revoke true o body before).0 ≡ accepted)
      ↔ Revoked true o body before (revoke true o body before).1
unfolding revoke_token code_of
revoke-accepted o none before =
    (λ h. absurd (ne_accepted _ (omega arith) h), λ g. absurd (cc (g.2)))
revoke-accepted o (some req) before = elim (Bool-cases (is_empty req.token_id)) [
  | inl blank ↦ (
    λ h. absurd (ne_accepted _ (omega arith) (rw blank at h)),
    λ g. absurd (cc (blank, ap (λ (b : Option RevokeRequest). b) g.2, g.3)),
  )
  | inr full ↦ (
    λ h. (
      req,
      refl,
      refl,
      full,
      (answer-accepted (lit "revoke token") _).0 (rw full at h),
      rw full refl,
    ),
    λ (req', _, same, _, asked, _).
        let req_is : req' ≡ req = cc same in
        rw full (
          (answer-accepted (lit "revoke token") _).1 (
            subst
              (λ (q : RevokeRequest).
                drop_answer (o before (Call.revoke_token q.token_id q.expires_at)) ≡ ok tt)
              req_is asked)),
  )
]

-- POST /admin/tokens/revoke answers 200 exactly if the server has an admin client, the body is JSON
-- with a token id that is not empty, and svid-exchange has accepted a revocation of that token id
-- with the body's expiry; and that is then the one call that was made.
pub handle_revoke_token_iff :
    (configured : Bool) (o : Oracle) (body : Option RevokeRequest) (before : List Call)
    → ((handle_revoke_token configured o body before).0 ≡ accepted)
      ↔ Revoked configured o body before (handle_revoke_token configured o body before).1
unfolding handle_revoke_token code_of
handle_revoke_token_iff true o body before = revoke-accepted o body before
handle_revoke_token_iff false o body before =
    (λ h. absurd (ne_accepted _ (omega arith) h), λ g. absurd (cc g.1))

answer-code :
    (what : Text) (r : Result (Unit {0}))
    → code_of (answer what (λ _. empty) r) ≡ 200
    → answer what (λ _. empty) r ≡ accepted
unfolding code_of
answer-code what (ok _) h = refl
answer-code what (err e) h = absurd (omega arith)
answer-code what panic h = absurd (omega arith)
answer-code what hung h = absurd (omega arith)

revoke-code :
    (o : Oracle) (body : Option RevokeRequest) (before : List Call)
    → code_of (revoke true o body before).0 ≡ 200
    → (revoke true o body before).0 ≡ accepted
unfolding code_of
revoke-code o none before h = absurd (omega arith)
revoke-code o (some req) before h = elim (Bool-cases (is_empty req.token_id)) [
  | inl blank ↦ absurd (let c = rw blank at h in omega arith)
  | inr full ↦ rw full (answer-code (lit "revoke token") _ (unfold code_of in rw full at h))
]

-- the route answers 200 with no body, or something else
pub handle_revoke_token-code :
    (configured : Bool) (o : Oracle) (body : Option RevokeRequest) (before : List Call)
    → code_of (handle_revoke_token configured o body before).0 ≡ 200
    → (handle_revoke_token configured o body before).0 ≡ accepted
unfolding handle_revoke_token code_of
handle_revoke_token-code true o body before h = revoke-code o body before h
handle_revoke_token-code false o body before h = absurd (omega arith)
