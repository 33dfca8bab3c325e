-- ===== src/Cli/Admin/Revoked.antt =====
-- tokens revoke against forge-worker's route and svid-exchange.
use env_forge.Prelude.{
  ◌≡◌, ◌↔◌, refl, ap, ◌∙◌, ◌==◌, ℤ, Bool, Bool-cases, inl, inr, List, [], ◌∷◌, ◌++◌, Option, none,
  some, Text, lit, arith,
}
use env_forge.Go.{Error, Result, ok, err, panic, hung}
use env_forge.Cloud.{Call, Oracle}
use env_forge.Worker.Proxy.{Body, Response, RevokeRequest, handle_revoke_token}
use env_forge.Worker.Proxy.Revoke.{
  code_of, Revoked, handle_revoke_token_iff, handle_revoke_token-code,
}
use env_forge.Cli.{
  Net, Reader, Printer, Reply, post, revocation, Request, Run, Command, continue, ◌>>=◌, ◌>>◌, lift,
  context, choose, fail, print, transmit, do_post,
}
use env_forge.Cli.Admin.{expect_ok, revoke_token}

module _ {R : Type 0} where
  expect_ok_iff :
      (what : Text) (resp : Reply R) (s : Run)
      → ((expect_ok what resp s).0 ≡ ok tt) ↔ (resp.status_code ≡ 200)
  unfolding expect_ok choose fail lift
  expect_ok_iff what resp s = elim (Bool-cases (resp.status_code == 503)) [
    | inl b ↦ (λ h. absurd (cc (rw b at h)), λ h. absurd (ground arith))
    | inr b ↦ elim (Bool-cases (resp.status_code == 200)) [
      | inl c ↦ (λ h. ground arith, λ h. rw (b, c) refl)
      | inr c ↦ (λ h. absurd (cc (rw (b, c) at h)), λ h. absurd (ground arith))
    ]
  ]

continue-print :
    (t : Text) (r : Result (Unit {0})) (s : Run)
    → ((continue r (λ _. print t) s).0 ≡ ok tt) ↔ (r ≡ ok tt)
unfolding print
continue-print t (ok tt) s = (λ h. refl, λ h. refl)
continue-print t (err e) s = (λ h. cc h, λ h. cc h)
continue-print t panic s = (λ h. cc h, λ h. cc h)
continue-print t hung s = (λ h. cc h, λ h. cc h)

then-print :
    (t : Text) (m : Command (Unit {0})) (s : Run)
    → (((m >> print t) s).0 ≡ ok tt) ↔ ((m s).0 ≡ ok tt)
unfolding ◌>>◌ ◌>>=◌
then-print t m s = continue-print t (m s).0 (m s).1

abbrev pub revocation_of : Text → ℤ → RevokeRequest
revocation_of token_id expires_at = record { token_id = token_id; expires_at = expires_at }

-- what net/http makes of the reply of a server, with an error for a connection that is closed
abbrev pub delivered : {R : Type 0} → (Body → R) → Error → Option Response → Result (Reply R)
delivered encode closed none = err closed
delivered encode closed (some r) = ok (record { status_code = r.code; body = encode r.body })

module _ {R : Type 0} (net : Net R) (reader : Reader R) (p : Printer) (worker_url : Text) where
  abbrev pub revoke_request : Text → ℤ → Request
  revoke_request token_id expires_at = record {
    method = post;
    url = worker_url ++ lit "/admin/tokens/revoke";
    body = some (revocation (revocation_of token_id expires_at));
  }

  revoke_token-code_of :
      (encode : Body → R) (closed : Error) (x : Option Response) (token_id : Text) (expires_at : ℤ)
      (s : Run)
      → net.new_request post (worker_url ++ lit "/admin/tokens/revoke") ≡ ok tt
      → net.send s.sent (revoke_request token_id expires_at) ≡ delivered encode closed x
      → ((revoke_token net reader p worker_url token_id expires_at s).0 ≡ ok tt) ↔ (code_of x ≡ 200)
  unfolding revoke_token do_post transmit context lift ◌>>=◌ ◌>>◌ code_of
  revoke_token-code_of encode closed none token_id expires_at s built sent =
      rw (built, sent) (λ h. absurd (cc h), λ h. absurd (omega arith))
  revoke_token-code_of encode closed (some r) token_id expires_at s built sent =
      let resp : Reply R = record { status_code = r.code; body = encode r.body } in
      let s' = record s { sent = s.sent ++ revoke_request token_id expires_at ∷ [] } in
      let first =
        then-print (lit "Token " ++ token_id ++ lit " revoked successfully.\n")
          (expect_ok (lit "revoke token") resp) s' in
      let second = expect_ok_iff (lit "revoke token") resp s' in
      rw (built, sent) (λ h. second.0 (first.0 h), λ h. first.1 (second.1 h))

  -- tokens revoke, against forge-worker's route: if the request can be built and its reply is what
  -- the route answers, or an error where that closes the connection, then the command succeeds
  -- exactly if the worker has an admin client, the token id is not empty, and svid-exchange has
  -- accepted the revocation of that token id with the expiry given, as the one call made.
  pub revoke_token-iff_Revoked :
      (configured : Bool) (o : Oracle) (before : List Call) (encode : Body → R) (closed : Error)
      (token_id : Text) (expires_at : ℤ) (s : Run)
      → net.new_request post (worker_url ++ lit "/admin/tokens/revoke") ≡ ok tt
      → net.send s.sent (revoke_request token_id expires_at)
        ≡ delivered encode closed
            (handle_revoke_token configured o (some (revocation_of token_id expires_at)) before).0
      → ((revoke_token net reader p worker_url token_id expires_at s).0 ≡ ok tt)
        ↔ Revoked configured o
            (some (revocation_of token_id expires_at))
            before
            (handle_revoke_token configured o (some (revocation_of token_id expires_at)) before).1
  revoke_token-iff_Revoked configured o before encode closed token_id expires_at s built sent =
      let body = some (revocation_of token_id expires_at) in
      let by_code = revoke_token-code_of encode closed _ token_id expires_at s built sent in
      let route = handle_revoke_token_iff configured o body before in
      (
        λ h. route.0 (handle_revoke_token-code configured o body before (by_code.0 h)),
        λ h. by_code.1 (ap code_of (route.1 h) ∙ (unfold code_of in refl)),
      )
