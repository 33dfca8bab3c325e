-- ===== src/Tests/AdminRoutes.antt =====
-- The theorems on svid-exchange's admin service and on the sagas' routes, at concrete inputs.
use env_forge.Prelude.{◌≡◌, ◌↔◌, ◌++◌, refl, true, false, pos, none, some, [], ◌∷◌, lit}
use env_forge.Go.{ok, err, other}
use env_forge.Cloud.{Call, Oracle, PolicyEntry}
use env_forge.Steps.Identity.{verify}
use env_forge.Admin.Policy.{Granted, verify_iff}
use env_forge.Worker.Proxy.{Body, RevokeRequest, handle_revoke_token}
use env_forge.Worker.Proxy.Revoke.{Revoked}
use env_forge.Conductor.{SagaExecution, completed}
use env_forge.Api.Sagas.{handle_abort_env}
use env_forge.Api.Sagas.Abort.{shown, Aborted, handle_abort_env_iff}
use env_forge.Cli.{Net, Reader, Printer, Run, Request}
use env_forge.Cli.Admin.{revoke_token}
use env_forge.Cli.Admin.Revoked.{revocation_of, revoke_request, delivered, revoke_token-iff_Revoked}
use env_forge.Tests.Memory.{memory}
use env_forge.Tests.Samples.{clock, two_stored, run_planned, conductor}
use env_forge.Tests.Client.{idle_reader, plain}

abbrev of_yaml : PolicyEntry
of_yaml = record { rule = none; source = lit "yaml" }

abbrev narrow : PolicyEntry
narrow = record {
  rule = some (record {
    name = lit "policy-env-1";
    subject = lit "a";
    target = lit "b";
    allowed_scopes = lit "read" ∷ [];
    max_ttl = pos 3600;
  });
  source = lit "dynamic";
}

verify_iff_example :
    ((verify (lit "policy-env-1") (of_yaml ∷ narrow ∷ []) run_planned).0 ≡ ok tt)
    ↔ Granted (lit "policy-env-1") (of_yaml ∷ narrow ∷ [])
verify_iff_example = verify_iff (lit "policy-env-1") (of_yaml ∷ narrow ∷ []) run_planned

-- svid-exchange takes revocations, and nothing else
unfoldable revoking : Oracle
revoking before (Call.revoke_token id expires_at) = ok tt
revoking before _ = err (other (lit "unavailable"))

abbrev jti : RevokeRequest
jti = revocation_of (lit "jti-1") (pos 9)

-- the network between the client and a worker of whom nothing was asked
unfoldable to_worker : Net Body
to_worker = record {
  new_request = λ method url. ok tt;
  send = λ before req.
      delivered (λ b. b) (other (lit "EOF")) (handle_revoke_token true revoking (some jti) []).0;
  is_done = λ before. false;
}

abbrev fresh : Run
fresh = record { sent = []; out = [] }

built :
    to_worker.new_request env_forge.Cli.post (lit "http://w" ++ lit "/admin/tokens/revoke") ≡ ok tt
unfolding to_worker
built = refl

answered :
    to_worker.send []
      (revoke_request to_worker idle_reader plain (lit "http://w") (lit "jti-1") (pos 9))
    ≡ delivered (λ b. b) (other (lit "EOF")) (handle_revoke_token true revoking (some jti) []).0
unfolding to_worker
answered = refl

revoke_token-iff_Revoked_example :
    ((revoke_token to_worker idle_reader plain (lit "http://w") (lit "jti-1") (pos 9) fresh).0
      ≡ ok tt)
    ↔ Revoked true revoking (some jti) [] (handle_revoke_token true revoking (some jti) []).1
revoke_token-iff_Revoked_example =
    revoke_token-iff_Revoked to_worker idle_reader plain (lit "http://w") true revoking [] (λ b. b)
      (other (lit "EOF")) (lit "jti-1") (pos 9) fresh built answered

abbrev aborted : SagaExecution
aborted = record {
  id = lit "saga-1";
  status = completed;
  failed_step = [];
  created_at = none;
  steps = [];
}

handle_abort_env_iff_example :
    (handle_abort_env memory clock (some (conductor completed)) (lit "0a1b") two_stored 7
      ≡ (shown aborted, 7))
    ↔ Aborted memory clock (some (conductor completed)) (lit "0a1b") two_stored 7 aborted 7
handle_abort_env_iff_example =
    handle_abort_env_iff memory clock (some (conductor completed)) (lit "0a1b") two_stored 7 aborted
      7
