-- ===== src/Start/Audience.antt =====
-- The service that forge-worker asks a token for, and the audience that forge-api expects.
use mathlib.Core.List.{append_cancel_left, append_cancel_right}
use env_forge.Prelude.{◌≡◌, ◌↔◌, refl, ◌∙◌, ◌++◌, Text, lit}
use env_forge.Start.Api.{audience_of}
use env_forge.Start.Worker.{target_service}

-- The tokens that forge-worker asks for are for the audience that forge-api expects exactly if
-- forge-api's trust domain is cluster.local.
pub audience_of-eq-target_service :
    (trust_domain : Text)
    → (audience_of trust_domain ≡ target_service) ↔ (trust_domain ≡ lit "cluster.local")
unfolding audience_of
audience_of-eq-target_service trust_domain = (
  λ h.
      let same : lit "spiffe://" ++ trust_domain ++ lit "/ns/default/sa/forge-api"
          ≡ lit "spiffe://" ++ lit "cluster.local" ++ lit "/ns/default/sa/forge-api" =
        h ∙ (unfold lit in refl) in
      append_cancel_left (lit "spiffe://") _ _
        (append_cancel_right (lit "spiffe://" ++ trust_domain) _ _ same),
  λ h. rw h (unfold lit in refl),
)
