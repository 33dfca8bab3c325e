-- ===== src/Api/Internal/Scopes.antt =====
-- What the internal PUT of forge-api asks of its caller.
use env_forge.Prelude.{
  ◌≡◌, ◌≢◌, refl, if◌then◌else◌, Bool, true, false, Option, none, some, Text, lit, [], ◌∷◌,
}
use env_forge.Environment.{Environment}
use env_forge.Environment.Json.{TimeText}
use env_forge.Environment.Store
use env_forge.Environment.Store.{Bucket, Store}
use env_forge.Api.{Response}
use env_forge.Api.Internal.{
  Verifier, forbidden, authorize, may_write, env_write, guarded_put, handle_internal_put,
}

module _ {B K : Type 0} (b : Bucket B) (t : TimeText) (v : Verifier K) where
  abbrev judged : (Verifier K → K → Bool) → Text → Option K → Option Response
  judged test scope none = some v.denied
  judged test scope (some k) = if test v k then none else some (forbidden scope)

  if-none : (x : Bool) (r : Response) → (if x then none else some r) ≡ none → x ≡ true
  if-none true r h = refl
  if-none false r h = cc

  judged-none :
      (test : Verifier K → K → Bool) (scope : Text) (o : Option K)
      → judged test scope o ≡ none
      → (k : K) × (o ≡ some k) × (test v k ≡ true)
  judged-none test scope none h = cc
  judged-none test scope (some k) h = (k, refl, if-none (test v k) (forbidden scope) h)

  guarded_put-changes :
      (body : Option Environment) (r : Option Response) (s : Store B)
      → (guarded_put b t (some v) body r s).1 ≢ s
      → (r ≡ none)
        × ((x : Environment) × (body ≡ some x)
            × ((guarded_put b t (some v) body r s).1 ≡ (Store.put b t x s).2))
  guarded_put-changes none none s h = absurd (h refl)
  guarded_put-changes (some x) none s h = (refl, (x, refl, refl))
  guarded_put-changes body (some refusal) s h = absurd (h refl)

  -- If a request to the internal PUT route changes the store while forge-api has a verifier, then the
  -- verifier takes the request's header, and says of the claims that it reads there that they have all
  -- of the scopes env:read and env:write; the request's body is an environment, and the store is
  -- afterwards what a Put of that environment leaves of it.
  pub handle_internal_put-changes :
      (header : Option Text) (body : Option Environment) (s : Store B)
      → (handle_internal_put b t (some v) header body s).1 ≢ s
      → ((k : K) × (v.claims header ≡ some k)
          × (v.has_all_scopes k (lit "env:read" ∷ lit "env:write" ∷ []) ≡ true))
        × ((x : Environment) × (body ≡ some x)
            × ((handle_internal_put b t (some v) header body s).1 ≡ (Store.put b t x s).2))
  unfolding handle_internal_put authorize
  handle_internal_put-changes header body s h =
      let (passed, put_as) = guarded_put-changes body _ s h in
      (judged-none may_write env_write (v.claims header) passed, put_as)
