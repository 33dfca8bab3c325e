-- ===== src/Remote/Stored.antt =====
-- What the worker's state client reads is what forge-api has stored, whatever the verifier says.
use env_forge.Prelude.{
  ◌≡◌, ◌≢◌, refl, sym, ◌∙◌, Bool, Bool-cases, Option-cases, ◌⊎◌, inl, inr, Option, none, some, Text,
  arith,
}
use env_forge.Environment.{Environment}
use env_forge.Environment.Json.{TimeText, marshal}
use env_forge.Environment.Json.RoundTrip.{unmarshal-marshal}
use env_forge.Environment.Store
use env_forge.Environment.Store.{Bucket, Store}
use env_forge.Go.{Result, ok, err, panic, hung, is_not_found}
use env_forge.Api.{Response}
use env_forge.Api.Internal.{Verifier, env_read, authorize, may_read, get_reply, handle_internal_get}
use env_forge.Remote.{read_reply, decoded}
use env_forge.Remote.Refines.{received}

module _ {B K : Type 0} (b : Bucket B) (t : TimeText) (v : Option (Verifier K))
    (denies : (k : Verifier K) → v ≡ some k → k.denied.code ≢ 200) where
  -- a refusal is no success
  authorize-cases :
      (test : Verifier K → K → Bool) (scope : Text) (header : Option Text) (w : Option (Verifier K))
      → v ≡ w
      → (authorize w test scope header ≡ none)
        ⊎ ((r : Response) × (authorize w test scope header ≡ some r) × (r.code ≢ 200))
  unfolding authorize
  authorize-cases test scope header none same = inl refl
  authorize-cases test scope header (some k) same = elim (Option-cases (k.claims header)) [
    | inl h ↦ rw h (inr (k.denied, refl, denies k same))
    | inr (c, h) ↦ elim (Bool-cases (test k c)) [
      | inl q ↦ rw (h, q) (inl refl)
      | inr q ↦ rw (h, q) (inr (_, refl, λ e. omega (arith, e)))
    ]
  ]

  refused-unread :
      (what : Text) (r : Response) (e : Environment)
      → r.code ≢ 200
      → read_reply t what (ok (received r)) ≢ ok e
  unfolding read_reply
  refused-unread what r e n h = ground arith

  answered-stored :
      (what id : Text) (r : Result Environment) (e : Environment)
      → read_reply t what (ok (received (get_reply b t v id r))) ≡ ok e
      → r ≡ ok e
  unfolding read_reply
  answered-stored what id (ok x) e h = elim (Option-cases (marshal t x)) [
    | inl failed ↦ cc (rw failed at h)
    | inr (j, m) ↦
        let same : decoded t (some j) ≡ ok x = rw (decoded, unmarshal-marshal t x j m) in
        let read : decoded t (some j) ≡ ok e = rw m at h in sym same ∙ read
  ]
  answered-stored what id (err x) e h = elim (Bool-cases (is_not_found x)) [
    | inl missing ↦ cc (rw missing at h)
    | inr other ↦ cc (rw other at h)
  ]
  answered-stored what id panic e h = cc
  answered-stored what id hung e h = cc

  -- what the client reads is what is stored
  pub read-stored :
      (what id : Text) (header : Option Text) (s : Store B) (e : Environment)
      → read_reply t what (ok (received (handle_internal_get b t v header id s))) ≡ ok e
      → (Store.get b t id s).0 ≡ ok e
  unfolding handle_internal_get
  read-stored what id header s e h = elim (authorize-cases may_read env_read header v refl) [
    | inl let_in ↦ answered-stored what id (Store.get b t id s).0 e (rw let_in at h)
    | inr (r, refused, n) ↦ absurd (refused-unread what r e n (rw refused at h))
  ]
