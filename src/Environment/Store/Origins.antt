-- ===== src/Environment/Store/Origins.antt =====
-- What a put leaves of the environments that are stored: those that are stored stay, with the origin
-- that they have.
use env_forge.Prelude.{
  ◌≡◌, ℕ, refl, sym, ap, ◌∙◌, if◌then◌else◌, Bool, true, false, Bool-cases, inl, inr, Text, text_eq,
  text_eq_iff, text_eq_refl, is_empty,
}
use env_forge.Environment.{Environment}
use env_forge.Environment.Json.{TimeText}
use env_forge.Environment.Origin.{origin}
use env_forge.Environment.Store
use env_forge.Environment.Store.{Bucket, IsBucket, Store, stamp}
use env_forge.Environment.Store.Laws.{get-put, put_err, ok-cases}
use env_forge.Go.{Result, ok, err, not_found}

pub ok_injective : (x y : Environment) → ◌≡◌ {A = Result Environment} (ok x) (ok y) → x ≡ y
ok_injective x y h = cc

module _ {B : Type 0} (b : Bucket B) (t : TimeText) where
  -- the environment is stored under its id, as far as its origin goes
  abbrev pub Backed : Store B → Environment → Type 0
  Backed s x =
      (stored : Environment) × ((Store.get b t x.id s).0 ≡ ok stored) × (origin stored ≡ origin x)

  -- every environment is stored under its own id, and has an owner
  abbrev pub IsOwned : Store B → Type 0
  IsOwned s =
      (k : Text) (e : Environment)
      → (Store.get b t k s).0 ≡ ok e
      → (e.id ≡ k) × (is_empty e.owner ≡ false)

  -- what is stored stays stored, with its origin
  abbrev pub Extends : Store B → Store B → Type 0
  Extends s s' =
      (k : Text) (e : Environment)
      → (Store.get b t k s).0 ≡ ok e
      → (later : Environment) × ((Store.get b t k s').0 ≡ ok later) × (origin later ≡ origin e)

  pub record Advances (s s' : Store B) : Type 0 where
    pub extends : Extends s s'
    pub owned : IsOwned s'

  pub Advances-refl : (s : Store B) → IsOwned s → Advances s s
  Advances-refl s owned = record { extends = λ k e h. (e, h, refl); owned = owned }

  pub put-env : (x : Environment) (s : Store B) → (Store.put b t x s).1 ≡ stamp b t x s
  unfolding Store.put
  put-env x s = refl

  -- what is read does not depend on the clock
  pub wait-Advances : (s : Store B) (now : ℕ) → IsOwned s → Advances s (record s { now = now })
  unfolding Store.get
  wait-Advances s now owned = record { extends = λ k e h. (e, h, refl); owned = owned }

  pub Extends-trans : (s t u : Store B) → Extends s t → Extends t u → Extends s u
  Extends-trans s t u f g k e h =
      let (e', h', p) = f k e h in let (e'', h'', q) = g k e' h' in (e'', h'', q ∙ p)

  pub Advances-trans : (s t u : Store B) → Advances s t → Advances t u → Advances s u
  Advances-trans s t u f g = record {
    extends = Extends-trans s t u f.extends g.extends;
    owned = g.owned;
  }

  pub Backed-extends : (s s' : Store B) (x : Environment) → Extends s s' → Backed s x → Backed s' x
  Backed-extends s s' x f (e, h, p) = let (e', h', q) = f x.id e h in (e', h', q ∙ p)

  pub Backed-origin :
      (s : Store B) (x y : Environment) → origin y ≡ origin x → Backed s x → Backed s y
  Backed-origin s x y same (e, h, p) =
      (e, ap (λ z. (Store.get b t z.id s).0) same ∙ h, p ∙ sym same)

  module _ (laws : IsBucket b) where
    -- a put that does not change the origin of what is stored under the id
    module _ (x : Environment) (s : Store B)
        (agrees : (e : Environment) → (Store.get b t x.id s).0 ≡ ok e → origin x ≡ origin e)
        (has_owner : is_empty x.owner ≡ false) (owned : IsOwned s) where
      abbrev after : Store B
      after = (Store.put b t x s).2

      written :
          (Store.put b t x s).0 ≡ ok tt
          → (k : Text) (same : Bool) → text_eq x.id k ≡ same
          → (Store.get b t k after).0 ≡ (if same then ok (stamp b t x s) else (Store.get b t k s).0)
      written h k same q =
          get-put b t laws x s k h
          ∙ ap (λ r. if r then ok (stamp b t x s) else (Store.get b t k s).0) q

      written-Advances : (Store.put b t x s).0 ≡ ok tt → Advances s after
      written-Advances h = record {
        extends = λ k e found. elim (Bool-cases (text_eq x.id k)) [
          | inl q ↦ (
            stamp b t x s,
            written h k true q,
            agrees e (ap (λ i. (Store.get b t i s).0) ((text_eq_iff _ _).0 q) ∙ found),
          )
          | inr q ↦ (e, written h k false q ∙ found, refl)
        ];
        owned = λ k e found. elim (Bool-cases (text_eq x.id k)) [
          | inl q ↦
              let is_x = ok_injective _ e (sym (written h k true q) ∙ found) in
              (
                sym (ap (λ y. y.id) is_x) ∙ (text_eq_iff _ _).0 q,
                sym (ap (λ y. is_empty y.owner) is_x) ∙ has_owner,
              )
          | inr q ↦ owned k e (sym (written h k false q) ∙ found)
        ];
      }

      pub agreeing-Advances : Advances s after
      agreeing-Advances = elim (ok-cases b t (Store.put b t x s).0) [
        | inl done ↦ written-Advances done
        | inr failed ↦ rw (put_err b t x s failed) (Advances-refl s owned)
      ]

    pub put-Backed :
        (x : Environment) (s : Store B)
        → (Store.put b t x s).0 ≡ ok tt
        → Backed (Store.put b t x s).2 (Store.put b t x s).1
    put-Backed x s h =
        rw (put-env x s) (stamp b t x s, rw (get-put b t laws x s x.id h, text_eq_refl) refl, refl)

    -- a put of an environment whose origin is stored
    pub put-Advances :
        (x : Environment) (s : Store B) → Backed s x → IsOwned s → Advances s (Store.put b t x s).2
    put-Advances x s (e, h, p) owned =
        agreeing-Advances x s (λ e' h'. sym p ∙ ap origin (ok_injective e e' (sym h ∙ h')))
          (sym (ap (λ y. is_empty y.owner) p) ∙ (owned x.id e h).1) owned

    -- a put under an id that was free
    pub put_new-Advances :
        (x : Environment) (s : Store B)
        → (Store.get b t x.id s).0 ≡ err not_found
        → is_empty x.owner ≡ false
        → IsOwned s
        → Advances s (Store.put b t x s).2
    put_new-Advances x s free has_owner owned = agreeing-Advances x s (λ e h. cc) has_owner owned
