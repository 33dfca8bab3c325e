-- ===== src/Environment/Store/Fits.antt =====
-- Puts that succeed: of any environment, where the clock formats and the bucket takes every write.
use mathlib.Core.Option
use env_forge.Prelude.{◌≡◌, refl, ℕ, Option, some, Text}
use env_forge.Environment.{Environment}
use env_forge.Environment.Json.{Json, TimeText, marshal, members, fields_of, obj}
use env_forge.Environment.Store
use env_forge.Environment.Store.{Bucket, Store}
use env_forge.Go.{ok}

module _ (t : TimeText) (formats : (n : ℕ) → (s : Text) × (t.format n ≡ some s)) where
  both :
      (m n : Option Text) (x y : Text) (f : Text → Text → Json)
      → m ≡ some x
      → n ≡ some y
      → (j : Json) × (Option.bind m (λ c. Option.map (f c) n) ≡ some j)
  unfolding Option.bind
  both m n x y f p q = (f x y, rw (p, q) refl)

  pub marshal_total : (e : Environment) → (j : Json) × (marshal t e ≡ some j)
  unfolding marshal
  marshal_total e =
      let (created, p) = formats e.created_at in
      let (updated, q) = formats e.updated_at in
      both (t.format e.created_at) (t.format e.updated_at) created updated
        (λ c u. obj (members (fields_of c u e))) p q

module _ {B : Type 0} (b : Bucket B) (t : TimeText)
    (formats : (n : ℕ) → (s : Text) × (t.format n ≡ some s)) where
  -- a put succeeds where the bucket takes what is written
  pub put-returns :
      ((db : B) (k : Text) (j : Json) → (db' : B) × (b.put db k j ≡ ok db'))
      → (e : Environment) (s : Store B) → (Store.put b t e s).0 ≡ ok tt
  unfolding Store.put
  put-returns fits e s =
      let (j, m) = marshal_total t formats (Store.stamp b t e s) in
      let (db, p) = fits s.db e.id j in rw (m, p)
