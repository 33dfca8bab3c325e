-- ===== src/Environment/Store/Laws.antt =====
-- What a caller of the store sees.
use env_forge.Prelude.{
  ◌≡◌, ◌≢◌, refl, sym, if◌then◌else◌, false, Bool-cases, Option, none, some, inl, inr, ◌⊎◌, Text,
  lit, text_eq, text_eq_iff, text_eq_refl,
}
use env_forge.Environment.{Environment}
use env_forge.Environment.Json.{Json, TimeText, marshal}
use env_forge.Environment.Json.RoundTrip.{unmarshal-marshal}
use env_forge.Go.{Result, ok, err, panic, hung, wrapped, not_found}
use env_forge.Action.{IsStateClient}
use env_forge.Environment.Store.{
  Bucket, IsBucket, Store, of_json, update, save, stamp, put, get, delete, client,
}

module _ {B : Type 0} (b : Bucket B) (t : TimeText) where
  update-eq-ok :
      (r : Result B) (s : Store B)
      → (update b t r s).0 ≡ ok tt
      → (db : B) × (r ≡ ok db) × ((update b t r s).1 ≡ record s { db = db })
  update-eq-ok (ok db) s h = (db, refl, refl)
  update-eq-ok (err e) s h = cc
  update-eq-ok panic s h = cc
  update-eq-ok hung s h = cc

  update-ne-ok : (r : Result B) (s : Store B) → (update b t r s).0 ≢ ok tt → (update b t r s).1 ≡ s
  update-ne-ok (ok db) s h = absurd (h refl)
  update-ne-ok (err e) s h = refl
  update-ne-ok panic s h = refl
  update-ne-ok hung s h = refl

  abbrev saved : Environment → Option Json → Store B → Result (Unit {0}) × Store B
  saved e m s = save b t e (wrapped (lit "marshal environment") (of_json m)) s

  saved-eq-ok :
      (e : Environment) (m : Option Json) (s : Store B)
      → (saved e m s).0 ≡ ok tt
      → (v : Json) × (db : B) × (m ≡ some v)
        × (b.put s.db e.id v ≡ ok db)
        × ((saved e m s).1 ≡ record s { db = db })
  saved-eq-ok e none s h = cc
  saved-eq-ok e (some v) s h =
      let (db, p, q) = update-eq-ok (b.put s.db e.id v) s h in (v, db, refl, p, q)

  saved-ne-ok :
      (e : Environment) (m : Option Json) (s : Store B)
      → (saved e m s).0 ≢ ok tt
      → (saved e m s).1 ≡ s
  saved-ne-ok e none s h = refl
  saved-ne-ok e (some v) s h = update-ne-ok (b.put s.db e.id v) s h

  pub get-put :
      IsBucket b
      → (e : Environment) (s : Store B) (k : Text) → (put b t e s).0 ≡ ok tt
      → (get b t k (put b t e s).2).0
        ≡ (if text_eq e.id k then ok (stamp b t e s) else (get b t k s).0)
  unfolding put get
  get-put laws e s k h =
      let (v, db, m, p, q) = saved-eq-ok (stamp b t e s) (marshal t (stamp b t e s)) s h in
      rw (q, laws.get-put s.db db e.id k v p)
        (elim (Bool-cases (text_eq e.id k)) [
          | inl same ↦ rw (same, unmarshal-marshal t (stamp b t e s) v m)
          | inr differ ↦ rw differ
        ])

  -- A Put that fails leaves the store as it was.
  pub put_err : (e : Environment) (s : Store B) → (put b t e s).0 ≢ ok tt → (put b t e s).2 ≡ s
  unfolding put
  put_err e s h = saved-ne-ok (stamp b t e s) (marshal t (stamp b t e s)) s h

  -- After a Delete that succeeds, Get of the id says that it is not there, and Get of any other id
  -- gives what it gave before.
  pub get-delete :
      IsBucket b
      → (id k : Text) (s : Store B) → (delete b t id s).0 ≡ ok tt
      → (get b t k (delete b t id s).1).0
        ≡ (if text_eq id k then err not_found else (get b t k s).0)
  unfolding delete get
  get-delete laws id k s h =
      let (db, p, q) = update-eq-ok (b.delete s.db id) s h in
      rw (q, laws.get-delete s.db db id k p)
        (elim (Bool-cases (text_eq id k)) [ inl same ↦ rw same | inr differ ↦ rw differ ])

  -- A Delete that fails leaves the store as it was.
  pub delete_err : (id : Text) (s : Store B) → (delete b t id s).0 ≢ ok tt → (delete b t id s).1 ≡ s
  unfolding delete
  delete_err id s h = update-ne-ok (b.delete s.db id) s h

  text_eq_of_ne : (i k : Text) → k ≢ i → text_eq i k ≡ false
  text_eq_of_ne i k n = elim (Bool-cases (text_eq i k)) [
    | inl same ↦ absurd (n (sym ((text_eq_iff i k).0 same)))
    | inr differ ↦ differ
  ]

  pub ok-cases : (r : Result (Unit {0})) → (r ≡ ok tt) ⊎ (r ≢ ok tt)
  ok-cases (ok tt) = inl refl
  ok-cases (err e) = inr cc
  ok-cases panic = inr cc
  ok-cases hung = inr cc

  pub get-put_ne :
      IsBucket b
      → (e : Environment) (s : Store B) (k : Text) → k ≢ e.id
      → (get b t k (put b t e s).2).0 ≡ (get b t k s).0
  get-put_ne laws e s k n = elim (ok-cases (put b t e s).0) [
    | inl done ↦ rw (get-put laws e s k done, text_eq_of_ne e.id k n)
    | inr failed ↦ rw (put_err e s failed)
  ]

  -- The BoltDB store is a state client: a put changes nothing but the stamp, a read gives what was last
  -- put, up to its stamp, a put changes no other key, and a put that fails changes nothing.
  pub client-IsStateClient : IsBucket b → IsStateClient (client b t)
  unfolding client
  client-IsStateClient laws = record {
    stamps = λ e s. unfold put in refl;
    get-put = λ e s h. (stamp b t e s, rw (get-put laws e s e.id h, text_eq_refl) refl, refl);
    get-put_ne = get-put_ne laws;
    get-put_err = λ e s k h. rw (put_err e s h);
    get_keeps = λ k s. unfold get in refl;
  }
