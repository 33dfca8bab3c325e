-- ===== src/Environment/Store/Listing.antt =====
-- What List returns, against what Get gives.
use mathlib.Core.List.{Memᴰ}
use mathlib.Core.List.Memᴰ
use mathlib.Core.Path.{subst}
use env_forge.Prelude.{
  ◌≡◌, refl, sym, ap, ◌∙◌, ◌↔◌, ◌⊎◌, if◌then◌else◌, Bool, true, false, List, [], ◌∷◌, Option, none,
  some, Option-cases, inl, inr, Text, arith, text_eq_iff,
}
use env_forge.Environment.{Environment}
use env_forge.Environment.Json.{Json, TimeText, unmarshal}
use env_forge.Go.{Result, ok, err, panic, hung}
use env_forge.Environment.Store.{Bucket, IsBucket, Store, read, get, prepend, wanted, collect, list}

prepend-eq-ok :
    (keep : Bool) (e : Environment) (r : Result (List Environment)) (l : List Environment)
    → prepend keep e r ≡ ok l
    → (rest : List Environment) × (r ≡ ok rest) × (l ≡ (if keep then e ∷ rest else rest))
prepend-eq-ok keep e (ok rest) l h = (rest, refl, ground arith)
prepend-eq-ok keep e (err x) l h = cc
prepend-eq-ok keep e panic l h = cc
prepend-eq-ok keep e hung l h = cc

mem-if :
    (keep : Bool) (x e : Environment) (rest : List Environment)
    → Memᴰ x (if keep then e ∷ rest else rest)
    → ((keep ≡ true) × (x ≡ e)) ⊎ Memᴰ x rest
mem-if true x e rest (Memᴰ.head same) = inl (refl, same)
mem-if true x e rest (Memᴰ.tail m) = inr m
mem-if false x e rest m = inr m

mem-if_tail :
    (keep : Bool) (x e : Environment) (rest : List Environment)
    → Memᴰ x rest
    → Memᴰ x (if keep then e ∷ rest else rest)
mem-if_tail true x e rest m = Memᴰ.tail m
mem-if_tail false x e rest m = m

module _ {B : Type 0} (b : Bucket B) (t : TimeText) where
  abbrev Entries : Type 0
  Entries = List (Text × Json)

  -- the rest of the loop, when its first value can be read
  collect-cons :
      (filter k : Text) (v : Json) (es : Entries) (l : List Environment)
      → collect b t filter ((k, v) ∷ es) ≡ ok l
      → (e : Environment) × (rest : List Environment) × (unmarshal t v ≡ some e)
        × (collect b t filter es ≡ ok rest)
        × (l ≡ (if wanted filter e then e ∷ rest else rest))
  unfolding collect
  collect-cons filter k v es l h = elim (Option-cases (unmarshal t v)) [
    | inl failed ↦ cc (rw (failed, collect) at h)
    | inr (e, p) ↦
        let (rest, q, r) =
          prepend-eq-ok (wanted filter e) e (collect b t filter es) l (rw (p, collect) at h) in
        (e, rest, p, q, r)
  ]

  -- a value among the entries is read as `x`, which passes the filter
  abbrev Found : Text → Entries → Environment → Type 0
  Found filter es x =
      (k : Text) × (v : Json) × Memᴰ (k, v) es × (unmarshal t v ≡ some x) × (wanted filter x ≡ true)

  nil_of_ok : (l : List Environment) → ◌≡◌ {A = Result (List Environment)} (ok []) (ok l) → l ≡ []
  nil_of_ok l h = cc

  -- what is found was stored, and passes the filter
  collect_sound :
      (filter : Text) (es : Entries) (l : List Environment) (x : Environment)
      → collect b t filter es ≡ ok l
      → Memᴰ x l
      → Found filter es x
  unfolding collect
  collect_sound filter [] l x h m = absurd (Memᴰ.not-nil (subst (Memᴰ x) (nil_of_ok l h) m))
  collect_sound filter ((k, v) ∷ es) l x h m =
      let (e, rest, p, q, r) = collect-cons filter k v es l h in
      elim (mem-if (wanted filter e) x e rest (subst (Memᴰ x) r m)) [
        | inl (w, same) ↦
            (k, v, Memᴰ.head refl, p ∙ ap some (sym same), ap (wanted filter) same ∙ w)
        | inr later ↦ found_later (collect_sound filter es rest x q later)
      ]
    where
      found_later : Found filter es x → Found filter ((k, v) ∷ es) x
      found_later (j, u, n, p, w) = (j, u, Memᴰ.tail n, p, w)

  collect_complete :
      (filter : Text) (es : Entries) (l : List Environment) (x : Environment) (k : Text) (v : Json)
      → collect b t filter es ≡ ok l
      → Memᴰ (k, v) es
      → unmarshal t v ≡ some x
      → wanted filter x ≡ true
      → Memᴰ x l
  collect_complete filter [] l x k v h m p w = absurd (Memᴰ.not-nil m)
  collect_complete filter ((j, u) ∷ es) l x k v h (Memᴰ.head same) p w =
      let (e, rest, q, r, s) = collect-cons filter j u es l h in
      let e_is_x : e ≡ x = cc (ap (λ (entry : Text × Json). unmarshal t entry.1) same) in
      rw (s, e_is_x, w) (Memᴰ.head refl)
  collect_complete filter ((j, u) ∷ es) l x k v h (Memᴰ.tail m) p w =
      let (e, rest, q, r, s) = collect-cons filter j u es l h in
      rw s (mem-if_tail (wanted filter e) x e rest (collect_complete filter es rest x k v r m p w))

  read-eq-ok :
      (o : Option Json) (x : Environment)
      → read b t o ≡ ok x
      → (v : Json) × (o ≡ some v) × (unmarshal t v ≡ some x)
  read-eq-ok none x h = cc
  read-eq-ok (some v) x h = elim (Option-cases (unmarshal t v)) [
    | inl failed ↦ cc (rw failed at h)
    | inr (e, p) ↦ (v, refl, cc (rw p at h, p))
  ]

  wanted_iff :
      (filter : Text) (x : Environment)
      → (wanted filter x ≡ true) ↔ ((filter ≡ []) ⊎ (x.status ≡ filter))
  wanted_iff [] x = (λ h. inl refl, λ h. refl)
  wanted_iff (c ∷ filter) x = (
    λ h. inr ((text_eq_iff x.status (c ∷ filter)).0 h),
    λ h. elim h [
      | inl blank ↦ absurd (cc blank)
      | inr same ↦ (text_eq_iff x.status (c ∷ filter)).1 same
    ],
  )

  -- A List that succeeds returns an environment exactly if Get gives it for some id and it passes
  -- the filter: the filter is empty, or it is the environment's status.
  pub mem-list_iff :
      IsBucket b
      → (filter : Text) (s : Store B) (l : List Environment) (x : Environment)
      → list b t filter s ≡ ok l
      → Memᴰ x l ↔ ((k : Text) × ((get b t k s).0 ≡ ok x) × ((filter ≡ []) ⊎ (x.status ≡ filter)))
  unfolding list get
  mem-list_iff laws filter s l x h = (
    λ m.
        let (k, v, n, p, w) = collect_sound filter (b.entries s.db) l x h m in
        (k, rw (laws.stored s.db k v n, p), (wanted_iff filter x).0 w),
    λ (k, g, w).
        let (v, p, q) = read-eq-ok (b.get s.db k) x g in
        collect_complete filter (b.entries s.db) l x k v h (laws.listed s.db k v p) q
          ((wanted_iff filter x).1 w),
  )
