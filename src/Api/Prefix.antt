-- ===== src/Api/Prefix.antt =====
-- Looking an environment up by a prefix of its id.
use mathlib.Core.List.{Memᴰ}
use mathlib.Core.List.Memᴰ
use mathlib.Core.Option
use env_forge.Prelude.{
  ◌≡◌, ◌↔◌, ◌⊎◌, ◌&&◌, zero, suc, refl, ℕ, ◌≤◌, length, Bool, true, false, Bool-cases, inl, inr,
  List, [], ◌∷◌, ◌++◌, Option, some, none, Text, text_eq_iff, text_eq_refl, slice_to, arith, ap,
  sym, ◌∙◌,
}
use env_forge.Environment.{Environment}
use env_forge.Environment.Json.{TimeText}
use env_forge.Environment.Store
use env_forge.Environment.Store.{Bucket, IsBucket, Store}
use env_forge.Environment.Store.Listing.{mem-list_iff}
use env_forge.Go.{Result, ok, err, not_found}
use env_forge.Api.{has_prefix, opt_eq, first_with_prefix, find_by_prefix}

-- the test of findByPrefix: the id continues the prefix
slice_to-append : (s t : Text) → slice_to (s ++ t) (length s) ≡ some s
unfolding slice_to
slice_to-append [] t = refl
slice_to-append (c ∷ s) t = rw (slice_to-append s t) refl

length-le : (s t : Text) → length s ≤ length (s ++ t)
length-le [] t = omega arith
length-le (c ∷ s) t = omega (arith, length-le s t)

has_prefix-append : (s t : Text) → has_prefix (s ++ t) s ≡ true
unfolding has_prefix
has_prefix-append s t = rw slice_to-append (ground (arith, length-le s t, text_eq_refl s))

cons-append-lem :
    (c : ℕ) (s : Text) (o : Option Text) (p : Text)
    → Option.map (λ t. c ∷ t) o ≡ some p
    → (q : Text) × (o ≡ some q) × (p ≡ c ∷ q)
cons-append-lem c s none p h = cc
cons-append-lem c s (some q) p h = (q, refl, cc)

slice_to-eq-some : (s : Text) (n : ℕ) (p : Text) → slice_to s n ≡ some p → (t : Text) × (s ≡ p ++ t)
unfolding slice_to
slice_to-eq-some s zero p h = let p_is_nil : [] ≡ p = cc in (s, ap (λ q. q ++ s) p_is_nil)
slice_to-eq-some [] (suc n) p h = cc
slice_to-eq-some (c ∷ s) (suc n) p h =
    let (q, cut, front) = cons-append-lem c s (slice_to s n) p h in
    let (t, e) = slice_to-eq-some s n q cut in (t, rw front (ap (λ u. c ∷ u) e))

opt_eq-eq-true : (o : Option Text) (p : Text) → opt_eq o p ≡ true → o ≡ some p
opt_eq-eq-true none p h = cc
opt_eq-eq-true (some s) p h = ap some ((text_eq_iff s p).0 h)

-- the id is the prefix and something after it
abbrev pub Continues : Text → Text → Type 0
Continues prefix id = (rest : Text) × (id ≡ prefix ++ rest)

and_right : (x y : Bool) → (x && y) ≡ true → y ≡ true
and_right x y h = ground arith

pub has_prefix_iff : (id prefix : Text) → (has_prefix id prefix ≡ true) ↔ Continues prefix id
unfolding has_prefix
has_prefix_iff id prefix = (
  λ h. slice_to-eq-some id (length prefix) prefix (opt_eq-eq-true _ prefix (and_right _ _ h)),
  λ (rest, e). rw e (unfold has_prefix in has_prefix-append prefix rest),
)

mem-cases :
    {P : Type 0} {e x : Environment} {envs : List Environment}
    → Memᴰ e (x ∷ envs)
    → (e ≡ x → P)
    → (Memᴰ e envs → P)
    → P
mem-cases (Memᴰ.head same) f g = f same
mem-cases (Memᴰ.tail m) f g = g m

-- of a prefix search over a list: what is found, and that nothing was there
first_with_prefix-eq-ok :
    (prefix : Text) (envs : List Environment) (e : Environment)
    → first_with_prefix prefix envs ≡ ok e
    → Memᴰ e envs × (has_prefix e.id prefix ≡ true)
unfolding first_with_prefix
first_with_prefix-eq-ok prefix [] e h = cc
first_with_prefix-eq-ok prefix (x ∷ envs) e h = elim (Bool-cases (has_prefix x.id prefix)) [
  | inl here ↦
      let x_is_e : x ≡ e = cc (rw here at h) in
      (Memᴰ.head (sym x_is_e), ap (λ y. has_prefix y.id prefix) (sym x_is_e) ∙ here)
  | inr not_here ↦
      let (m, q) = first_with_prefix-eq-ok prefix envs e (rw not_here at h) in (Memᴰ.tail m, q)
]

first_with_prefix-eq-not_found :
    (prefix : Text) (envs : List Environment)
    → first_with_prefix prefix envs ≡ err not_found
    → (e : Environment) → Memᴰ e envs
    → has_prefix e.id prefix ≡ false
unfolding first_with_prefix
first_with_prefix-eq-not_found prefix [] h e m = absurd (Memᴰ.not-nil m)
first_with_prefix-eq-not_found prefix (x ∷ envs) h e m =
    elim (Bool-cases (has_prefix x.id prefix)) [
      | inl here ↦ cc (rw here at h)
      | inr not_here ↦
          mem-cases m (λ same. ap (λ y. has_prefix y.id prefix) same ∙ not_here)
            (first_with_prefix-eq-not_found prefix envs (rw not_here at h) e)
    ]

first_with_prefix-total :
    (prefix : Text) (envs : List Environment)
    → (first_with_prefix prefix envs ≡ err not_found)
      ⊎ ((e : Environment) × (first_with_prefix prefix envs ≡ ok e))
unfolding first_with_prefix
first_with_prefix-total prefix [] = inl refl
first_with_prefix-total prefix (x ∷ envs) = elim (Bool-cases (has_prefix x.id prefix)) [
  | inl here ↦ inr (x, rw here)
  | inr not_here ↦ rw not_here (first_with_prefix-total prefix envs)
]

module _ {B : Type 0} (b : Bucket B) (t : TimeText) where
  -- An environment that is found by a prefix is stored, and its id begins with the prefix.
  found-is_stored :
      IsBucket b
      → (prefix : Text) (s : Store B) (envs : List Environment) (e : Environment)
      → Store.list b t [] s ≡ ok envs
      → find_by_prefix b t prefix s ≡ ok e
      → Continues prefix e.id × ((k : Text) × ((Store.get b t k s).0 ≡ ok e))
  unfolding find_by_prefix
  found-is_stored laws prefix s envs e listed h =
      let (m, q) = first_with_prefix-eq-ok prefix envs e (rw listed at h) in
      let (k, g, w) = (mem-list_iff b t laws [] s envs e listed).0 m in
      ((has_prefix_iff e.id prefix).0 q, (k, g))

  none-is_stored :
      IsBucket b
      → (prefix : Text) (s : Store B) (envs : List Environment) → Store.list b t [] s ≡ ok envs
      → find_by_prefix b t prefix s ≡ err not_found
      → (k : Text) (e : Environment) → (Store.get b t k s).0 ≡ ok e
      → ¬ Continues prefix e.id
  unfolding find_by_prefix
  none-is_stored laws prefix s envs listed h k e g c =
      let m = (mem-list_iff b t laws [] s envs e listed).1 (k, g, inl refl) in
      let absent = first_with_prefix-eq-not_found prefix envs (rw listed at h) e m in
      cc (absent, (has_prefix_iff e.id prefix).1 c)

  search_listed :
      (prefix : Text) (s : Store B) (envs : List Environment) (r : Result Environment)
      → Store.list b t [] s ≡ ok envs
      → first_with_prefix prefix envs ≡ r
      → find_by_prefix b t prefix s ≡ r
  unfolding find_by_prefix
  search_listed prefix s envs r listed h = rw listed h

  -- If every stored environment can be read, then a search by a prefix either finds an environment
  -- that is stored and whose id begins with the prefix, or says that there is none, and then no
  -- stored environment's id begins with it.
  pub find_by_prefix_lem :
      IsBucket b
      → (prefix : Text) (s : Store B) (envs : List Environment) → Store.list b t [] s ≡ ok envs
      → ((e : Environment) × (find_by_prefix b t prefix s ≡ ok e)
          × Continues prefix e.id
          × ((k : Text) × ((Store.get b t k s).0 ≡ ok e)))
        ⊎ ((find_by_prefix b t prefix s ≡ err not_found)
            × ((k : Text) (e : Environment)
                → (Store.get b t k s).0 ≡ ok e
                → ¬ Continues prefix e.id))
  find_by_prefix_lem laws prefix s envs listed = elim (first_with_prefix-total prefix envs) [
    | inl absent ↦
        let h : find_by_prefix b t prefix s ≡ err not_found =
          search_listed prefix s envs _ listed absent in
        inr (h, none-is_stored laws prefix s envs listed h)
    | inr (e, found) ↦
        let h : find_by_prefix b t prefix s ≡ ok e = search_listed prefix s envs _ listed found in
        let (c, k) = found-is_stored laws prefix s envs e listed h in inl (e, h, c, k)
  ]
