-- ===== src/Start/Api/Verifier.antt =====
-- When forge-api runs without validating tokens.
use env_forge.Prelude.{
  ◌≡◌, ◌↔◌, refl, ℕ, zero, suc, ◌+◌, ◌<◌, true, false, Bool-cases, Option, none, some, Option-cases,
  ◌⊎◌, inl, inr, Text, is_empty, arith,
}
use env_forge.Go.{Result, ok}
use env_forge.Start.Api.{Libraries, try_verifier, build_verifier}

-- attempts that all fail, with no signal in between
abbrev pub Fail : {V : Type 0} → Libraries V → Text → ℕ → ℕ → Type 0
Fail libs url first count =
    (i : ℕ)
    → i < count
    → (libs.new_verifier url (first + i) ≡ none) × (libs.is_done (first + i) ≡ false)

not_some : {V : Type 0} (v : V) → ◌≡◌ {A = Result (Option V)} (ok (some v)) (ok none) → ⊥
not_some v h = cc h

module _ {V : Type 0} (libs : Libraries V) where
  Fail-suc :
      (url : Text) (first left : ℕ)
      → libs.new_verifier url first ≡ none
      → libs.is_done first ≡ false
      → Fail libs url (suc first) left
      → Fail libs url first (suc left)
  Fail-suc url first left failed live rest zero h =
      let e : first + 0 ≡ first = omega arith in rw e (failed, live)
  Fail-suc url first left failed live rest (suc i) h =
      let e : first + suc i ≡ suc first + i = omega arith in rw e (rest i (omega arith))

  Fail-rest :
      (url : Text) (first left : ℕ)
      → Fail libs url first (suc left)
      → Fail libs url (suc first) left
  Fail-rest url first left all i h =
      let e : suc first + i ≡ first + suc i = omega arith in rw e (all (suc i) (omega arith))

  try_verifier-none :
      (url : Text) (left first : ℕ)
      → (try_verifier libs url left first ≡ ok none) ↔ Fail libs url first left
  unfolding try_verifier
  try_verifier-none url zero first = (λ h i less. absurd (omega arith), λ h. refl)
  try_verifier-none url (suc left) first =
      let (to, from) = try_verifier-none url left (suc first) in
      elim (Option-cases (libs.new_verifier url first)) [
        | inr (v, got) ↦ (
          λ h. absurd (not_some v (rw got at h)),
          λ h.
              let zeroth : first + 0 ≡ first = omega arith in
              absurd (cc (got, rw zeroth at (h 0 (omega arith)).0)),
        )
        | inl failed ↦ elim (Bool-cases (libs.is_done first)) [
          | inl done ↦ (
            λ h. absurd (cc (rw (failed, done) at h)),
            λ h.
                let zeroth : first + 0 ≡ first = omega arith in
                absurd (cc (done, rw zeroth at (h 0 (omega arith)).1)),
          )
          | inr live ↦ (
            λ h. Fail-suc url first left failed live (to (rw (failed, live) at h)),
            λ h. rw (failed, live) (from (Fail-rest url first left h)),
          )
        ]
      ]

  -- The start of forge-api ends up without a verifier, and without an error, exactly if no URL of the
  -- keys is set, or the ten attempts to fetch them all fail and no signal comes in between.
  pub build_verifier-none :
      (url : Text)
      → (build_verifier libs url ≡ ok none) ↔ ((is_empty url ≡ true) ⊎ Fail libs url 1 10)
  unfolding build_verifier
  build_verifier-none url = elim (Bool-cases (is_empty url)) [
    | inl blank ↦ (λ h. inl blank, λ h. rw blank refl)
    | inr full ↦ (
      λ h. inr ((try_verifier-none url 10 1).0 (rw full at h)),
      λ h. elim h [
        | inl blank ↦ absurd (cc (blank, full))
        | inr all ↦ rw full ((try_verifier-none url 10 1).1 all)
      ],
    )
  ]
