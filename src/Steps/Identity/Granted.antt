-- ===== src/Steps/Identity/Granted.antt =====
-- What a successful verification of the policy has seen.
use mathlib.Core.List.{Memᴰ}
use env_forge.Prelude.{
  eq_of_int_eq, ◌≡◌, refl, Bool, true, false, not, Bool-cases, ◌⊎◌, inl, inr, List, [], ◌∷◌, Option,
  none, some, Text, lit, text_eq, text_eq_iff,
}
use env_forge.Go.{Error, ok}
use env_forge.Go.Format.{join}
use env_forge.Cloud.{PolicyRule, PolicyEntry}
use env_forge.Action.{Run, Action, choose, fail}
use env_forge.Steps.Identity.{want_scopes, want_max_ttl, check_rule, check_entry, verify}

-- what the loop asks of the rule with the name
pub record IsGranted (name : Text) (rule : PolicyRule) : Type 0 where
  pub named : rule.name ≡ name
  pub scopes : join rule.allowed_scopes (lit ",") ≡ join want_scopes (lit ",")
  pub max_ttl : rule.max_ttl ≡ want_max_ttl

module _ {D : Type 0} where
  choose-not-ok :
      (b : Bool) (e : Error) (n : Action D (Unit {0})) (s : Run D)
      → (choose (not b) (fail e) n s).0 ≡ ok tt
      → (b ≡ true) × ((n s).0 ≡ ok tt)
  unfolding choose fail
  choose-not-ok true e n s h = (refl, h)
  choose-not-ok false e n s h = cc h

  pub check_rule-ok :
      (name : Text) (rule : PolicyRule) (s : Run D)
      → rule.name ≡ name
      → (check_rule name rule s).0 ≡ ok tt
      → IsGranted name rule
  unfolding check_rule
  check_rule-ok name rule s same h =
      let (scopes, h') = choose-not-ok _ _ _ s h in
      let (ttl, h'') = choose-not-ok _ _ _ s h' in
      record {
        named = same;
        scopes = (text_eq_iff _ _).0 scopes;
        max_ttl = eq_of_int_eq rule.max_ttl want_max_ttl ttl;
      }

  check_entry-ok :
      (name : Text) (r : Option PolicyRule) (rest : Action D (Unit {0})) (s : Run D)
      → (check_entry name r rest s).0 ≡ ok tt
      → ((rule : PolicyRule) × (r ≡ some rule) × IsGranted name rule) ⊎ ((rest s).0 ≡ ok tt)
  unfolding choose
  check_entry-ok name none rest s h = inr h
  check_entry-ok name (some rule) rest s h = elim (Bool-cases (text_eq rule.name name)) [
    | inl same ↦
        inl (
          rule,
          refl,
          check_rule-ok name rule s ((text_eq_iff rule.name name).0 same) (rw same at h),
        )
    | inr differ ↦ inr (rw differ at h)
  ]

  -- If the verification of a policy succeeds, then ListPolicies returned an entry whose rule has the
  -- policy's name, the scopes read and write, joined by a comma, and 3600 as its max_ttl.
  pub verify-ok :
      (name : Text) (policies : List PolicyEntry) (s : Run D)
      → (verify name policies s).0 ≡ ok tt
      → (entry : PolicyEntry) × (rule : PolicyRule) × Memᴰ entry policies
        × (entry.rule ≡ some rule)
        × IsGranted name rule
  unfolding verify fail
  verify-ok name [] s h = cc h
  verify-ok name (entry ∷ entries) s h =
      elim (check_entry-ok name entry.rule (verify name entries) s h) [
        | inl (rule, r, good) ↦ (entry, rule, Memᴰ.head refl, r, good)
        | inr later ↦
            let (e, rule, m, r, good) = verify-ok name entries s later in
            (e, rule, Memᴰ.tail m, r, good)
      ]
