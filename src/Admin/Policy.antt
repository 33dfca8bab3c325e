-- ===== src/Admin/Policy.antt =====
-- The search of GetPolicy, against the verification loop of the identity step.
use mathlib.Core.Path.{subst}
use env_forge.Prelude.{
  ◌≡◌, ◌↔◌, refl, sym, ap, ◌∙◌, true, false, Bool-cases, inl, inr, List, [], ◌∷◌, Option, none,
  some, Text, text_eq_iff, text_eq_refl,
}
use env_forge.Go.{ok}
use env_forge.Cloud.{PolicyRule, PolicyEntry}
use env_forge.Action.{Run, Action, choose, fail, pure}
use env_forge.Steps.Identity.{check_rule, check_entry, verify}
use env_forge.Steps.Identity.Granted.{IsGranted, check_rule-ok}
use env_forge.Admin.{has_name, find_policy}

abbrev pub Granted : Text → List PolicyEntry → Type 0
Granted name policies =
    (p : PolicyEntry) × (rule : PolicyRule) × (find_policy name policies ≡ some p)
    × (p.rule ≡ some rule)
    × IsGranted name rule

module _ {D : Type 0} where
  check_rule-IsGranted :
      (name : Text) (rule : PolicyRule) (s : Run D)
      → IsGranted name rule
      → (check_rule name rule s).0 ≡ ok tt
  unfolding check_rule choose pure
  check_rule-IsGranted name rule s g = rw (g.scopes, text_eq_refl, g.max_ttl) refl

  -- whether the entry has the name decides both loops
  step_named :
      (name : Text) (r : Option PolicyRule) (rest : Action D (Unit {0})) (s : Run D)
      → has_name name r ≡ true
      → (rule : PolicyRule) × (r ≡ some rule)
        × (rule.name ≡ name)
        × ((check_entry name r rest s) ≡ (check_rule name rule s))
  unfolding choose
  step_named name none rest s h = cc h
  step_named name (some rule) rest s h = (rule, refl, (text_eq_iff rule.name name).0 h, rw h)

  step_other :
      (name : Text) (r : Option PolicyRule) (rest : Action D (Unit {0})) (s : Run D)
      → has_name name r ≡ false
      → (check_entry name r rest s) ≡ rest s
  unfolding choose
  step_other name none rest s h = refl
  step_other name (some rule) rest s h = rw h

  -- The verification of the identity step succeeds on the policies that ListPolicies returned exactly
  -- if the policy that GetPolicy would pick from them, the first of the name, has the scopes read and
  -- write, joined by a comma, and 3600 as its max_ttl.
  pub verify_iff :
      (name : Text) (policies : List PolicyEntry) (s : Run D)
      → ((verify name policies s).0 ≡ ok tt) ↔ Granted name policies
  unfolding verify find_policy fail
  verify_iff name [] s = (λ h. absurd (cc h), λ g. absurd (cc (g.2)))
  verify_iff name (p ∷ more) s = elim (Bool-cases (has_name name p.rule)) [
    | inl named ↦
        let (rule, r, same, e) = step_named name p.rule (verify name more) s named in
        (
          λ h. (
            p,
            rule,
            rw named refl,
            r,
            check_rule-ok name rule s same (sym (ap (λ x. x.0) e) ∙ h),
          ),
          λ (q, rule', found, r', g).
              let found' : ◌≡◌ {A = Option PolicyEntry} (some p) (some q) = rw named at found in
              let p_is_q : p ≡ q = cc found' in
              let agree : rule' ≡ rule = cc (sym r' ∙ ap (λ x. x.rule) (sym p_is_q) ∙ r) in
              ap (λ x. x.0) e ∙ check_rule-IsGranted name rule s (subst (IsGranted name) agree g),
        )
    | inr other ↦
        let e = step_other name p.rule (verify name more) s other in
        let (to, from) = verify_iff name more s in
        (
          λ h.
              let (q, rule, found, r, g) = to (sym (ap (λ x. x.0) e) ∙ h) in
              (q, rule, rw other found, r, g),
          λ (q, rule, found, r, g). ap (λ x. x.0) e ∙ from (q, rule, (rw other at found), r, g),
        )
  ]
