-- ===== src/Steps/Identity/Verify.antt =====
-- The verification loop of the identity step, and relations between states.
use env_forge.Prelude.{List, [], ◌∷◌, Option, none, some, Text}
use env_forge.Cloud.{PolicyRule, PolicyEntry}
use env_forge.Action.{Run, Action}
use env_forge.Action.Rules.{IsPreorder, Keeps, keeps_rules}
use env_forge.Steps.Identity.{check_rule, check_entry, verify}

module _ {D : Type 0} {R : Run D → Run D → Type 0} (p : IsPreorder R) where
  check_rule-Keeps : (name : Text) (rule : PolicyRule) → Keeps R (check_rule name rule)
  unfolding check_rule
  check_rule-Keeps name rule = search (keeps_rules, p) depth 12

  check_entry-Keeps :
      (name : Text) (rule : Option PolicyRule) (rest : Action D (Unit {0}))
      → Keeps R rest
      → Keeps R (check_entry name rule rest)
  check_entry-Keeps name none rest h = h
  check_entry-Keeps name (some rule) rest h = search (keeps_rules, p, check_rule-Keeps) depth 12

  pub verify-Keeps : (name : Text) (entries : List PolicyEntry) → Keeps R (verify name entries)
  unfolding verify
  verify-Keeps name [] = search (keeps_rules, p) depth 12
  verify-Keeps name (entry ∷ entries) =
      check_entry-Keeps name entry.rule _ (verify-Keeps name entries)
