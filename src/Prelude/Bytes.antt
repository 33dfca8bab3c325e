-- ===== src/Prelude/Bytes.antt =====
-- Go strings: sequences of bytes. A literal of the source is `lit "..."` (all are ASCII).
use Prim.Native.Nat.{ℕ, zero, suc, ◌≤◌}
use Prim.Native.Char.{code}
use Prim.Native.String.{String}
use mathlib.Core.Path.{◌≡◌, refl, ap}
use mathlib.Core.Logic.{◌↔◌}
use mathlib.Core.Bool.{Bool, true, false, ◌&&◌}
use mathlib.Core.Option
use mathlib.Core.Option.{Option, none, some}
use mathlib.Core.List.{List, [], ◌∷◌}
use native.Mathlib.Omega.{arith}
use env_forge.Prelude.Tests.{◌==◌, length}

abbrev pub Text : Type 0
Text = List ℕ

abbrev pub codes : String → Text
codes String.[] = []
codes (String.◌∷◌ c s) = code c ∷ codes s

unfoldable pub lit : String → Text
lit s = codes s

-- s == ""
abbrev pub is_empty : Text → Bool
is_empty [] = true
is_empty (c ∷ s) = false

-- s == t
unfoldable pub text_eq : Text → Text → Bool
text_eq [] [] = true
text_eq (a ∷ s) (b ∷ t) = (a == b) && text_eq s t
text_eq _ _ = false

-- s[:n], where `none` is the panic of a slice out of range.
unfoldable pub slice_to : Text → ℕ → Option Text
slice_to s zero = some []
slice_to [] (suc n) = none
slice_to (c ∷ s) (suc n) = Option.map (λ t. c ∷ t) (slice_to s n)

pub text_eq_iff : (s t : Text) → (text_eq s t ≡ true) ↔ (s ≡ t)
unfolding text_eq
text_eq_iff [] [] = ground arith
text_eq_iff [] (b ∷ t) = ground arith
text_eq_iff (a ∷ s) [] = ground arith
text_eq_iff (a ∷ s) (b ∷ t) = ground (arith, text_eq_iff s t)

pub text_eq_refl : (s : Text) → text_eq s s ≡ true
text_eq_refl s = (text_eq_iff s s).1 refl

-- A slice within the length does not panic.
pub slice_to_total : (s : Text) (n : ℕ) → n ≤ length s → (t : Text) × (slice_to s n ≡ some t)
unfolding slice_to
slice_to_total s zero h = ([], refl)
slice_to_total [] (suc n) h = absurd (omega arith)
slice_to_total (c ∷ s) (suc n) h =
    let (t, e) = slice_to_total s n (omega arith) in (c ∷ t, ap (Option.map (λ t. c ∷ t)) e)
