-- ===== src/Go/Format.antt =====
-- What the code uses of fmt and strings to build texts. `%q` is modelled for text that needs no
-- escape.
use Prim.Native.Nat.{◌/◌, ◌%◌}
use env_forge.Prelude.{
  ℕ, zero, suc, ◌+◌, ltb, if◌then◌else◌, List, [], ◌∷◌, ◌++◌, Text, lit, ℤ, pos, negsuc,
}

-- fmt's %q
unfoldable pub quote : Text → Text
quote s = lit "\"" ++ s ++ lit "\""

-- The decimal digits of `n` in front of `tail`; as many rounds as `n` has digits are enough.
decimal_onto : ℕ → ℕ → Text → Text
decimal_onto zero n tail = tail
decimal_onto (suc fuel) n tail =
    let digit = b'0' + n % 10 in
    let more = decimal_onto fuel (n / 10) (digit ∷ tail) in if ltb n 10 then digit ∷ tail else more

-- fmt's %d
unfoldable pub decimal : ℕ → Text
unfolding decimal_onto
decimal n = decimal_onto (suc n) n []

-- fmt's %d of a signed integer
abbrev pub signed : ℤ → Text
signed (pos n) = decimal n
signed (negsuc n) = lit "-" ++ decimal (suc n)

-- strings.Join
unfoldable pub join : List Text → Text → Text
join [] sep = []
join (s ∷ []) sep = s
join (s ∷ t ∷ more) sep = s ++ sep ++ join (t ∷ more) sep
