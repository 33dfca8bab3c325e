-- ===== src/Cli/Cells.antt =====
-- The cells of the tables of cmd/forge/main.go that are cut to a width: shortenSPIFFE, and the error
-- of a step in printSagaSteps. `none` is the panic of a slice out of range.
pub mod Bounds
use env_forge.Prelude.{
  ℕ, zero, suc, ◌-◌, ltb, if◌then◌else◌, length, ℤ, int_eq, pos, [], ◌∷◌, ◌++◌, Option, none, some,
  Text, lit, slice_to,
}
use env_forge.Go.Format.{signed}
use env_forge.Conductor.{StepExecution}

-- s[n:]
unfoldable pub slice_from : Text → ℕ → Option Text
slice_from s zero = some s
slice_from [] (suc n) = none
slice_from (c ∷ s) (suc n) = slice_from s n

abbrev pub before_ellipsis : Option Text → Option Text
before_ellipsis none = none
before_ellipsis (some s) = some (s ++ lit "...")

abbrev pub after_ellipsis : Option Text → Option Text
after_ellipsis none = none
after_ellipsis (some s) = some (lit "..." ++ s)

-- if len(s) > width { s = s[:width-3] + "..." }
unfoldable pub cut_end : ℕ → Text → Option Text
cut_end width s = if ltb width (length s) then before_ellipsis (slice_to s (width - 3)) else some s

-- if len(id) > 40 { id = "..." + id[len(id)-37:] }
unfoldable pub cut_start : Text → Option Text
cut_start id =
    if ltb 40 (length id) then after_ellipsis (slice_from id (length id - 37)) else some id

abbrev pub cut_rest : Option Text → Option Text
cut_rest none = none
cut_rest (some id) = cut_start id

-- shortenSPIFFE
unfoldable pub shorten_spiffe : Text → Option Text
shorten_spiffe id = cut_rest (
    if ltb (length (lit "spiffe://")) (length id)
    then slice_from id (length (lit "spiffe://"))
    else some id)

abbrev pub http_text : ℤ → Option Text → Option Text
http_text code none = none
http_text code (some body) = some (lit "HTTP " ++ signed code ++ lit ": " ++ body)

-- the part of printSagaSteps on ErrorDetail, over the text that st.Error gave
abbrev pub detailed : Option Text → Option (ℤ × Text) → Option Text
detailed none detail = none
detailed (some msg) none = some msg
detailed (some msg) (some (code, body)) =
    if int_eq code (pos 0) then some msg else http_text code (cut_end 40 body)

-- the cell ERROR of a step
unfoldable pub error_cell : StepExecution → Option Text
error_cell st = detailed (cut_end 60 st.error) st.error_detail
