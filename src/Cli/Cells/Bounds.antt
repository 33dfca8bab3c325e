-- ===== src/Cli/Cells/Bounds.antt =====
-- The widths of the cells, and the bounds of their slices.
use mathlib.Core.List.{append_assoc}
use env_forge.Prelude.{
  ◌≡◌, refl, sym, ap, ◌∙◌, ℕ, zero, suc, ◌+◌, ◌-◌, ◌≤◌, ◌<◌, ltb, length, if◌then◌else◌, ℤ, int_eq,
  pos, Bool-cases, ◌⊎◌, inl, inr, [], ◌∷◌, ◌++◌, Option, none, some, Text, lit, slice_to, arith,
}
use env_forge.Go.Format.{signed}
use env_forge.Conductor.{StepExecution}
use env_forge.Cli.Cells.{slice_from, cut_end, cut_start, shorten_spiffe, detailed, error_cell}

length-append : (s t : Text) → length (s ++ t) ≡ length s + length t
length-append [] t = omega arith
length-append (c ∷ s) t = let e = length-append s t in omega arith

slice_to-some :
    (s : Text) (n : ℕ)
    → n ≤ length s
    → (t : Text) × (rest : Text) × (slice_to s n ≡ some t) × (s ≡ t ++ rest) × (length t ≡ n)
unfolding slice_to
slice_to-some s zero h = ([], s, refl, refl, refl)
slice_to-some [] (suc n) h = absurd (omega arith)
slice_to-some (c ∷ s) (suc n) h =
    let (t, rest, cut, whole, size) = slice_to-some s n (omega arith) in
    (c ∷ t, rest, rw cut refl, ap (λ u. c ∷ u) whole, omega arith)

slice_from-some :
    (s : Text) (n : ℕ)
    → n ≤ length s
    → (front : Text) × (t : Text) × (slice_from s n ≡ some t)
      × (s ≡ front ++ t)
      × (length front ≡ n)
unfolding slice_from
slice_from-some s zero h = ([], s, refl, refl, refl)
slice_from-some [] (suc n) h = absurd (omega arith)
slice_from-some (c ∷ s) (suc n) h =
    let (front, t, cut, whole, size) = slice_from-some s n (omega arith) in
    (c ∷ front, t, cut, ap (λ u. c ∷ u) whole, omega arith)

length-eq : (s t u : Text) → s ≡ t ++ u → length s ≡ length t + length u
length-eq s t u e = ap length e ∙ length-append t u

cut_end-some :
    (width : ℕ) (s : Text)
    → 3 ≤ width
    → (t : Text) × (cut_end width s ≡ some t) × (length t ≤ width)
unfolding cut_end lit
cut_end-some width s h = elim (Bool-cases (ltb width (length s))) [
  | inl long ↦
      let (t, rest, cut, whole, size) = slice_to-some s (width - 3) (ground arith) in
      let e = length-append t (lit "...") in (t ++ lit "...", rw long (rw cut refl), omega arith)
  | inr short ↦ (s, rw short refl, ground arith)
]

-- at most 40 bytes: an end of the id, or three dots and an end of it
pub record IsShortOf (id t : Text) : Type 0 where
  pub fits : length t ≤ 40
  pub front : Text
  pub rest : Text
  pub whole : id ≡ front ++ rest
  pub shown : (t ≡ rest) ⊎ (t ≡ lit "..." ++ rest)

cut_start-some : (id : Text) → (t : Text) × (cut_start id ≡ some t) × IsShortOf id t
unfolding cut_start lit
cut_start-some id = elim (Bool-cases (ltb 40 (length id))) [
  | inl long ↦
      let (front, t, cut, whole, size) = slice_from-some id (length id - 37) (ground arith) in
      let e = length-eq id front t whole in
      let over : 40 < length id = ground arith in
      (
        lit "..." ++ t,
        rw long (rw cut refl),
        record { fits = omega arith; front = front; rest = t; whole = whole; shown = inr refl },
      )
  | inr short ↦ (
    id,
    rw short refl,
    record { fits = ground arith; front = []; rest = id; whole = refl; shown = inl refl },
  )
]

-- shortenSPIFFE does not panic: it returns, for each text, one of at most 40 bytes that is an end of
-- it, or three dots and an end of it.
pub shorten_spiffe-IsShortOf :
    (id : Text) → (t : Text) × (shorten_spiffe id ≡ some t) × IsShortOf id t
unfolding shorten_spiffe lit
shorten_spiffe-IsShortOf id = elim (Bool-cases (ltb 9 (length id))) [
  | inl long ↦
      let (front, rest, cut, whole, size) = slice_from-some id 9 (ground arith) in
      let (t, same, k) = cut_start-some rest in
      (
        t,
        rw long (rw cut same),
        record {
          fits = k.fits;
          front = front ++ k.front;
          rest = k.rest;
          shown = k.shown;
          whole = whole ∙ ap (λ u. front ++ u) k.whole ∙ sym (append_assoc front k.front k.rest);
        },
      )
  | inr short ↦ let (t, same, k) = cut_start-some id in (t, rw short same, k)
]

-- the width of the cell ERROR of a step
abbrev pub cell_width : Option (ℤ × Text) → ℕ
cell_width none = 60
cell_width (some (code, body)) = if int_eq code (pos 0) then 60 else 47 + length (signed code)

detailed-some :
    (msg : Text) (detail : Option (ℤ × Text))
    → length msg ≤ 60
    → (t : Text) × (detailed (some msg) detail ≡ some t) × (length t ≤ cell_width detail)
unfolding lit
detailed-some msg none h = (msg, refl, h)
detailed-some msg (some (code, body)) h = elim (Bool-cases (int_eq code (pos 0))) [
  | inl zero_code ↦ (msg, rw zero_code refl, rw zero_code h)
  | inr coded ↦
      let (t, same, k) = cut_end-some 40 body (omega arith) in
      let e = length-append (signed code) (lit ": " ++ t) in
      (
        lit "HTTP " ++ (signed code ++ (lit ": " ++ t)),
        rw coded
            (rw same (ap (λ u. some (lit "HTTP " ++ u)) (append_assoc (signed code) (lit ": ") t))),
        rw coded (omega arith),
      )
]

-- printSagaSteps does not panic on a step's error: the cell that it prints has at most 60 bytes, and
-- at most 47 and the digits of the status where the step has the detail of an HTTP error.
pub error_cell-width :
    (st : StepExecution)
    → (t : Text) × (error_cell st ≡ some t) × (length t ≤ cell_width st.error_detail)
unfolding error_cell
error_cell-width st =
    let (msg, same, h) = cut_end-some 60 st.error (omega arith) in
    let (t, shown, k) = detailed-some msg st.error_detail h in (t, rw same shown, k)
