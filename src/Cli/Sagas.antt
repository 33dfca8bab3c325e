-- ===== src/Cli/Sagas.antt =====
-- The commands sagas list and sagas abort of cmd/forge/main.go, and printSagaSteps.
use env_forge.Prelude.{
  ◌==◌, ℤ, pos, negsuc, zero, suc, ltb, length, if◌then◌else◌, Bool, true, false, not, List, [],
  ◌∷◌, ◌++◌, Option, none, some, Text, lit, is_empty, slice_to,
}
use env_forge.Go.{Result, ok, panic}
use env_forge.Go.Format.{signed}
use env_forge.Conductor.{StepExecution, SagaExecution}
use env_forge.Cli.{
  Net, Reader, Printer, Command, ◌>>=◌, ◌>>◌, lift, context, or_panic, choose, fail, print, do_get,
  do_post, refused, dash,
}
use env_forge.Cli.Cells.{error_cell}
use env_forge.Cli.Table.{Table, new_table, row, flush}

abbrev pub time_or_blank : (ℤ → Text) → Option ℤ → Text
time_or_blank format none = []
time_or_blank format (some seconds) = format seconds

module _ (p : Printer) where
  abbrev pub step_row : StepExecution → Text → Text
  step_row st msg =
      lit "  "
      ++ st.name
      ++ lit "\t"
      ++ st.status
      ++ lit "\t"
      ++ time_or_blank p.unix_clock st.started_at
      ++ lit "\t"
      ++ time_or_blank p.unix_clock st.completed_at
      ++ lit "\t"
      ++ msg
      ++ lit "\n"

  -- the loop of printSagaSteps
  unfoldable pub step_rows : List StepExecution → Table → Result Table
  step_rows [] t = ok t
  step_rows (st ∷ steps) t = elim (error_cell st) [
    | none ↦ panic
    | some msg ↦ step_rows steps (row p (step_row st msg) t)
  ]

  -- printSagaSteps
  unfoldable pub print_saga_steps : SagaExecution → Command (Unit {0})
  print_saga_steps exec = do
    t ←
        lift (
          step_rows exec.steps
            (row p (lit "  STEP\tSTATUS\tSTARTED\tCOMPLETED\tERROR\n") new_table))
    flush p t

  -- if len(id) > 8 { id = id[:8] }
  unfoldable pub short_or_whole : Text → Option Text
  short_or_whole id = if ltb 8 (length id) then slice_to id 8 else some id

  -- the loop of sagas list
  unfoldable pub saga_rows : List (Option SagaExecution) → Table → Result Table
  saga_rows [] t = ok t
  saga_rows (none ∷ sagas) t = panic
  saga_rows (some s ∷ sagas) t = elim (short_or_whole s.id) [
    | none ↦ panic
    | some id ↦ saga_rows sagas (
        row p
          (id
            ++ lit "\t"
            ++ p.saga_status s.status
            ++ lit "\t"
            ++ s.failed_step
            ++ lit "\t"
            ++ time_or_blank p.unix_rfc3339 s.created_at
            ++ lit "\n")
          t)
  ]

-- pageSize > 0
abbrev pub is_positive : ℤ → Bool
is_positive (pos zero) = false
is_positive (pos (suc n)) = true
is_positive (negsuc n) = false

-- what the flags of sagas list gave
pub record ListFlags : Type 0 where
  pub status : Text
  pub page_size : ℤ
  pub cursor : Text

-- a parameter of the query, if it is there, and the separator of the next one
abbrev pub with_param : Bool → Text → Text → Text × Text → Text × Text
with_param true name value (url, sep) = (url ++ sep ++ name ++ lit "=" ++ value, lit "&")
with_param false name value (url, sep) = (url, sep)

unfoldable pub sagas_url : Text → ListFlags → Text
sagas_url forge_url f =
    (with_param (not (is_empty f.cursor)) (lit "cursor") f.cursor (
      with_param (is_positive f.page_size) (lit "page_size") (signed f.page_size) (
        with_param (not (is_empty f.status)) (lit "status") f.status
          (forge_url ++ lit "/sagas", lit "?")))).0

module _ {R : Type 0} (net : Net R) (reader : Reader R) (p : Printer) (forge_url : Text) where
  -- sagas list
  unfoldable pub list : ListFlags → Command (Unit {0})
  list f = do
    resp ← context (lit "list sagas") (do_get net (sagas_url forge_url f))
    choose (resp.status_code == 503)
        (fail (lit "forge-api has no conductor connection (start with CONDUCTOR_ADDR set)"))
        (do
          result ← context (lit "decode response") (lift (reader.sagas resp.body))
          t ← lift (
              saga_rows p result.0
                (row p (lit "SAGA ID\tSTATUS\tFAILED STEP\tCREATED\n") new_table))
          flush p t
          choose (is_empty result.1) (lift (ok tt))
              (print (lit "\nNext page: --cursor=" ++ result.1 ++ lit "\n")))

  -- sagas abort
  unfoldable pub abort : Text → Command (Unit {0})
  abort arg = do
    resp ←
        context (lit "abort saga")
          (do_post net (forge_url ++ lit "/envs/" ++ arg ++ lit "/abort") none)
    choose (resp.status_code == 503) (fail (lit "forge-api has no conductor connection")) (
        choose (not (resp.status_code == 200)) (refused reader p (lit "abort") resp) (do
          exec ← context (lit "decode response") (lift (reader.saga resp.body))
          short ← lift (or_panic (slice_to exec.id 8))
          print (
              lit "Saga "
              ++ short
              ++ lit " aborted "
              ++ dash
              ++ lit " status: "
              ++ p.saga_status exec.status
              ++ lit "\n")))
