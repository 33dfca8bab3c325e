-- ===== src/Go.antt =====
-- What the Go code uses of errors and of HTTP replies: `fmt.Errorf` with %w, `errors.Is`,
-- `errors.As`, a panic as a third outcome, status codes and bodies.
pub mod Format
pub mod FilePath
use env_forge.Prelude.{Bool, true, false, ◌++◌, Text, lit}

pub data Error : Type 0 where
  -- environment.ErrNotFound
  not_found : Error
  -- *rdstypes.DBInstanceNotFoundFault, with its message
  db_not_found : Text → Error
  -- an error for which `errors.Is(err, os.ErrNotExist)` holds
  not_exist : Text → Error
  -- any other error
  other : Text → Error
  -- fmt.Errorf("context: %w", err)
  wrap : Text → Error → Error

-- err.Error()
unfoldable pub message : Error → Text
message not_found = lit "environment not found"
message (db_not_found m) = m
message (not_exist m) = m
message (other m) = m
message (wrap context e) = context ++ lit ": " ++ message e

-- errors.Is(err, environment.ErrNotFound)
unfoldable pub is_not_found : Error → Bool
is_not_found not_found = true
is_not_found (wrap context e) = is_not_found e
is_not_found _ = false

-- errors.As(err, &notFound)
unfoldable pub is_db_not_found : Error → Bool
is_db_not_found (db_not_found m) = true
is_db_not_found (wrap context e) = is_db_not_found e
is_db_not_found _ = false

-- errors.Is(err, os.ErrNotExist)
unfoldable pub is_not_exist : Error → Bool
is_not_exist (not_exist m) = true
is_not_exist (wrap context e) = is_not_exist e
is_not_exist _ = false

-- What a call comes back with. A panic unwinds to `net/http`, which closes the connection. `hung`
-- is a loop that is still running after the rounds that the model gives it.
pub data Result {ℓ} (A : Type ℓ) : Type ℓ where
  ok : A → Result A
  err : Error → Result A
  panic : Result A
  hung : Result A

-- if err != nil { return fmt.Errorf("context: %w", err) }
abbrev pub wrapped {ℓ} : {A : Type ℓ} → Text → Result A → Result A
wrapped context (ok a) = ok a
wrapped context (err e) = err (wrap context e)
wrapped context panic = panic
wrapped context hung = hung
