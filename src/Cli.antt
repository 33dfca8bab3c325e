-- ===== src/Cli.antt =====
-- cmd/forge/main.go: the command line client. A command talks to forge-api or forge-worker over
-- HTTP, writes to the standard output, and comes back with an error that ends the process with 1.
-- Parsing the command line is cobra's. An error of closing a body is only logged by the code, and
-- left out.
pub mod Table
pub mod Cells
pub mod Envs
pub mod Sagas
pub mod Admin
pub mod Main
pub mod Requests
use env_forge.Prelude.{
  ◌==◌, ℕ, ℤ, Bool, true, false, List, [], ◌∷◌, ◌++◌, Option, none, some, Text, lit, is_empty,
}
use env_forge.Environment.{Environment}
use env_forge.Go.{Error, other, Result, ok, err, panic, hung, message, wrapped}
use env_forge.Go.Format.{decimal}
use env_forge.Cloud.{PolicyEntry, RevokedToken}
use env_forge.Conductor.{SagaStatus, SagaExecution}
use env_forge.Api.{CreateRequest}
use env_forge.Worker.Proxy.{RevokeRequest}

pub data Method : Type 0 where
  get post : Method

-- The JSON of a request's body: that of create and that of tokens revoke, whose maps have the keys of
-- the structs that the servers decode. A Content-Type goes with it.
pub data Payload : Type 0 where
  creation : CreateRequest → Payload
  revocation : RevokeRequest → Payload

pub record Request : Type 0 where
  pub method : Method
  pub url : Text
  pub body : Option Payload

-- a response whose body is still to be read
pub record Reply (R : Type 0) : Type 0 where
  pub status_code : ℕ
  pub body : R

-- net/http, what it does given the requests sent before: NewRequestWithContext, Client.Do, and
-- whether a signal has ended the context by the time of the next poll
pub record Net (R : Type 0) : Type 0 where
  pub new_request : Method → Text → Result (Unit {0})
  pub send : List Request → Request → Result (Reply R)
  pub is_done : List Request → Bool

-- the UTF-8 of the em dash of the messages
abbrev pub dash : Text
dash = 226 ∷ 128 ∷ 148 ∷ []

-- io.ReadAll, and decoding a body as JSON into a zeroed variable; a null element of a list is `none`
pub record Reader (R : Type 0) : Type 0 where
  pub read_all : R → Result Text
  pub env_id : R → Result Text
  pub env : R → Result Environment
  pub envs : R → Result (List (Option Environment))
  pub saga : R → Result SagaExecution
  pub sagas : R → Result (List (Option SagaExecution) × Text)
  pub policies : R → Result (List PolicyEntry)
  pub tokens : R → Result (List RevokedToken)

-- what package time, the saga's enumeration and strings.TrimSpace give as text, and what a
-- tabwriter answers to a write and to Flush, given the rows that were written before
pub record Printer : Type 0 where
  pub rfc3339 : ℕ → Text
  pub unix_rfc3339 : ℤ → Text
  pub unix_clock : ℤ → Text
  pub now_clock : List Request → Text
  pub saga_status : SagaStatus → Text
  pub trim_space : Text → Text
  pub write : List Text → Text → Option Error
  pub flush : List Text → Result (Unit {0})

-- what a command hands to the standard output: a formatted text, or the rows of a table
pub data Output : Type 0 where
  printed : Text → Output
  tabbed : List Text → Output

pub record Run : Type 0 where
  pub sent : List Request
  pub out : List Output

abbrev pub Command : Type 0 → Type 0
Command A = Run → Result A × Run

module _ {A B : Type 0} where
  abbrev pub continue : Result A → (A → Command B) → Command B
  continue (ok a) f s = f a s
  continue (err e) f s = (err e, s)
  continue panic f s = (panic, s)
  continue hung f s = (hung, s)

  infixl 10 ◌>>=◌
  unfoldable pub ◌>>=◌ : Command A → (A → Command B) → Command B
  ◌>>=◌ m f s = continue (m s).0 f (m s).1

infixl 10 ◌>>◌
unfoldable pub ◌>>◌ : {B : Type 0} → Command (Unit {0}) → Command B → Command B
m >> k = m >>= λ _. k

module _ {A : Type 0} where
  -- a result that needs no request and no output
  unfoldable pub lift : Result A → Command A
  lift r s = (r, s)

  -- if err != nil { return fmt.Errorf("context: %w", err) }
  unfoldable pub context : Text → Command A → Command A
  context what m s = (wrapped what (m s).0, (m s).1)

  -- a command that looks at what was sent
  unfoldable pub now : (Run → Command A) → Command A
  now m s = m s s

  abbrev pub or_panic : Option A → Result A
  or_panic none = panic
  or_panic (some a) = ok a

  unfoldable pub choose : Bool → Command A → Command A → Command A
  choose true m n = m
  choose false m n = n

-- a command that goes on whatever another came back with
unfoldable pub examine : {A B : Type 0} → Command A → (Result A → Command B) → Command B
examine m f s = f (m s).0 (m s).1

unfoldable pub fail : {A : Type 0} → Text → Command A
fail why = lift (err (other why))

-- fmt.Printf
unfoldable pub print : Text → Command (Unit {0})
print t s = (ok tt, record s { out = s.out ++ printed t ∷ [] })

module _ {R : Type 0} (net : Net R) where
  -- http.DefaultClient.Do
  unfoldable pub transmit : Request → Command (Reply R)
  transmit req s = (net.send s.sent req, record s { sent = s.sent ++ req ∷ [] })

  unfoldable pub do_get : Text → Command (Reply R)
  do_get url = do
    context (lit "build GET request") (lift (net.new_request get url))
    transmit (record { method = get; url = url; body = none })

  unfoldable pub do_post : Text → Option Payload → Command (Reply R)
  do_post url body = do
    context (lit "build POST request") (lift (net.new_request post url))
    transmit (record { method = post; url = url; body = body })

-- "create failed (%d): %s", with the body of a reply that is no success
abbrev pub refused_with : {A : Type 0} → Printer → Text → Result Text → Command A
refused_with p what (ok body) = fail (what ++ p.trim_space body)
refused_with p what (err e) = fail (what ++ lit "(could not read body: " ++ message e ++ lit ")")
refused_with p what panic = lift panic
refused_with p what hung = lift hung

unfoldable pub refused : {R A : Type 0} → Reader R → Printer → Text → Reply R → Command A
refused reader p what resp =
    refused_with p (what ++ lit " failed (" ++ decimal resp.status_code ++ lit "): ")
      (reader.read_all resp.body)
