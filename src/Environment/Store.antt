-- ===== src/Environment/Store.antt =====
-- internal/environment/store.go. bbolt is a parameter: a bucket of values by key, whose writes may
-- fail and then leave the bucket as it was. `now` is what time.Now reads.
pub mod Fits
pub mod History
pub mod Laws
pub mod Listing
pub mod Origins
use env_forge.Prelude.{
  ℕ, ◌≡◌, ◌↔◌, if◌then◌else◌, Bool, ◌||◌, List, [], ◌∷◌, Option, none, some, Text, lit, is_empty,
  text_eq,
}
use mathlib.Core.List.{Memᴰ}
use env_forge.Environment.{Environment}
use env_forge.Environment.Json.{Json, TimeText, marshal, unmarshal}
use env_forge.Go.{Error, not_found, other, wrap, Result, ok, err, panic, hung, wrapped}
use env_forge.Action.{StateClient}

-- a bucket of go.etcd.io/bbolt; ForEach goes over `entries`
pub record Bucket (B : Type 0) : Type 0 where
  pub get : B → Text → Option Json
  pub put : B → Text → Json → Result B
  pub delete : B → Text → Result B
  pub entries : B → List (Text × Json)

-- what bbolt documents: a read gives what was last written, and ForEach visits each key once
pub record IsBucket {B : Type 0} (b : Bucket B) : Type 0 where
  pub get-put :
      (db db' : B) (k j : Text) (v : Json)
      → b.put db k v ≡ ok db'
      → b.get db' j ≡ (if text_eq k j then some v else b.get db j)
  pub get-delete :
      (db db' : B) (k j : Text)
      → b.delete db k ≡ ok db'
      → b.get db' j ≡ (if text_eq k j then none else b.get db j)
  pub listed : (db : B) (k : Text) (v : Json) → b.get db k ≡ some v → Memᴰ (k, v) (b.entries db)
  pub stored : (db : B) (k : Text) (v : Json) → Memᴰ (k, v) (b.entries db) → b.get db k ≡ some v

pub record Store (B : Type 0) : Type 0 where
  pub db : B
  pub now : ℕ

-- the error of encoding/json, whose text is left out
abbrev pub json_error : Error
json_error = other (lit "json")

abbrev pub of_json {ℓ} : {A : Type ℓ} → Option A → Result A
of_json none = err json_error
of_json (some a) = ok a

abbrev pub prepend : Bool → Environment → Result (List Environment) → Result (List Environment)
prepend keep e (ok l) = ok (if keep then e ∷ l else l)
prepend keep e (err x) = err x
prepend keep e panic = panic
prepend keep e hung = hung

-- the test of the loop of List
abbrev pub wanted : Text → Environment → Bool
wanted filter e = is_empty filter || text_eq e.status filter

-- Open, by its error: from those of bolt.Open and of the transaction that creates the bucket
unfoldable pub open_store : Option Error → Option Error → Option Error
open_store (some e) bucket = some (wrap (lit "open bolt db") e)
open_store none (some e) = some (wrap (lit "create bucket") e)
open_store none none = none

-- OpenReadOnly, by its error: from that of bolt.Open
unfoldable pub open_read_only : Option Error → Option Error
open_read_only (some e) = some (wrap (lit "open bolt db (read-only)") e)
open_read_only none = none

module _ {B : Type 0} (b : Bucket B) (t : TimeText) where
  -- what is left of a write transaction
  abbrev pub update : Result B → Store B → Result (Unit {0}) × Store B
  update (ok db) s = (ok tt, record s { db = db })
  update (err e) s = (err e, s)
  update panic s = (panic, s)
  update hung s = (hung, s)

  abbrev pub save : Environment → Result Json → Store B → Result (Unit {0}) × Store B
  save e (ok data_of) s = update (b.put s.db e.id data_of) s
  save e (err x) s = (err x, s)
  save e panic s = (panic, s)
  save e hung s = (hung, s)

  abbrev pub stamp : Environment → Store B → Environment
  stamp e s = record e { updated_at = s.now }

  -- Put, with the environment that its caller then holds
  unfoldable pub put : Environment → Store B → Result (Unit {0}) × Environment × Store B
  put e s =
      let stamped = stamp e s in
      let (r, s') =
        save stamped (wrapped (lit "marshal environment") (of_json (marshal t stamped))) s in
      (r, stamped, s')

  abbrev pub read : Option Json → Result Environment
  read none = err not_found
  read (some data_of) = of_json (unmarshal t data_of)

  -- Get
  unfoldable pub get : Text → Store B → Result Environment × Store B
  get id s = (read (b.get s.db id), s)

  -- Delete
  unfoldable pub delete : Text → Store B → Result (Unit {0}) × Store B
  delete id s = update (b.delete s.db id) s

  -- the loop of List; the first value that cannot be read ends it
  unfoldable pub collect : Text → List (Text × Json) → Result (List Environment)
  collect filter [] = ok []
  collect filter ((k, v) ∷ rest) =
      let others = collect filter rest in
      elim (unmarshal t v) [ none ↦ err json_error | some e ↦ prepend (wanted filter e) e others ]

  -- List
  unfoldable pub list : Text → Store B → Result (List Environment)
  list filter s = collect filter (b.entries s.db)

  -- *Store as a StateClient
  unfoldable pub client : StateClient (Store B)
  client = record { get = get; put = put }
