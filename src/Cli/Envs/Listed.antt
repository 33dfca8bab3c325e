-- ===== src/Cli/Envs/Listed.antt =====
-- What list prints.
use mathlib.Core.List.{append-nil, append_assoc}
use env_forge.Prelude.{◌≡◌, refl, ap, List, [], ◌∷◌, ◌++◌, map, Option, none, some, Text, slice_to}
use env_forge.Environment.{Environment}
use env_forge.Go.{ok}
use env_forge.Cli.{
  Net, Reader, Printer, Reply, get, Run, tabbed, continue, ◌>>=◌, ◌>>◌, lift, context, transmit,
  do_get,
}
use env_forge.Cli.Table.{Table, new_table, row, flush}
use env_forge.Cli.Envs.{env_row, env_rows, env_header, list, list_url}

module _ {R : Type 0} (net : Net R) (reader : Reader R) (p : Printer) (forge_url : Text) where
  -- there is a row for each environment, in their order, with the first eight bytes of its id
  abbrev pub Rows : List Environment → List Text → Type 0
  Rows [] rows = rows ≡ []
  Rows (e ∷ envs) rows =
      (short : Text) × (rest : List Text) × (slice_to e.id 8 ≡ some short)
      × (rows ≡ env_row net reader p forge_url e short ∷ rest)
      × Rows envs rest

  abbrev pub table_of : List Text → Table
  table_of rows = record { rows = rows; failed = none }

  module _ (quiet : (before : List Text) (r : Text) → p.write before r ≡ none) where
    row-quiet :
        (r : Text) (before : List Text) → row p r (table_of before) ≡ table_of (before ++ r ∷ [])
    unfolding row
    row-quiet r before = rw quiet refl

    env_rows-Rows :
        (envs : List Environment) (rows before : List Text)
        → Rows envs rows
        → env_rows net reader p forge_url (map some envs) (table_of before)
          ≡ ok (table_of (before ++ rows))
    unfolding env_rows
    env_rows-Rows [] rows before none_left = rw (none_left, append-nil before) refl
    env_rows-Rows (e ∷ envs) rows before (short, rest, cut, split, more) =
        let r = env_row net reader p forge_url e short in
        rw (cut, row-quiet r before, env_rows-Rows envs rest (before ++ r ∷ []) more, split)
          (ap (λ l. ok (table_of l)) (append_assoc before (r ∷ []) rest))

    continue_flush :
        (envs : List (Option Environment)) (rows : List Text) (s : Run)
        → env_rows net reader p forge_url envs (row p env_header new_table) ≡ ok (table_of rows)
        → continue (env_rows net reader p forge_url envs (row p env_header new_table)) (flush p) s
          ≡ (p.flush rows, record s { out = s.out ++ tabbed rows ∷ [] })
    unfolding flush
    continue_flush envs rows s h = rw h refl

    -- If the request of list can be built and is answered, whatever the status, with a body that
    -- decodes to environments whose ids have eight bytes, and the tabwriter takes every write, then
    -- list sends that one GET, and writes one table: the header and a row for each environment, in
    -- their order. What it returns is what flushing the table gives.
    pub list-Rows :
        (status : Text) (resp : Reply R) (envs : List Environment) (rows : List Text) (s : Run)
        → net.new_request get (list_url net reader p forge_url status) ≡ ok tt
        → net.send s.sent
            (record { method = get; url = list_url net reader p forge_url status; body = none })
          ≡ ok resp
        → reader.envs resp.body ≡ ok (map some envs)
        → Rows envs rows
        → list net reader p forge_url status s ≡ (
          p.flush (env_header ∷ rows),
          record {
            sent =
                s.sent
                ++ record {
                  method = get;
                  url = list_url net reader p forge_url status;
                  body = none;
                }
                  ∷ [];
            out = s.out ++ tabbed (env_header ∷ rows) ∷ [];
          },
        )
    unfolding list do_get transmit context lift ◌>>=◌ ◌>>◌
    list-Rows status resp envs rows s built sent decoded filled =
        rw (built, sent, decoded)
          (continue_flush (map some envs) (env_header ∷ rows) _
            (rw (row-quiet env_header []) (env_rows-Rows envs rows (env_header ∷ []) filled)))
