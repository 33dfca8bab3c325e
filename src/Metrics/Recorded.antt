-- ===== src/Metrics/Recorded.antt =====
-- Which status InstrumentHandler observes.
use mathlib.Core.List.{append-nil, append_assoc}
use env_forge.Prelude.{◌≡◌, refl, sym, ap, ◌∙◌, ℕ, List, [], ◌∷◌, ◌++◌, Text}
use env_forge.Go.{Result}
use env_forge.Metrics.{StatusRecorder, Handler, write_header, Observation, instrument_handler}

-- a handler that writes the codes in turn
write_all : List ℕ → StatusRecorder → StatusRecorder
write_all [] r = r
write_all (code ∷ codes) r = write_all codes (write_header code r)

writes : Result (Unit {0}) → List ℕ → Handler
unfolding write_all
writes result codes r = (result, write_all codes r)

last_of : ℕ → List ℕ → ℕ
last_of code [] = code
last_of code (c ∷ codes) = last_of c codes

write_all-eq :
    (codes : List ℕ) (r : StatusRecorder)
    → write_all codes r ≡ record { code = last_of r.code codes; sent = r.sent ++ codes }
unfolding write_all last_of write_header
write_all-eq [] r = ap (λ l. record { code = r.code; sent = l }) (sym (append-nil r.sent))
write_all-eq (c ∷ codes) r =
    write_all-eq codes (write_header c r)
    ∙ ap (λ l. record { code = last_of c codes; sent = l }) (append_assoc r.sent (c ∷ []) codes)

-- However a handler ends that has written some status codes, the request is observed once, by the text
-- of the last of them, and of 200 if there is none; and all of them are passed on in their order.
instrument_handler-observes :
    (status_text : ℕ → Text) (route method : Text) (result : Result (Unit {0})) (codes : List ℕ)
    (before : List Observation)
    → instrument_handler status_text route (writes result codes) method before ≡ record {
      result = result;
      sent = codes;
      observed =
          before
          ++ record { method = method; route = route; status = status_text (last_of 200 codes) }
            ∷ [];
    }
unfolding instrument_handler writes
instrument_handler-observes status_text route method result codes before =
    rw (write_all-eq codes (record { code = 200; sent = [] })) refl
