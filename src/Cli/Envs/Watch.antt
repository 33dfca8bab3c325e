-- ===== src/Cli/Envs/Watch.antt =====
-- The polls of create: when they end, and what they have sent.
use mathlib.Core.List.{append-nil, append_assoc}
use env_forge.Prelude.{
  ◌≡◌, sym, ap, ◌∙◌, ℕ, zero, suc, ◌≤◌, ◌<◌, true, Bool-cases, inl, inr, List, [], ◌∷◌, ◌++◌, Text,
  arith,
}
use env_forge.Go.{Result}
use env_forge.Cli.{Net, Reader, Printer, Request, Run}
use env_forge.Cli.Envs.{watch}
use env_forge.Cli.Envs.Poll.{Answers, repeated, poll_request, settles, Ends, poll-Ends, poll-GoesOn}

module _ {R : Type 0} (net : Net R) (reader : Reader R) (p : Printer) (forge_url : Text)
    (env_id : Text) where
  Ends-step :
      (n : ℕ) (before mid : List Request) (x : Result (Unit {0}) × Run)
      → mid ≡ before ++ (poll_request net reader p forge_url env_id) ∷ []
      → Ends net reader p forge_url env_id n mid x
      → Ends net reader p forge_url env_id (suc n) before x
  Ends-step n before mid x e k =
      let m = k.bound in
      record {
        ends = k.ends;
        polls = suc k.polls;
        bound = omega arith;
        sent =
            k.sent
            ∙ ap (λ l. l ++ repeated k.polls (poll_request net reader p forge_url env_id)) e
            ∙ append_assoc before ((poll_request net reader p forge_url env_id) ∷ []) _;
      }

  Ends-mono :
      (m n : ℕ) (before : List Request) (x : Result (Unit {0}) × Run)
      → m ≤ n
      → Ends net reader p forge_url env_id m before x
      → Ends net reader p forge_url env_id n before x
  Ends-mono m n before x h k =
      let e = k.bound in
      record { ends = k.ends; polls = k.polls; bound = omega arith; sent = k.sent }

  -- The polling of create ends, where no call of net/http and no decoding goes on for ever: if the
  -- poll after some number of polls would find a signal, an error or a status other than
  -- provisioning, then every greater bound on the rounds is enough, and what was sent are at most
  -- that number of polls and one more, each a GET of the environment.
  pub watch-Ends :
      (laws : Answers net reader) (fuel n : ℕ) (s : Run)
      → settles net reader p forge_url env_id
          (s.sent ++ repeated n (poll_request net reader p forge_url env_id))
        ≡ true
      → n < fuel
      → Ends net reader p forge_url env_id
          (suc n)
          s.sent
          (watch net reader p forge_url fuel env_id s)
  unfolding watch
  watch-Ends laws zero n s h less = absurd (omega arith)
  watch-Ends laws (suc fuel) zero s h less = Ends-mono 1 1 s.sent _ (omega arith) (
      poll-Ends net reader p forge_url env_id laws _ s
        (ap (settles net reader p forge_url env_id) (sym (append-nil s.sent)) ∙ h))
  watch-Ends laws (suc fuel) (suc n) s h less =
      elim (Bool-cases (settles net reader p forge_url env_id s.sent)) [
        | inl over ↦
            Ends-mono 1 (suc (suc n)) s.sent _ (omega arith)
              (poll-Ends net reader p forge_url env_id laws _ s over)
        | inr later ↦
            let k =
              poll-GoesOn net reader p forge_url env_id (watch net reader p forge_url fuel env_id) s
                later in
            rw k.on (
              Ends-step (suc n) s.sent k.next.sent _ k.sent (
                watch-Ends laws fuel n k.next
                  (rw k.sent (
                    ap (settles net reader p forge_url env_id) (
                      append_assoc s.sent ((poll_request net reader p forge_url env_id) ∷ [])
                        (repeated n (poll_request net reader p forge_url env_id)))
                    ∙ h))
                  (omega arith)))
      ]
