-- ===== src/Cli/Envs/Poll.antt =====
-- One poll of create: whether it ends the loop, and what it has sent.
use mathlib.Core.List.{append-nil}
use env_forge.Prelude.{
  ◌≡◌, ◌≢◌, refl, sym, ◌∙◌, ℕ, zero, suc, ◌≤◌, Bool, true, false, not, Bool-cases, Option-cases,
  inl, inr, List, [], ◌∷◌, ◌++◌, ◌||◌, none, Text, lit, text_eq, slice_to, arith,
}
use env_forge.Environment.{Environment, status_provisioning}
use env_forge.Go.{Result, ok, err, panic, hung, wrapped}
use env_forge.Cli.{
  Net, Reader, Printer, Reply, Method, get, Request, Run, Command, continue, ◌>>=◌, ◌>>◌, lift,
  context, now, choose, dash, fail, print, transmit, do_get, or_panic,
}
use env_forge.Cli.Envs.{poll, tick}

-- nothing that a poll calls goes on for ever
pub record Answers {R : Type 0} (net : Net R) (reader : Reader R) : Type 0 where
  pub new_request : (m : Method) (url : Text) → net.new_request m url ≢ hung
  pub send : (before : List Request) (req : Request) → net.send before req ≢ hung
  pub env : (body : R) → reader.env body ≢ hung

abbrev pub repeated : ℕ → Request → List Request
repeated zero req = []
repeated (suc n) req = req ∷ repeated n req

abbrev env_settles : Result Environment → Bool
env_settles (ok env) = not (text_eq env.status status_provisioning)
env_settles _ = true

abbrev reply_settles : {R : Type 0} → Reader R → Result (Reply R) → Bool
reply_settles reader (ok r) = env_settles (reader.env r.body)
reply_settles reader _ = true

abbrev url_settles : Result (Unit {0}) → Bool → Bool
url_settles (ok _) b = b
url_settles _ b = true

module _ {R : Type 0} (net : Net R) (reader : Reader R) (p : Printer) (forge_url : Text)
    (env_id : Text) where
  abbrev pub poll_request : Request
  poll_request = record { method = get; url = forge_url ++ lit "/envs/" ++ env_id; body = none }

  -- A poll that comes after these requests ends the loop: a signal, an error, or another status.
  abbrev pub settles : List Request → Bool
  settles before =
      net.is_done before
      || url_settles (net.new_request get poll_request.url)
          (reply_settles reader (net.send before poll_request))

  abbrev body : Command (Unit {0}) → Environment → Command (Unit {0})
  body again env =
      choose (not (text_eq env.status status_provisioning))
        (lift (or_panic (slice_to env.id 8)) >>= λ short. print (
          lit "\nEnvironment "
          ++ short
          ++ lit " "
          ++ dash
          ++ lit " status: "
          ++ env.status
          ++ lit "\n"))
        (tick net reader p forge_url >> again)

  -- what a poll does with a reply and with an environment that it has decoded
  abbrev after_env : Command (Unit {0}) → Result Environment → Command (Unit {0})
  after_env again x s = continue (wrapped (lit "decode env") x) (body again) s

  abbrev after_reply : Command (Unit {0}) → Result (Reply R) → Command (Unit {0})
  after_reply again x s =
      continue (wrapped (lit "poll status") x) (λ r. after_env again (reader.env r.body)) s

  abbrev asked : Run → Run
  asked s = record s { sent = s.sent ++ poll_request ∷ [] }

  abbrev after_url : Command (Unit {0}) → Result (Unit {0}) → Command (Unit {0})
  after_url again (ok _) s = after_reply again (net.send s.sent poll_request) (asked s)
  after_url again (err e) s = after_reply again (wrapped (lit "build GET request") (err e)) s
  after_url again panic s = (panic, s)
  after_url again hung s = (hung, s)

  poll-done :
      (again : Command (Unit {0})) (s : Run)
      → net.is_done s.sent ≡ true
      → poll net reader p forge_url env_id again s ≡ fail (lit "context canceled") s
  unfolding poll now choose
  poll-done again s h = rw h refl

  poll-after_url :
      (again : Command (Unit {0})) (s : Run) (u : Result (Unit {0}))
      → net.is_done s.sent ≡ false
      → net.new_request get poll_request.url ≡ u
      → poll net reader p forge_url env_id again s ≡ after_url again u s
  unfolding poll now choose do_get transmit ◌>>=◌ ◌>>◌ context lift
  poll-after_url again s (ok tt) h e = rw (h, e) refl
  poll-after_url again s (err x) h e = rw (h, e) refl
  poll-after_url again s panic h e = rw (h, e) refl
  poll-after_url again s hung h e = rw (h, e) refl

  -- the loop is over, and at most so many polls were sent
  pub record Ends (limit : ℕ) (before : List Request) (x : Result (Unit {0}) × Run) : Type 0 where
    pub ends : x.0 ≢ hung
    pub polls : ℕ
    pub bound : polls ≤ limit
    pub sent : x.1.sent ≡ before ++ repeated polls poll_request

  body-ends :
      (again : Command (Unit {0})) (env : Environment) (s : Run)
      → not (text_eq env.status status_provisioning) ≡ true
      → ((body again env s).0 ≢ hung) × ((body again env s).1.sent ≡ s.sent)
  unfolding choose lift ◌>>=◌ print
  body-ends again env s h = elim (Option-cases (slice_to env.id 8)) [
    | inl short ↦ (rw (h, short) (λ e. cc e), rw (h, short) refl)
    | inr (short, e) ↦ (rw (h, e) (λ f. cc f), rw (h, e) refl)
  ]

  after_env-ends :
      (again : Command (Unit {0})) (x : Result Environment) (s : Run)
      → env_settles x ≡ true
      → x ≢ hung
      → ((after_env again x s).0 ≢ hung) × ((after_env again x s).1.sent ≡ s.sent)
  after_env-ends again (ok env) s h n = body-ends again env s h
  after_env-ends again (err e) s h n = (λ e. cc e, refl)
  after_env-ends again panic s h n = (λ e. cc e, refl)
  after_env-ends again hung s h n = absurd (n refl)

  after_reply-ends :
      (laws : Answers net reader) (again : Command (Unit {0})) (x : Result (Reply R)) (s : Run)
      → reply_settles reader x ≡ true
      → x ≢ hung
      → ((after_reply again x s).0 ≢ hung) × ((after_reply again x s).1.sent ≡ s.sent)
  after_reply-ends laws again (ok r) s h n =
      after_env-ends again (reader.env r.body) s h (laws.env r.body)
  after_reply-ends laws again (err e) s h n = (λ e. cc e, refl)
  after_reply-ends laws again panic s h n = (λ e. cc e, refl)
  after_reply-ends laws again hung s h n = absurd (n refl)

  none_sent :
      (before : List Request) (x : Result (Unit {0}) × Run)
      → x.0 ≢ hung
      → x.1.sent ≡ before
      → Ends 1 before x
  none_sent before x n e = record {
    ends = n;
    polls = 0;
    bound = omega arith;
    sent = e ∙ sym (append-nil before);
  }

  after_url-Ends :
      (laws : Answers net reader) (again : Command (Unit {0})) (u : Result (Unit {0})) (s : Run)
      → url_settles u (reply_settles reader (net.send s.sent poll_request)) ≡ true
      → u ≢ hung
      → Ends 1 s.sent (after_url again u s)
  after_url-Ends laws again (ok _) s h n =
      let (done, kept) =
        after_reply-ends laws again (net.send s.sent poll_request) (asked s) h (laws.send _ _) in
      record { ends = done; polls = 1; bound = omega arith; sent = kept }
  after_url-Ends laws again (err e) s h n = none_sent s.sent _ (λ e. cc e) refl
  after_url-Ends laws again panic s h n = none_sent s.sent _ (λ e. cc e) refl
  after_url-Ends laws again hung s h n = absurd (n refl)

  pub poll-Ends :
      (laws : Answers net reader) (again : Command (Unit {0})) (s : Run)
      → settles s.sent ≡ true
      → Ends 1 s.sent (poll net reader p forge_url env_id again s)
  unfolding fail lift
  poll-Ends laws again s h = elim (Bool-cases (net.is_done s.sent)) [
    | inl done ↦ rw (poll-done again s done) (none_sent s.sent _ (λ e. cc e) refl)
    | inr live ↦
        rw (poll-after_url again s _ live refl)
          (after_url-Ends laws again _ s (rw live at h) (laws.new_request _ _))
  ]

  -- a poll after which the loop goes on, and where it goes on
  pub record GoesOn (again : Command (Unit {0})) (s : Run) (x : Result (Unit {0}) × Run)
      : Type 0 where
    pub next : Run
    pub on : x ≡ again next
    pub sent : next.sent ≡ s.sent ++ poll_request ∷ []

  body-goes_on :
      (again : Command (Unit {0})) (env : Environment) (s : Run)
      → not (text_eq env.status status_provisioning) ≡ false
      → (next : Run) × (body again env s ≡ again next) × (next.sent ≡ s.sent)
  unfolding choose tick now print ◌>>◌ ◌>>=◌
  body-goes_on again env s h = ((tick net reader p forge_url s).1, rw h refl, refl)

  after_env-goes_on :
      (again : Command (Unit {0})) (x : Result Environment) (s : Run)
      → env_settles x ≡ false
      → (next : Run) × (after_env again x s ≡ again next) × (next.sent ≡ s.sent)
  after_env-goes_on again (ok env) s h = body-goes_on again env s h
  after_env-goes_on again (err e) s h = absurd (cc h)
  after_env-goes_on again panic s h = absurd (cc h)
  after_env-goes_on again hung s h = absurd (cc h)

  after_reply-goes_on :
      (again : Command (Unit {0})) (x : Result (Reply R)) (s : Run)
      → reply_settles reader x ≡ false
      → (next : Run) × (after_reply again x s ≡ again next) × (next.sent ≡ s.sent)
  after_reply-goes_on again (ok r) s h = after_env-goes_on again (reader.env r.body) s h
  after_reply-goes_on again (err e) s h = absurd (cc h)
  after_reply-goes_on again panic s h = absurd (cc h)
  after_reply-goes_on again hung s h = absurd (cc h)

  after_url-GoesOn :
      (again : Command (Unit {0})) (u : Result (Unit {0})) (s : Run)
      → url_settles u (reply_settles reader (net.send s.sent poll_request)) ≡ false
      → GoesOn again s (after_url again u s)
  after_url-GoesOn again (ok _) s h =
      let (next, on, same) = after_reply-goes_on again (net.send s.sent poll_request) (asked s) h in
      record { next = next; on = on; sent = same }
  after_url-GoesOn again (err e) s h = absurd (cc h)
  after_url-GoesOn again panic s h = absurd (cc h)
  after_url-GoesOn again hung s h = absurd (cc h)

  pub poll-GoesOn :
      (again : Command (Unit {0})) (s : Run)
      → settles s.sent ≡ false
      → GoesOn again s (poll net reader p forge_url env_id again s)
  poll-GoesOn again s h = elim (Bool-cases (net.is_done s.sent)) [
    | inl done ↦ absurd (cc (rw done at h))
    | inr live ↦ rw (poll-after_url again s _ live refl) (after_url-GoesOn again _ s (rw live at h))
  ]
