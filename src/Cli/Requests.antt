-- ===== src/Cli/Requests.antt =====
-- The requests that a command adds to those sent before it: one rule for each way to build a command.
use mathlib.Core.List.{append-nil, append_assoc}
use env_forge.Prelude.{
  ◌≡◌, refl, sym, ap, ◌∙◌, Bool, true, false, List, [], ◌∷◌, ◌++◌, ◌⊎◌, inl, inr, All, All-append,
  Option, none, some, Text,
}
use env_forge.Go.{Error, Result, ok, err, panic, hung, wrapped}
use env_forge.Cli.{
  Net, Reader, Printer, Reply, get, post, Payload, Request, Run, Command, continue, ◌>>=◌, ◌>>◌,
  lift, context, examine, now, choose, fail, print, transmit, do_get, do_post, refused,
  refused_with,
}
use env_forge.Cli.Table.{Table, flush, flush_after}

abbrev pub IsGet : Request → Type 0
IsGet req = req.method ≡ get

-- What was sent after `before`, which are `posts` or nothing, and then GETs alone.
pub record Sent (posts before after : List Request) : Type 0 where
  pub first : List Request
  pub gets : List Request
  pub sent : after ≡ before ++ (first ++ gets)
  pub first_is : (first ≡ []) ⊎ (first ≡ posts)
  pub only_gets : All IsGet gets

-- However the command ends, that is what it has sent.
pub record Sends {A : Type 0} (posts : List Request) (m : Command A) : Type 0 where
  pub at : (s : Run) → Sent posts s.sent (m s).1.sent

Sent-refl : (posts before : List Request) → Sent posts before before
Sent-refl posts before = record {
  first = [];
  gets = [];
  sent = sym (append-nil before);
  first_is = inl refl;
  only_gets = tt;
}

either_nil : (xs : List Request) → ((xs ≡ []) ⊎ (xs ≡ [])) → xs ≡ []
either_nil xs (inl e) = e
either_nil xs (inr e) = e

Sent-trans : (posts a b c : List Request) → Sent posts a b → Sent [] b c → Sent posts a c
Sent-trans posts a b c v w = record {
  first = v.first;
  gets = v.gets ++ w.gets;
  sent =
      w.sent
      ∙ ap (λ l. b ++ (l ++ w.gets)) (either_nil w.first w.first_is)
      ∙ ap (λ l. l ++ w.gets) v.sent
      ∙ append_assoc a (v.first ++ v.gets) w.gets
      ∙ ap (λ l. a ++ l) (append_assoc v.first v.gets w.gets);
  first_is = v.first_is;
  only_gets = All-append IsGet v.gets w.gets v.only_gets w.only_gets;
}

continue-Sent :
    {A B : Type 0} (f : A → Command B)
    → ((a : A) → Sends [] (f a))
    → (r : Result A) (s : Run) → Sent [] s.sent (continue r f s).1.sent
continue-Sent f k (ok a) s = (k a).at s
continue-Sent f k (err e) s = Sent-refl [] s.sent
continue-Sent f k panic s = Sent-refl [] s.sent
continue-Sent f k hung s = Sent-refl [] s.sent

module _ {posts : List Request} where
  pub Sends-lift : {A : Type 0} (r : Result A) → Sends posts (lift r)
  unfolding lift
  Sends-lift r = record { at = λ s. Sent-refl posts s.sent }

  pub Sends-fail : {A : Type 0} (why : Text) → Sends posts (fail {A = A} why)
  unfolding fail lift
  Sends-fail why = record { at = λ s. Sent-refl posts s.sent }

  pub Sends-print : (t : Text) → Sends posts (print t)
  unfolding print
  Sends-print t = record { at = λ s. Sent-refl posts s.sent }

  pub Sends-context :
      {A : Type 0} (what : Text) (m : Command A) → Sends posts m → Sends posts (context what m)
  unfolding context
  Sends-context what m k = record { at = k.at }

  pub Sends-choose :
      {A : Type 0} (b : Bool) (m n : Command A)
      → Sends posts m
      → Sends posts n
      → Sends posts (choose b m n)
  unfolding choose
  Sends-choose true m n km kn = km
  Sends-choose false m n km kn = kn

  pub Sends-now :
      {A : Type 0} (m : Run → Command A) → ((s : Run) → Sends posts (m s)) → Sends posts (now m)
  unfolding now
  Sends-now m k = record { at = λ s. (k s).at s }

  pub Sends-now_print : (f : Run → Text) → Sends posts (now (λ s. print (f s)))
  Sends-now_print f = Sends-now (λ s. print (f s)) (λ s. Sends-print (f s))

  pub Sends-examine :
      {A B : Type 0} (m : Command A) (f : Result A → Command B)
      → Sends posts m
      → ((r : Result A) → Sends [] (f r))
      → Sends posts (examine m f)
  unfolding examine
  Sends-examine m f km kf = record {
    at = λ s. Sent-trans posts _ _ _ (km.at s) ((kf (m s).0).at (m s).1);
  }

  pub Sends-bind :
      {A B : Type 0} (m : Command A) (f : A → Command B)
      → Sends posts m
      → ((a : A) → Sends [] (f a))
      → Sends posts (m >>= f)
  unfolding ◌>>=◌
  Sends-bind m f km kf = record {
    at = λ s. Sent-trans posts _ _ _ (km.at s) (continue-Sent f kf (m s).0 (m s).1);
  }

  pub Sends-then :
      {B : Type 0} (m : Command (Unit {0})) (n : Command B)
      → Sends posts m
      → Sends [] n
      → Sends posts (m >> n)
  unfolding ◌>>◌
  Sends-then m n km kn = Sends-bind m (λ _. n) km (λ _. kn)

module _ {R : Type 0} (net : Net R) where
  pub Sends-do_get : (url : Text) → Sends [] (do_get net url)
  unfolding do_get transmit
  Sends-do_get url = Sends-then _ _ (Sends-context _ _ (Sends-lift _)) (record {
    at = λ s. record {
      first = [];
      gets = record { method = get; url = url; body = none } ∷ [];
      sent = refl;
      first_is = inl refl;
      only_gets = (refl, tt);
    };
  })

  continue_post-Sent :
      (url : Text) (body : Option Payload) (r : Result (Unit {0})) (s : Run)
      → Sent
          (record { method = post; url = url; body = body } ∷ [])
          s.sent
          (continue r
            (λ _. transmit net (record { method = post; url = url; body = body }))
            s).1.sent
  unfolding transmit
  continue_post-Sent url body (ok _) s = record {
    first = record { method = post; url = url; body = body } ∷ [];
    gets = [];
    sent = refl;
    first_is = inr refl;
    only_gets = tt;
  }
  continue_post-Sent url body (err e) s = Sent-refl _ s.sent
  continue_post-Sent url body panic s = Sent-refl _ s.sent
  continue_post-Sent url body hung s = Sent-refl _ s.sent

  pub Sends-do_post :
      (url : Text) (body : Option Payload)
      → Sends (record { method = post; url = url; body = body } ∷ []) (do_post net url body)
  unfolding do_post lift context ◌>>◌ ◌>>=◌
  Sends-do_post url body = record {
    at = λ s. continue_post-Sent url body (wrapped _ (net.new_request post url)) s;
  }

module _ {R : Type 0} (reader : Reader R) (p : Printer) where
  refused_with-Sends :
      {A : Type 0} (what : Text) (r : Result Text) → Sends [] (refused_with {A = A} p what r)
  unfolding fail
  refused_with-Sends what (ok body) = Sends-lift _
  refused_with-Sends what (err e) = Sends-lift _
  refused_with-Sends what panic = Sends-lift _
  refused_with-Sends what hung = Sends-lift _

  pub Sends-refused :
      {A : Type 0} (what : Text) (resp : Reply R) → Sends [] (refused {A = A} reader p what resp)
  unfolding refused
  Sends-refused what resp = refused_with-Sends _ (reader.read_all resp.body)

flush_after-Sent :
    (p : Printer) (e : Option Error) (rows : List Text) (s : Run)
    → Sent [] s.sent (flush_after p e rows s).1.sent
flush_after-Sent p none rows s = Sent-refl [] s.sent
flush_after-Sent p (some e) rows s = Sent-refl [] s.sent

pub Sends-flush : (p : Printer) (t : Table) → Sends [] (flush p t)
unfolding flush
Sends-flush p t = record { at = flush_after-Sent p t.failed t.rows }

pub ruleset sends_rules = (
  Sends-lift, Sends-fail, Sends-print, Sends-context, Sends-choose, Sends-examine, Sends-bind,
  Sends-then, Sends-do_get, Sends-do_post, Sends-refused, Sends-flush,
)
