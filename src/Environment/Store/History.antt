-- ===== src/Environment/Store/History.antt =====
-- Any sequence of calls of a store, against a map from ids to environments.
use mathlib.Core.Path.{fun_ext}
use env_forge.Prelude.{
  ◌≡◌, ◌≢◌, refl, if◌then◌else◌, ℕ, List, [], ◌∷◌, Option, none, some, inl, inr, Text, lit, text_eq,
}
use env_forge.Environment.{Environment}
use env_forge.Environment.Json.{Json, TimeText, marshal}
use env_forge.Go.{Result, ok, err, panic, hung, wrapped, not_found}
use env_forge.Environment.Store
use env_forge.Environment.Store.{Bucket, IsBucket, Store, of_json, update, save, stamp}
use env_forge.Environment.Store.Laws.{get-put, put_err, get-delete, delete_err, ok-cases}

-- a call of the store, or the passing of time
pub data Op : Type 0 where
  put : Environment → Op
  get delete : Text → Op
  wait : ℕ → Op

abbrev pub Outcome : Type 0
Outcome = Result (Unit {0})

-- what Get gives of each id
abbrev pub View : Type 0
View = Text → Result Environment

-- what a call that succeeds changes
abbrev pub changed : Op → ℕ → View → View
changed (put e) now f k = if text_eq e.id k then ok (record e { updated_at = now }) else f k
changed (get id) now f k = f k
changed (delete id) now f k = if text_eq id k then err not_found else f k
changed (wait n) now f k = f k

-- a call that fails changes nothing
abbrev pub answered : Outcome → View → View → View
answered (ok done) f g = f
answered _ f g = g

abbrev pub later : Op → ℕ → ℕ
later (wait n) now = n
later _ now = now

-- the calls on a map, with how each came back
abbrev pub replay : List Op → List Outcome → ℕ → View → View
replay (op ∷ ops) (r ∷ rs) now f = replay ops rs (later op now) (answered r (changed op now f) f)
replay _ _ now f = f

module _ {B : Type 0} (b : Bucket B) (t : TimeText) where
  abbrev pub view : Store B → View
  view s k = (Store.get b t k s).0

  -- the calls on the store
  abbrev pub perform : Op → Store B → Outcome × Store B
  perform (put e) s = let (r, e', s') = Store.put b t e s in (r, s')
  perform (get id) s = (ok tt, (Store.get b t id s).1)
  perform (delete id) s = Store.delete b t id s
  perform (wait n) s = (ok tt, record s { now = n })

  unfoldable pub run : List Op → Store B → List Outcome × Store B
  run [] s = ([], s)
  run (op ∷ ops) s = let (r, s') = perform op s in let (rs, s'') = run ops s' in (r ∷ rs, s'')

  update-now : (r : Result B) (s : Store B) → (update b t r s).1.now ≡ s.now
  update-now (ok db) s = refl
  update-now (err e) s = refl
  update-now panic s = refl
  update-now hung s = refl

  saved-now :
      (e : Environment) (m : Option Json) (s : Store B)
      → (save b t e (wrapped (lit "marshal environment") (of_json m)) s).1.now ≡ s.now
  saved-now e none s = refl
  saved-now e (some v) s = update-now (b.put s.db e.id v) s

  perform-now : (op : Op) (s : Store B) → (perform op s).1.now ≡ later op s.now
  unfolding Store.put Store.get Store.delete
  perform-now (put e) s = saved-now (stamp b t e s) (marshal t (stamp b t e s)) s
  perform-now (get id) s = refl
  perform-now (delete id) s = update-now (b.delete s.db id) s
  perform-now (wait n) s = refl

  answered_ok : (r : Outcome) (f g : View) (k : Text) → r ≡ ok tt → answered r f g k ≡ f k
  answered_ok (ok done) f g k h = refl
  answered_ok (err e) f g k h = cc h
  answered_ok panic f g k h = cc h
  answered_ok hung f g k h = cc h

  answered_err : (r : Outcome) (f g : View) (k : Text) → r ≢ ok tt → answered r f g k ≡ g k
  answered_err (ok done) f g k h = absurd (h refl)
  answered_err (err e) f g k h = refl
  answered_err panic f g k h = refl
  answered_err hung f g k h = refl

  perform-view :
      IsBucket b
      → (op : Op) (s : Store B) (k : Text)
      → view (perform op s).1 k ≡ answered (perform op s).0 (changed op s.now (view s)) (view s) k
  perform-view laws (put e) s k = elim (ok-cases b t (Store.put b t e s).0) [
    | inl h ↦ rw (answered_ok _ _ _ k h) (get-put b t laws e s k h)
    | inr h ↦ rw (answered_err _ _ _ k h, put_err b t e s h) refl
  ]
  perform-view laws (get id) s k = unfold Store.get in refl
  perform-view laws (delete id) s k = elim (ok-cases b t (Store.delete b t id s).0) [
    | inl h ↦ rw (answered_ok _ _ _ k h) (get-delete b t laws id k s h)
    | inr h ↦ rw (answered_err _ _ _ k h, delete_err b t id s h) refl
  ]
  perform-view laws (wait n) s k = unfold Store.get in refl

  -- Over any sequence of Puts, Gets and Deletes, at any times and whichever of them fail, Get gives
  -- in the end of each id what a map gives that had at first what the store had, and on which a Put
  -- that succeeded has set the environment's id to the environment with the time of the Put as its
  -- updated_at, a Delete that succeeded has set its id to not found, and nothing else was done.
  pub run-eq-replay :
      IsBucket b
      → (ops : List Op) (s : Store B) → view (run ops s).1 ≡ replay ops (run ops s).0 s.now (view s)
  unfolding run
  run-eq-replay laws [] s = refl
  run-eq-replay laws (op ∷ ops) s =
      let told : view (perform op s).1
          ≡ answered (perform op s).0 (changed op s.now (view s)) (view s) =
        fun_ext (perform-view laws op s) in
      rw (run-eq-replay laws ops (perform op s).1, perform-now op s, told) refl
