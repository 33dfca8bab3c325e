-- ===== src/Api/Lifecycle.antt =====
-- ListenAndServe of internal/apiserver/server.go, with what it counts in its WaitGroup. net/http is a
-- parameter: srv.ListenAndServe ends with ErrServerClosed as soon as Shutdown has been called, which
-- closes the listener and waits for the requests that are being handled, or with another error.
pub mod Drained
use env_forge.Prelude.{◌≡◌, ℕ, suc, Bool, true, false}
use env_forge.Go.{Error, Result, ok, err}

-- where ListenAndServe stands: in srv.ListenAndServe, in s.wg.Wait, or back with a result
pub data Phase : Type 0 where
  serving draining : Phase
  returned : Result (Unit {0}) → Phase

-- `cancelled` is whether ctx is done, `handled` the number of requests to create that are before
-- s.wg.Add, and `running` the provision goroutines that the WaitGroup counts.
pub record Lifecycle : Type 0 where
  pub phase : Phase
  pub cancelled : Bool
  pub handled : ℕ
  pub running : ℕ

abbrev pub listening : Lifecycle
listening = record { phase = serving; cancelled = false; handled = 0; running = 0 }

pub data Move (s : Lifecycle) (u : Lifecycle) : Type 0 where
  -- a request to create comes in
  accept : s.phase ≡ serving → u ≡ record s { handled = suc s.handled } → Move s u
  -- a signal ends the context
  cancel : u ≡ record s { cancelled = true } → Move s u
  -- the goroutine that waits for the context calls Shutdown
  shut : s.phase ≡ serving → s.cancelled ≡ true → u ≡ record s { phase = draining } → Move s u
  -- srv.ListenAndServe fails, and ListenAndServe returns its error at once
  break_off : (e : Error) → s.phase ≡ serving → u ≡ record s { phase = returned (err e) } → Move s u
  -- s.wg.Wait comes back
  drain : s.phase ≡ draining → s.running ≡ 0 → u ≡ record s { phase = returned (ok tt) } → Move s u
  -- a request is refused or cannot be saved, and starts no goroutine
  refuse : (n : ℕ) → s.handled ≡ suc n → u ≡ record s { handled = n } → Move s u
  -- s.wg.Add(1), and the goroutine starts
  spawn :
      (n : ℕ) → s.handled ≡ suc n → u ≡ record s { handled = n; running = suc s.running } → Move s u
  -- s.wg.Done()
  done : (n : ℕ) → s.running ≡ suc n → u ≡ record s { running = n } → Move s u

pub data Runs (s : Lifecycle) : Lifecycle → Type 0 where
  here : Runs s s
  next : {u w : Lifecycle} → Runs s u → Move u w → Runs s w
