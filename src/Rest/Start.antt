-- ===== src/Rest/Start.antt =====
-- internal/apiserver/server.go: `Start`, its goroutine and the `select` between the goroutine's
-- error and the end of the context, as steps in any order.
use pd_manager.Common.{◌≡◌, Bool, true, false, Option, none, some, Result, err, Error}

-- What `ListenAndServe` returns: it always returns an error.
pub data ListenError : Type 0 where
  server_closed : ListenError
  listen_failed : Error → ListenError

-- The goroutine: it serves, then sends an error or has nothing to send, and ends.
pub data Goroutine : Type 0 where
  serving : Goroutine
  sending : Error → Goroutine
  ended : Goroutine

-- The caller of `Start`: it waits in the `select`, in `Shutdown`, or has returned.
pub data Caller : Type 0 where
  selecting : Caller
  shutting_down : Caller
  started : Result (Unit {0}) → Caller

pub record StartState : Type 0 where
  pub goroutine : Goroutine
  -- `errCh`, a channel with room for one error
  pub err_ch : Option Error
  -- `ctx.Done()` is closed.
  pub cancelled : Bool
  -- `Shutdown` has been called.
  pub closed : Bool
  pub caller : Caller

abbrev pub start_state : StartState
start_state = record {
  goroutine = serving;
  err_ch = none;
  cancelled = false;
  closed = false;
  caller = selecting;
}

-- `err != nil && err != http.ErrServerClosed`
abbrev pub after_listen : ListenError → Goroutine
after_listen server_closed = ended
after_listen (listen_failed e) = sending e

pub data StartStep : StartState → StartState → Type 0 where
  -- The context ends, at any time.
  cancel : (s : StartState) → StartStep s (record s { cancelled = true })
  -- The listener fails, or is closed by `Shutdown`.
  listen :
      (s : StartState) (e : ListenError)
      → s.goroutine ≡ serving
      → (e ≡ server_closed → s.closed ≡ true)
      → StartStep s (record s { goroutine = after_listen e })
  -- `errCh <- err`, where the channel has room
  send :
      (s : StartState) (e : Error)
      → s.goroutine ≡ sending e
      → s.err_ch ≡ none
      → StartStep s (record s { goroutine = ended; err_ch = some e })
  -- `case err := <-errCh: return err`
  receive :
      (s : StartState) (e : Error)
      → s.caller ≡ selecting
      → s.err_ch ≡ some e
      → StartStep s (record s { err_ch = none; caller = started (err e) })
  -- `case <-ctx.Done():`, which calls `Shutdown`
  done :
      (s : StartState)
      → s.caller ≡ selecting
      → s.cancelled ≡ true
      → StartStep s (record s { closed = true; caller = shutting_down })
  -- `return s.srv.Shutdown(context.Background())`, with what `Shutdown` returns
  shut_down :
      (s : StartState) (r : Result (Unit {0}))
      → s.caller ≡ shutting_down
      → StartStep s (record s { caller = started r })

pub data Reached : StartState → Type 0 where
  initial : Reached start_state
  step : {s t : StartState} → Reached s → StartStep s t → Reached t
