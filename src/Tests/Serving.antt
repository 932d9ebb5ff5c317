-- ===== src/Tests/Serving.antt =====
-- Two runs of `Start`: one that is cancelled, and one whose listener fails.
use pd_manager.Common.{◌≡◌, true, none, some, ok, err, Error, failure, refl}
use pd_manager.Rest.Start.{
  listen_failed, server_closed, sending, ended, started, send, receive, StartState, start_state,
  StartStep, cancel, listen, done, shut_down, Reached, initial, step, shutting_down,
}
use pd_manager.Rest.Serving.{IsJustified, started-IsJustified, send_unblocked}

abbrev cancelled_state : StartState
cancelled_state = record start_state { cancelled = true }

abbrev closing_state : StartState
closing_state = record cancelled_state { closed = true; caller = shutting_down }

abbrev stopped_state : StartState
stopped_state = record closing_state { caller = started (ok tt) }

stopped : Reached stopped_state
stopped =
    step (step (step initial (cancel start_state)) (done cancelled_state refl refl))
      (shut_down closing_state (ok tt) refl)

abbrev in_use : Error
in_use = failure "listen tcp :8080: bind: address already in use"

abbrev broken_state : StartState
broken_state = record start_state { goroutine = sending in_use }

not_closed : listen_failed in_use ≡ server_closed → start_state.closed ≡ true
not_closed h = cc

broken : Reached broken_state
broken = step initial (listen start_state (listen_failed in_use) refl not_closed)

send_unblocked_example : (t : StartState) × StartStep broken_state t × (t.err_ch ≡ some in_use)
send_unblocked_example = send_unblocked broken_state in_use broken refl

abbrev sent_state : StartState
sent_state = record broken_state { goroutine = ended; err_ch = some in_use }

abbrev returned_state : StartState
returned_state = record sent_state { err_ch = none; caller = started (err in_use) }

returned_run : Reached returned_state
returned_run =
    step (step broken (send broken_state in_use refl refl)) (receive sent_state in_use refl refl)

started-IsJustified_example :
    IsJustified returned_run (err in_use) returned_state.cancelled returned_state.closed
started-IsJustified_example = started-IsJustified returned_state (err in_use) returned_run refl
