-- ===== src/Rest/Serving.antt =====
-- What holds in every run of `Start`.
use mathlib.Core.Path.{subst}
use mathlib.Core.Option.{some-injective}
use pd_manager.Common.{
  ◌≡◌, ◌≢◌, ◌⊎◌, inl, inr, Bool, true, false, none, some, Result, ok, err, Error, refl, sym, ◌∙◌,
}
use pd_manager.Rest.Start.{
  ListenError, listen_failed, server_closed, after_listen, sending, ended, Caller, selecting,
  shutting_down, started, StartState, StartStep, cancel, listen, send, receive, done, shut_down,
  Reached, initial, step,
}

-- In this run the listener has failed with the error `e`.
abbrev pub ListenFailed : Error → {s : StartState} → Reached s → Type 0
ListenFailed e initial = ⊥
ListenFailed e (step before (cancel s)) = ListenFailed e before
ListenFailed e (step before (listen s failure serves closes)) =
    (failure ≡ listen_failed e) ⊎ ListenFailed e before
ListenFailed e (step before (send s sent sends room)) = ListenFailed e before
ListenFailed e (step before (receive s received selects sent)) = ListenFailed e before
ListenFailed e (step before (done s selects over)) = ListenFailed e before
ListenFailed e (step before (shut_down s r shuts)) = ListenFailed e before

-- The goroutine has not come to its send.
abbrev NotSent : StartState → Type 0
NotSent s = s.goroutine ≢ ended → s.err_ch ≡ none

-- The context had ended and `Shutdown` was called, or the server was not closed and the result is
-- an error with which the listener has failed.
abbrev pub IsJustified : {s : StartState} → Reached s → Result (Unit {0}) → Bool → Bool → Type 0
IsJustified run r cancelled closed =
    ((cancelled ≡ true) × (closed ≡ true))
    ⊎ ((closed ≡ false) × ((e : Error) × (r ≡ err e) × ListenFailed e run))

-- `Start` closes the server and returns for a reason only.
abbrev Justified : {s : StartState} → Reached s → Caller → Bool → Bool → Type 0
Justified run selecting cancelled closed = closed ≡ false
Justified run shutting_down cancelled closed = (cancelled ≡ true) × (closed ≡ true)
Justified run (started r) cancelled closed = IsJustified run r cancelled closed

record IsRunning (s : StartState) (run : Reached s) : Type 0 where
  not_sent : NotSent s
  -- What the goroutine sends and what the channel holds come from the listener.
  is_sending : (e : Error) → s.goroutine ≡ sending e → ListenFailed e run
  is_sent : (e : Error) → s.err_ch ≡ some e → ListenFailed e run
  justified : Justified run s.caller s.cancelled s.closed

later-Justified :
    {s t : StartState} (run : Reached s) (later : Reached t) (c : Caller)
    (cancelled closed after : Bool)
    → ((e : Error) → ListenFailed e run → ListenFailed e later)
    → (cancelled ≡ true → after ≡ true)
    → Justified run c cancelled closed
    → Justified later c after closed
later-Justified run later selecting cancelled closed after more still h = h
later-Justified run later shutting_down cancelled closed after more still h = (still h.0, h.1)
later-Justified run later (started r) cancelled closed after more still (inl h) =
    inl (still h.0, h.1)
later-Justified run later (started r) cancelled closed after more still
      (inr (not_closed, (e, is_e, failed))) =
    inr (not_closed, (e, is_e, more e failed))

sending-injective : (e e' : Error) → sending e ≡ sending e' → e ≡ e'
sending-injective e e' h = cc

after_listen-sending :
    (failure : ListenError) (e : Error)
    → after_listen failure ≡ sending e
    → failure ≡ listen_failed e
after_listen-sending server_closed e h = cc
after_listen-sending (listen_failed e') e h = cc

step-IsRunning :
    {s t : StartState} (run : Reached s) (one : StartStep s t)
    → IsRunning s run
    → IsRunning t (step run one)
step-IsRunning run (cancel s) h = record {
  not_sent = h.not_sent;
  is_sending = h.is_sending;
  is_sent = h.is_sent;
  justified =
      later-Justified run (step run (cancel s)) s.caller s.cancelled s.closed true (λ _ x. x)
        (λ _. refl) h.justified;
}
step-IsRunning run (listen s failure serves closes) h = record {
  not_sent = λ _. h.not_sent (λ x. cc);
  is_sending = λ e x. inl (after_listen-sending failure e x);
  is_sent = λ e x. inr (h.is_sent e x);
  justified =
      later-Justified run (step run (listen s failure serves closes)) s.caller s.cancelled s.closed
        s.cancelled (λ _ x. inr x) (λ x. x) h.justified;
}
step-IsRunning run (send s e sends room) h = record {
  not_sent = λ x. absurd (x refl);
  is_sending = λ e' x. cc;
  is_sent = λ e' x. subst (λ y. ListenFailed y run) (some-injective _ _ x) (h.is_sending e sends);
  justified =
      later-Justified run (step run (send s e sends room)) s.caller s.cancelled s.closed s.cancelled
        (λ _ x. x) (λ x. x) h.justified;
}
step-IsRunning run (receive s e selects sent) h = record {
  not_sent = λ _. refl;
  is_sending = h.is_sending;
  is_sent = λ e' x. cc;
  justified = inr (
    subst (λ c. Justified run c s.cancelled s.closed) selects h.justified,
    (e, refl, h.is_sent e sent),
  );
}
step-IsRunning run (done s selects cancelled) h = record {
  not_sent = h.not_sent;
  is_sending = h.is_sending;
  is_sent = h.is_sent;
  justified = (cancelled, refl);
}
step-IsRunning run (shut_down s r shuts) h = record {
  not_sent = h.not_sent;
  is_sending = h.is_sending;
  is_sent = h.is_sent;
  justified = inl (subst (λ c. Justified run c s.cancelled s.closed) shuts h.justified);
}

Reached-IsRunning : {s : StartState} (run : Reached s) → IsRunning s run
Reached-IsRunning initial = record {
  not_sent = λ _. refl;
  is_sending = λ e x. cc;
  is_sent = λ e x. cc;
  justified = refl;
}
Reached-IsRunning (step before one) = step-IsRunning before one (Reached-IsRunning before)

-- In every run of `Start`, if it has returned, then either the context had ended and `Shutdown` was
-- called, or the server was not closed and it returned an error with which the listener has failed
-- in this run.
pub started-IsJustified :
    (s : StartState) (r : Result (Unit {0})) (run : Reached s)
    → s.caller ≡ started r
    → IsJustified run r s.cancelled s.closed
started-IsJustified s r run returned =
    subst (λ c. Justified run c s.cancelled s.closed) returned (Reached-IsRunning run).justified

sending-ne-ended : (e : Error) → sending e ≢ ended
sending-ne-ended e h = cc

shutting_down-ne-selecting : shutting_down ≢ selecting
shutting_down-ne-selecting h = cc

started-ne-selecting : (r : Result (Unit {0})) → started r ≢ selecting
started-ne-selecting r h = cc

started-ne-shutting_down : (r : Result (Unit {0})) → started r ≢ shutting_down
started-ne-shutting_down r h = cc

-- A move of the caller.
abbrev CallerMoves : StartState → Type 0
CallerMoves s = (t : StartState) × StartStep s t × (t.caller ≢ s.caller)

caller_moves :
    (s : StartState) (c : Caller)
    → s.caller ≡ c
    → (s.cancelled ≡ true) ⊎ ((e : Error) × (s.err_ch ≡ some e))
    → ((r : Result (Unit {0})) → s.caller ≢ started r)
    → CallerMoves s
caller_moves s selecting at (inl over) waits =
    (_, done s at over, λ x. shutting_down-ne-selecting (x ∙ at))
caller_moves s selecting at (inr (e, sent)) waits =
    (_, receive s e at sent, λ x. started-ne-selecting (err e) (x ∙ at))
caller_moves s shutting_down at why waits =
    (_, shut_down s (ok tt) at, λ x. started-ne-shutting_down (ok tt) (x ∙ at))
caller_moves s (started r) at why waits = absurd (waits r at)

-- In every run of `Start` the goroutine that is about to send finds room in the channel and can
-- send, so it never hangs on that.
pub send_unblocked :
    (s : StartState) (e : Error)
    → Reached s
    → s.goroutine ≡ sending e
    → (t : StartState) × StartStep s t × (t.err_ch ≡ some e)
send_unblocked s e reached sends = (
  _,
  send s e sends ((Reached-IsRunning reached).not_sent (λ x. sending-ne-ended e (sym sends ∙ x))),
  refl,
)

-- Once the context has ended or an error is in the channel, a caller of `Start` that has not
-- returned can move on.
caller_unblocked :
    (s : StartState)
    → (s.cancelled ≡ true) ⊎ ((e : Error) × (s.err_ch ≡ some e))
    → ((r : Result (Unit {0})) → s.caller ≢ started r)
    → CallerMoves s
caller_unblocked s = caller_moves s s.caller refl
