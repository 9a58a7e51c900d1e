-- ===== src/DeviceState/Machine.antt =====
-- The state machine that include/device_state.h documents, as a relation, and the operations of
-- src/device_state.c as its moves. WAITING_BUTTON, AUTHORIZED and their two timeouts are as documented;
-- PROCESSING is passed through inside one message, from AUTHORIZED to IDLE.
use ward3n.Base.{ℕ, ◌≤◌, ◌≡◌, ◌≢◌, refl, List, [], ◌∷◌, if◌then◌else◌, Bool, true, false}
use ward3n.Base.Int.{is_le_zero}
use ward3n.DeviceState.Timing.{expired_iff}
use ward3n.Pico.{Clock}
use ward3n.DeviceState.{
  State, idle, waiting_button, authorized, processing, Device, init, tick, request_auth, tick,
  tick_state, button_pressed, begin_processing, op_complete, consume_auth, is_authorized,
}

-- What a move has come from: a message at a time, a press that was confirmed at a time, the loop's tick
-- at a time, TinyUSB's unmount, and all else.
pub data Cause : Type 0 where
  message : ℕ → Cause
  press : ℕ → Cause
  clock_tick : ℕ → Cause
  unmounted : Cause
  other : Cause

module _ (clock : Clock) where
  pub data Move : Cause → Device → Device → Type 0 where
    stays : {k : Cause} {d : Device} → Move k d d
    -- IDLE to WAITING_BUTTON, for thirty seconds
    asks :
        {now : ℕ} {d : Device}
        → d.state ≡ idle
        → Move
            (message now)
            d
            (record d { state = waiting_button; deadline = clock.make_timeout_time_ms now 30000 })
    -- WAITING_BUTTON to AUTHORIZED, for ten seconds
    grants :
        {now : ℕ} {d : Device}
        → d.state ≡ waiting_button
        → Move (press now) d (record {
          state = authorized;
          deadline = clock.make_timeout_time_ms now 10000;
          auth_consumed = false;
        })
    -- AUTHORIZED, through PROCESSING, to IDLE
    performs :
        {now : ℕ} {d : Device}
        → d.state ≡ authorized
        → d.auth_consumed ≡ false
        → Move (message now) d (record d { state = idle; auth_consumed = true })
    -- The two timeouts
    gives_up :
        {now : ℕ} {d : Device}
        → d.state ≡ waiting_button
        → d.deadline ≤ now
        → Move (clock_tick now) d (record d { state = idle })
    expires :
        {now : ℕ} {d : Device}
        → d.state ≡ authorized
        → d.deadline ≤ now
        → Move (clock_tick now) d (record d { state = idle; auth_consumed = true })
    starts_over : {d : Device} → Move unmounted d (record d { state = idle; auth_consumed = false })

  -- A move does not end in PROCESSING.
  pub Move-settled :
      {k : Cause} {d d' : Device} → Move k d d' → d.state ≢ processing → d'.state ≢ processing
  Move-settled stays h = h
  Move-settled (asks e) h = λ p. cc
  Move-settled (grants e) h = λ p. cc
  Move-settled (performs e c) h = λ p. cc
  Move-settled (gives_up e c) h = λ p. cc
  Move-settled (expires e c) h = λ p. cc
  Move-settled starts_over h = λ p. cc

  abbrev of_parts : State → ℕ → Bool → Device
  of_parts s t c = record { state = s; deadline = t; auth_consumed = c }

  -- A request for a signature: without an authorization it is asked for, and else it is used up, on the
  -- way through PROCESSING.
  unfoldable pub request : ℕ → Device → Device
  request now d =
      if is_authorized d
      then op_complete (begin_processing (consume_auth d).0)
      else request_auth clock now d

  request-by_state :
      (now : ℕ) (s : State) (t : ℕ) (c : Bool)
      → Move (message now) (of_parts s t c) (request now (of_parts s t c))
  unfolding request request_auth is_authorized consume_auth begin_processing op_complete
  request-by_state now idle t c = asks refl
  request-by_state now waiting_button t c = stays
  request-by_state now authorized t false = performs refl refl
  request-by_state now authorized t true = stays
  request-by_state now processing t c = stays

  pub request-Move : (now : ℕ) (d : Device) → Move (message now) d (request now d)
  request-Move now d = request-by_state now d.state d.deadline d.auth_consumed

  press-by_state :
      (now : ℕ) (s : State) (t : ℕ) (c : Bool)
      → Move (press now) (of_parts s t c) (button_pressed clock now (of_parts s t c))
  unfolding button_pressed
  press-by_state now idle t c = stays
  press-by_state now waiting_button t c = grants refl
  press-by_state now authorized t c = stays
  press-by_state now processing t c = stays

  pub press-Move : (now : ℕ) (d : Device) → Move (press now) d (button_pressed clock now d)
  press-Move now d = press-by_state now d.state d.deadline d.auth_consumed

  -- The tick, by its test of the deadline
  tick-by_state :
      (now : ℕ) (s : State) (t : ℕ) (c late : Bool)
      → (late ≡ true → t ≤ now)
      → Move (clock_tick now) (of_parts s t c) (tick_state s late (of_parts s t c))
  tick-by_state now idle t c late h = stays
  tick-by_state now waiting_button t c true h = gives_up refl (h refl)
  tick-by_state now waiting_button t c false h = stays
  tick-by_state now authorized t c true h = expires refl (h refl)
  tick-by_state now authorized t c false h = stays
  tick-by_state now processing t c late h = stays

  pub tick-Move : (now : ℕ) (d : Device) → Move (clock_tick now) d (tick clock now d)
  unfolding tick
  tick-Move now d =
      tick-by_state now d.state d.deadline d.auth_consumed
        (is_le_zero (clock.absolute_time_diff_us now d.deadline))
        (expired_iff clock now d.deadline).0

  pub init-Move : (d : Device) → Move unmounted d (init d)
  unfolding init
  init-Move d = starts_over

-- A sequence of moves with their causes.
pub data Walk (clock : Clock) : List Cause → Device → Device → Type 0 where
  here : {d : Device} → Walk clock [] d d
  onward :
      {k : Cause} {ks : List Cause} {d d' e : Device}
      → Move clock k d d'
      → Walk clock ks d' e
      → Walk clock (k ∷ ks) d e

pub Walk-settled :
    (clock : Clock) {ks : List Cause} {d e : Device}
    → Walk clock ks d e
    → d.state ≢ processing
    → e.state ≢ processing
Walk-settled clock here h = h
Walk-settled clock (onward m rest) h = Walk-settled clock rest (Move-settled clock m h)
