-- ===== src/DeviceState.antt =====
-- src/device_state.c and include/device_state.h: the state machine of the user's presence.
-- The three static variables are the fields of `Device`; a function that reads the clock takes the
-- time `now` that it reads.
pub mod Timing
pub mod Machine
use ward3n.Base.{ℕ, Bool, true, false, not, ◌&&◌, if◌then◌else◌}
use ward3n.Base.Int.{is_le_zero}
use ward3n.Config.{auth_window_ms, wait_button_timeout_ms}
use ward3n.Pico.{Clock}

-- `dev_state_t`
pub data State : Type 0 where
  idle waiting_button authorized processing : State

pub record Device : Type 0 where
  pub state : State
  pub deadline : ℕ
  pub auth_consumed : Bool

-- `_state == DEV_STATE_...`
abbrev pub is_idle : State → Bool
is_idle idle = true
is_idle _ = false

abbrev pub is_waiting : State → Bool
is_waiting waiting_button = true
is_waiting _ = false

abbrev pub is_authorized_state : State → Bool
is_authorized_state authorized = true
is_authorized_state _ = false

-- `dev_state_init`; `_deadline` keeps its value.
unfoldable pub init : Device → Device
init d = record d { state = idle; auth_consumed = false }

-- The static initialisers, before `main`.
abbrev pub at_boot : Device
at_boot = record { state = idle; deadline = 0; auth_consumed = false }

-- The two cases of `dev_state_tick` by the state; `expired` is its test of the deadline.
abbrev pub tick_state : State → Bool → Device → Device
tick_state waiting_button expired d = if expired then record d { state = idle } else d
tick_state authorized expired d =
    if expired then record d { auth_consumed = true; state = idle } else d
tick_state _ _ d = d

-- `dev_state_get`
abbrev pub get : Device → State
get d = d.state

module _ (clock : Clock) where
  unfoldable pub tick : ℕ → Device → Device
  tick now d = tick_state d.state (is_le_zero (clock.absolute_time_diff_us now d.deadline)) d

  unfoldable pub request_auth : ℕ → Device → Device
  request_auth now d =
      if is_idle d.state
      then record d {
        state = waiting_button;
        deadline = clock.make_timeout_time_ms now wait_button_timeout_ms;
      }
      else d

  unfoldable pub button_pressed : ℕ → Device → Device
  button_pressed now d =
      if is_waiting d.state
      then record d {
        auth_consumed = false;
        state = authorized;
        deadline = clock.make_timeout_time_ms now auth_window_ms;
      }
      else d

unfoldable pub begin_processing : Device → Device
begin_processing d = if is_authorized_state d.state then record d { state = processing } else d

unfoldable pub op_complete : Device → Device
op_complete d = record d { state = idle }

unfoldable pub is_authorized : Device → Bool
is_authorized d = is_authorized_state d.state && not d.auth_consumed

-- The value returned is the second part.
unfoldable pub consume_auth : Device → Device × Bool
consume_auth d =
    if is_authorized_state d.state && not d.auth_consumed
    then (record d { auth_consumed = true }, true)
    else (d, false)
