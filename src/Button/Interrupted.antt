-- ===== src/Button/Interrupted.antt =====
-- What holds at each step of the poll of src/button.c, whatever interrupts have come in between.
use ward3n.Base.{
  ℕ, ◌%◌, ◌^◌, ◌≡◌, refl, ◌∙◌, sym, ap, Bool, true, false, not, List, [], ◌++◌, arith, ◌==◌,
  if◌then◌else◌, Bool-cases, inl, inr, append-nil,
}
use mathlib.Core.Path.{subst}
use ward3n.Pico.{Clock}
use ward3n.DeviceState.{Device, button_pressed}
use ward3n.Button.{Button, is_bouncing, was_pressed}
use ward3n.Button.Debounce.{edges, edges-confirmed}
use ward3n.Button.Poll.{
  Pc, entry, low, high, timed, clearing, sampling, confirming, notifying, returned, Poll, poll_step,
  IsAtomic,
}

module _ (clock : Clock) (now pressed_at level : ℕ) (b : Button) (d : Device) where
  -- Until the poll clears _edge_seen the interrupts leave alone what it has seen.
  pub record IsWaiting (es : List (ℕ × ℕ)) (b' : Button) (d' : Device) : Type 0 where
    pub button_lem : b' ≡ edges es b
    pub device_lem : d' ≡ d

  pub record IsSeen (es : List (ℕ × ℕ)) (b' : Button) (d' : Device) : Type 0 where
    pub waiting : IsWaiting es b' d'
    pub seen : b'.edge_seen ≡ true

  -- Behind the clearing, with what the poll has done to the button
  pub record IsCleared (f : Button → Button) (es : List (ℕ × ℕ)) (b' : Button) (d' : Device)
      : Type 0 where
    pub before : List (ℕ × ℕ)
    pub after : List (ℕ × ℕ)
    pub split : es ≡ before ++ after
    pub seen : (edges before b).edge_seen ≡ true
    pub settled : is_bouncing clock now (edges before b) ≡ false
    pub button_lem : b' ≡ edges after (f (edges before b))
    pub device_lem : d' ≡ d

  abbrev pub cleared : Button → Button
  cleared t = record t { edge_seen = false }

  abbrev pub confirmed : Button → Button
  confirmed t = record t { edge_seen = false; press_confirmed = true }

  abbrev pub Holds : List (ℕ × ℕ) → Pc → Button → Device → Type 0
  Holds es entry b' d' = IsWaiting es b' d'
  Holds es low b' d' = IsSeen es b' d'
  Holds es (high lo) b' d' = IsSeen es b' d' × (lo ≡ b'.edge_time % 2 ^ 32)
  Holds es (timed t) b' d' = IsSeen es b' d' × (t ≡ b'.edge_time)
  Holds es clearing b' d' = IsSeen es b' d' × (is_bouncing clock now b' ≡ false)
  Holds es sampling b' d' = IsCleared cleared es b' d'
  Holds es confirming b' d' = IsCleared cleared es b' d' × (level ≡ 0)
  Holds es notifying b' d' = IsCleared confirmed es b' d' × (level ≡ 0)
  Holds es (returned pressed) b' d' =
      IsAtomic clock now pressed_at level b d es
        (record { pc = returned pressed; button = b'; device = d' })

  abbrev pub HoldsAt : List (ℕ × ℕ) → Poll → Type 0
  HoldsAt es s = Holds es s.pc s.button s.device

  -- The four ways through the poll at one go
  unseen_lem :
      (t : Button)
      → t.edge_seen ≡ false
      → was_pressed clock now pressed_at level t d ≡ (t, d, false)
  unfolding was_pressed
  unseen_lem t unseen = ground arith

  bouncing_lem :
      (t : Button)
      → t.edge_seen ≡ true
      → is_bouncing clock now t ≡ true
      → was_pressed clock now pressed_at level t d ≡ (t, d, false)
  unfolding was_pressed
  bouncing_lem t seen bouncing = rw (seen, bouncing) refl

  released_lem :
      (t : Button)
      → t.edge_seen ≡ true
      → is_bouncing clock now t ≡ false
      → (level == 0) ≡ false
      → was_pressed clock now pressed_at level t d ≡ (cleared t, d, false)
  unfolding was_pressed
  released_lem t seen settled up = rw (seen, settled, up) refl

  pressed_lem :
      (t : Button)
      → t.edge_seen ≡ true
      → is_bouncing clock now t ≡ false
      → (level == 0) ≡ true
      → was_pressed clock now pressed_at level t d
        ≡ (confirmed t, button_pressed clock pressed_at d, true)
  unfolding was_pressed
  pressed_lem t seen settled down = rw (seen, settled, down) refl

  atomic :
      (before after es : List (ℕ × ℕ)) (t b' : Button) (t' d' : Device) (pressed : Bool)
      → es ≡ before ++ after
      → was_pressed clock now pressed_at level (edges before b) d ≡ (t, t', pressed)
      → b' ≡ edges after t
      → d' ≡ t'
      → Holds es (returned pressed) b' d'
  atomic before after es t b' t' d' pressed split whole left_button left_device =
      (before, after, split, rw (whole, left_button, left_device) refl)

  seen_of :
      {es : List (ℕ × ℕ)} {b' : Button} {d' : Device} {seen : Bool}
      → IsWaiting es b' d'
      → b'.edge_seen ≡ seen
      → (edges es b).edge_seen ≡ seen
  seen_of w e = ap (λ (t : Button). t.edge_seen) (sym w.button_lem) ∙ e

  bouncing_of :
      {es : List (ℕ × ℕ)} {b' : Button} {d' : Device} {bouncing : Bool}
      → IsWaiting es b' d'
      → is_bouncing clock now b' ≡ bouncing
      → is_bouncing clock now (edges es b) ≡ bouncing
  bouncing_of w e = ap (is_bouncing clock now) (sym w.button_lem) ∙ e

  pub poll_step-Holds :
      (es : List (ℕ × ℕ)) (pc : Pc) (b' : Button) (d' : Device)
      → Holds es pc b' d'
      → HoldsAt es (poll_step clock now pressed_at level pc b' d')
  unfolding poll_step edges
  poll_step-Holds es entry b' d' h =
      let Goal : Bool → Type 0 = λ u. Holds es (if not u then returned false else low) b' d' in
      elim (Bool-cases b'.edge_seen) [
        | inl seen ↦ subst Goal (sym seen) (record { waiting = h; seen = seen })
        | inr unseen ↦ subst Goal (sym unseen) (
            atomic es [] es (edges es b) b' d d' false (sym (append-nil es))
              (unseen_lem (edges es b) (seen_of h unseen)) h.button_lem h.device_lem)
      ]
  poll_step-Holds es low b' d' h = (h, refl)
  poll_step-Holds es (high lo) b' d' h = (h.0, omega (arith, h.1))
  poll_step-Holds es (timed t) b' d' h =
      let Goal : Bool → Type 0 = λ u. Holds es (if u then returned false else clearing) b' d' in
      let same : t ≡ b'.edge_time = h.1 in
      let w : IsWaiting es b' d' = h.0.waiting in
      elim (Bool-cases (is_bouncing clock now b')) [
        | inl bouncing ↦ rw same (
            subst Goal (sym bouncing) (
              atomic es [] es (edges es b) b' d d' false (sym (append-nil es))
                (bouncing_lem (edges es b) (seen_of w h.0.seen) (bouncing_of w bouncing))
                w.button_lem w.device_lem))
        | inr settled ↦ rw same (subst Goal (sym settled) (h.0, settled))
      ]
  poll_step-Holds es clearing b' d' h = record {
    before = es;
    after = [];
    split = sym (append-nil es);
    seen = seen_of h.0.waiting h.0.seen;
    settled = bouncing_of h.0.waiting h.1;
    button_lem = ap cleared h.0.waiting.button_lem;
    device_lem = h.0.waiting.device_lem;
  }
  poll_step-Holds es sampling b' d' h = elim (Bool-cases (level == 0)) [
    | inl down ↦ rw down (h, ground arith)
    | inr up ↦ rw up (
        atomic h.before h.after es (cleared (edges h.before b)) b' d d' false h.split
          (released_lem (edges h.before b) h.seen h.settled up) h.button_lem h.device_lem)
  ]
  poll_step-Holds es confirming b' d' h =
      let t : Button = edges h.0.before b in
      (
        record {
          before = h.0.before;
          after = h.0.after;
          split = h.0.split;
          seen = h.0.seen;
          settled = h.0.settled;
          button_lem =
              ap (λ (u : Button). record u { press_confirmed = true }) h.0.button_lem
              ∙ edges-confirmed h.0.after (cleared t);
          device_lem = h.0.device_lem;
        },
        h.1,
      )
  poll_step-Holds es notifying b' d' h =
      let t : Button = edges h.0.before b in
      let down : (level == 0) ≡ true = rw (h.1) refl in
      atomic h.0.before h.0.after es (confirmed t) b' (button_pressed clock pressed_at d)
        (button_pressed clock pressed_at d') true h.0.split
        (pressed_lem t h.0.seen h.0.settled down) h.0.button_lem
        (ap (button_pressed clock pressed_at) h.0.device_lem)
  poll_step-Holds es (returned pressed) b' d' h = h
