-- ===== src/Button/Interleaving.antt =====
-- The poll of src/button.c with the button's interrupt between any two of its steps, against the poll at
-- one go.
use ward3n.Base.{
  ℕ, ◌+◌, ◌≤◌, ◌≡◌, refl, ◌∙◌, sym, ap, List, [], ◌∷◌, ◌++◌, arith, append_assoc, append-nil,
}
use mathlib.Core.Path.{subst}
use ward3n.Pico.{Clock}
use ward3n.DeviceState.{Device}
use ward3n.Button.{Button, gpio_irq, was_pressed}
use ward3n.Button.Debounce.{edges, edges-seen, edges-append}
use ward3n.Button.Interrupted.{IsWaiting, IsSeen, IsCleared, Holds, HoldsAt, poll_step-Holds}
use ward3n.Button.Poll.{
  Pc, entry, low, high, timed, clearing, sampling, confirming, notifying, returned, Poll, Turn, own,
  irq, irqs, steps, steps_left, poll_step, interleave, IsAtomic,
}

module _ (clock : Clock) (now pressed_at level : ℕ) (b : Button) (d : Device) where
  abbrev Inv : List (ℕ × ℕ) → Pc → Button → Device → Type 0
  Inv = Holds clock now pressed_at level b d

  abbrev InvAt : List (ℕ × ℕ) → Poll → Type 0
  InvAt = HoldsAt clock now pressed_at level b d

  abbrev Waiting : List (ℕ × ℕ) → Button → Device → Type 0
  Waiting = IsWaiting clock now pressed_at level b d

  abbrev Seen : List (ℕ × ℕ) → Button → Device → Type 0
  Seen = IsSeen clock now pressed_at level b d

  abbrev Cleared : (Button → Button) → List (ℕ × ℕ) → Button → Device → Type 0
  Cleared = IsCleared clock now pressed_at level b d

  gpio_irq-IsWaiting :
      {es : List (ℕ × ℕ)} {b' : Button} {d' : Device} (at gpio : ℕ)
      → Waiting es b' d'
      → Waiting (es ++ (at, gpio) ∷ []) (gpio_irq at gpio b') d'
  unfolding edges
  gpio_irq-IsWaiting {es} at gpio w = record {
    button_lem = ap (gpio_irq at gpio) w.button_lem ∙ sym (edges-append es ((at, gpio) ∷ []) b);
    device_lem = w.device_lem;
  }

  -- What the poll has seen stays as it is.
  gpio_irq-IsSeen :
      {es : List (ℕ × ℕ)} {b' : Button} {d' : Device} (at gpio : ℕ)
      → Seen es b' d'
      → Seen (es ++ (at, gpio) ∷ []) b' d'
  unfolding edges
  gpio_irq-IsSeen {es} {b'} {d'} at gpio h = record {
    waiting =
        subst (λ t. Waiting (es ++ (at, gpio) ∷ []) t d') (edges-seen ((at, gpio) ∷ []) b' h.seen)
          (gpio_irq-IsWaiting at gpio h.waiting);
    seen = h.seen;
  }

  gpio_irq-IsCleared :
      {f : Button → Button} {es : List (ℕ × ℕ)} {b' : Button} {d' : Device} (at gpio : ℕ)
      → Cleared f es b' d'
      → Cleared f (es ++ (at, gpio) ∷ []) (gpio_irq at gpio b') d'
  unfolding edges
  gpio_irq-IsCleared {f} at gpio h = record {
    before = h.before;
    after = h.after ++ (at, gpio) ∷ [];
    split =
        ap (λ t. t ++ (at, gpio) ∷ []) h.split ∙ append_assoc h.before h.after ((at, gpio) ∷ []);
    seen = h.seen;
    settled = h.settled;
    button_lem =
        ap (gpio_irq at gpio) h.button_lem
        ∙ sym (edges-append h.after ((at, gpio) ∷ []) (f (edges h.before b)));
    device_lem = h.device_lem;
  }

  seen_still :
      {es : List (ℕ × ℕ)} {b' : Button} {d' : Device} (at gpio : ℕ)
      → Seen es b' d'
      → b' ≡ gpio_irq at gpio b'
  unfolding edges
  seen_still {b'} at gpio h = sym (edges-seen ((at, gpio) ∷ []) b' h.seen)

  irq-Holds :
      (es : List (ℕ × ℕ)) (pc : Pc) (b' : Button) (d' : Device) (at gpio : ℕ)
      → Inv es pc b' d'
      → Inv (es ++ (at, gpio) ∷ []) pc (gpio_irq at gpio b') d'
  unfolding edges
  irq-Holds es entry b' d' at gpio h = gpio_irq-IsWaiting at gpio h
  irq-Holds es low b' d' at gpio h =
      subst (λ t. Inv (es ++ (at, gpio) ∷ []) low t d') (seen_still at gpio h)
        (gpio_irq-IsSeen at gpio h)
  irq-Holds es (high lo) b' d' at gpio h =
      subst (λ t. Inv (es ++ (at, gpio) ∷ []) (high lo) t d') (seen_still at gpio h.0)
        (gpio_irq-IsSeen at gpio h.0, h.1)
  irq-Holds es (timed t) b' d' at gpio h =
      subst (λ u. Inv (es ++ (at, gpio) ∷ []) (timed t) u d') (seen_still at gpio h.0)
        (gpio_irq-IsSeen at gpio h.0, h.1)
  irq-Holds es clearing b' d' at gpio h =
      subst (λ t. Inv (es ++ (at, gpio) ∷ []) clearing t d') (seen_still at gpio h.0)
        (gpio_irq-IsSeen at gpio h.0, h.1)
  irq-Holds es sampling b' d' at gpio h = gpio_irq-IsCleared at gpio h
  irq-Holds es confirming b' d' at gpio h = (gpio_irq-IsCleared at gpio h.0, h.1)
  irq-Holds es notifying b' d' at gpio h = (gpio_irq-IsCleared at gpio h.0, h.1)
  irq-Holds es (returned pressed) b' d' at gpio (before, after, split, left) = (
    before,
    after ++ (at, gpio) ∷ [],
    ap (λ t. t ++ (at, gpio) ∷ []) split ∙ append_assoc before after ((at, gpio) ∷ []),
    ap (λ (t : Poll). record t { button = gpio_irq at gpio t.button }) left
        ∙ ap
            (λ (t : Button). record {
              pc = returned (was_pressed clock now pressed_at level (edges before b) d).2;
              button = t;
              device = (was_pressed clock now pressed_at level (edges before b) d).1;
            })
            (sym (
              edges-append after ((at, gpio) ∷ [])
                (was_pressed clock now pressed_at level (edges before b) d).0)),
  )

  interleave-Holds :
      (turns : List Turn) (es : List (ℕ × ℕ)) (s : Poll)
      → InvAt es s
      → InvAt (es ++ irqs turns) (interleave clock now pressed_at level turns s)
  unfolding interleave
  interleave-Holds [] es s h = rw (append-nil es) h
  interleave-Holds (own ∷ rest) es s h =
      interleave-Holds rest es (poll_step clock now pressed_at level s.pc s.button s.device)
        (poll_step-Holds clock now pressed_at level b d es s.pc s.button s.device h)
  interleave-Holds (irq at gpio ∷ rest) es s h =
      let s' : Poll = record s { button = gpio_irq at gpio s.button } in
      subst (λ t. InvAt t (interleave clock now pressed_at level rest s'))
        (append_assoc es ((at, gpio) ∷ []) (irqs rest))
        (interleave-Holds rest (es ++ (at, gpio) ∷ []) s'
          (irq-Holds es s.pc s.button s.device at gpio h))

  poll_step-left :
      (pc : Pc) (b' : Button) (d' : Device) (n : ℕ)
      → steps_left pc ≤ 1 + n
      → steps_left (poll_step clock now pressed_at level pc b' d').pc ≤ n
  unfolding poll_step
  poll_step-left pc b' d' n h = ground arith

  interleave-left :
      (turns : List Turn) (s : Poll) (n : ℕ)
      → steps_left s.pc ≤ n + steps turns
      → steps_left (interleave clock now pressed_at level turns s).pc ≤ n
  unfolding interleave
  interleave-left [] s n h = omega arith
  interleave-left (own ∷ rest) s n h =
      interleave-left rest (poll_step clock now pressed_at level s.pc s.button s.device) n
        (poll_step-left s.pc s.button s.device (n + steps rest) (omega arith))
  interleave-left (irq at gpio ∷ rest) s n h =
      interleave-left rest (record s { button = gpio_irq at gpio s.button }) n h

  done :
      (es : List (ℕ × ℕ)) (pc : Pc) (b' : Button) (d' : Device)
      → steps_left pc ≤ 0
      → Inv es pc b' d'
      → IsAtomic clock now pressed_at level b d es (record { pc = pc; button = b'; device = d' })
  done es (returned pressed) b' d' none_left h = h
  done es _ b' d' none_left h = absurd (omega arith)

  -- Interrupts may come between any two steps of the poll, also between the two loads of its 64-bit
  -- time, in any number and on any pins. In every schedule that gives the poll eight steps it has
  -- returned, and its result, the button and the device are those of the poll at one go, behind a
  -- first part of the interrupts and in front of the rest.
  pub interleave-IsAtomic :
      (turns : List Turn)
      → 8 ≤ steps turns
      → IsAtomic clock now pressed_at level b d (irqs turns) (
          interleave clock now pressed_at level turns
            (record { pc = entry; button = b; device = d }))
  unfolding edges
  interleave-IsAtomic turns enough =
      let start : Poll = record { pc = entry; button = b; device = d } in
      let end : Poll = interleave clock now pressed_at level turns start in
      done (irqs turns) end.pc end.button end.device (interleave-left turns start 0 (omega arith))
        (interleave-Holds turns [] start (record { button_lem = refl; device_lem = refl }))
