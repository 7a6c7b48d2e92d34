-- ===== src/Asio/Quiet.antt =====
-- The socket behind an operation that has completed, whose timer may still have a handler to run: one
-- that closes the socket unless the wait was aborted.
use moose_tools.Prelude.{
  ◌↔◌, List, [], ◌∷◌, true, still_false, ◌≡◌, refl, ap, sym, subst, false, ◌∙◌, ◌⊎◌, inl, inr,
}
use moose_tools.Asio.{ErrorCode, Timer, Device, close, run_timer, expired_timer, cancelled_timer}

-- A timer whose handler will not close the socket any more.
abbrev pub IsHarmless : Timer → Type 0
IsHarmless Timer.waiting = ⊥
IsHarmless Timer.expired = ⊥
IsHarmless _ = Unit

-- The socket as it is, and the timer still harmless.
abbrev pub Leaves : Device → Device → Type 0
Leaves d d' = (d'.is_open ≡ d.is_open) × IsHarmless d'.timer

-- Nothing that the timer does changes whether the socket is open.
abbrev pub IsQuiet : Device → Type 0
IsQuiet d = IsHarmless d.timer ⊎ (d.is_open ≡ false)

pub expired-IsHarmless : (t : Timer) → IsHarmless t → IsHarmless (expired_timer t)
expired-IsHarmless Timer.unused h = tt
expired-IsHarmless Timer.waiting h = absurd h
expired-IsHarmless Timer.cancelled h = tt
expired-IsHarmless Timer.expired h = absurd h
expired-IsHarmless Timer.finished h = tt

-- No wait is under way.
abbrev pub IsIdle : Timer → Type 0
IsIdle Timer.waiting = ⊥
IsIdle _ = Unit

pub cancelled-IsIdle : (t : Timer) → IsIdle (cancelled_timer t)
cancelled-IsIdle Timer.waiting = tt
cancelled-IsIdle Timer.unused = tt
cancelled-IsIdle Timer.cancelled = tt
cancelled-IsIdle Timer.expired = tt
cancelled-IsIdle Timer.finished = tt

pub expired-IsIdle : (t : Timer) → IsIdle (expired_timer t)
expired-IsIdle Timer.waiting = tt
expired-IsIdle Timer.unused = tt
expired-IsIdle Timer.cancelled = tt
expired-IsIdle Timer.expired = tt
expired-IsIdle Timer.finished = tt

pub ran-IsIdle :
    (handler : ErrorCode → Device → Device) (d : Device) (t : Timer)
    → d.timer ≡ t
    → IsIdle t
    → IsIdle (run_timer handler d t).timer
ran-IsIdle handler d Timer.waiting e i = absurd i
ran-IsIdle handler d Timer.unused e i = rw e tt
ran-IsIdle handler d Timer.cancelled e i = tt
ran-IsIdle handler d Timer.expired e i = tt
ran-IsIdle handler d Timer.finished e i = rw e tt

module _ (handler : ErrorCode → Device → Device)
    (aborted : (d : Device) → handler ErrorCode.operation_aborted d ≡ d)
    (ended : (d : Device) → handler ErrorCode.success d ≡ close d) where
  pub ran-Leaves :
      (d : Device) (t : Timer) → d.timer ≡ t → IsHarmless t → Leaves d (run_timer handler d t)
  ran-Leaves d Timer.unused e h = (refl, subst IsHarmless (sym e) h)
  ran-Leaves d Timer.waiting e h = absurd h
  ran-Leaves d Timer.cancelled e h = (ap (λ (b : Device). b.is_open) (aborted d), tt)
  ran-Leaves d Timer.expired e h = absurd h
  ran-Leaves d Timer.finished e h = (refl, subst IsHarmless (sym e) h)

  -- The time of a wait may be over, and then its handler runs: what shows that nothing is left.
  pub IsQuiet-of_run :
      (d : Device) (t : Timer)
      → d.timer ≡ t
      → (run_timer handler (record d { timer = expired_timer t }) (expired_timer t)).is_open
        ≡ d.is_open
      → IsQuiet d
  IsQuiet-of_run d Timer.unused e s = inl (subst IsHarmless (sym e) tt)
  IsQuiet-of_run d Timer.cancelled e s = inl (subst IsHarmless (sym e) tt)
  IsQuiet-of_run d Timer.finished e s = inl (subst IsHarmless (sym e) tt)
  IsQuiet-of_run d Timer.waiting e s =
      inr (sym s ∙ ap (λ (b : Device). b.is_open) (ended (record d { timer = Timer.expired })))
  IsQuiet-of_run d Timer.expired e s =
      inr (sym s ∙ ap (λ (b : Device). b.is_open) (ended (record d { timer = Timer.expired })))

-- An operation with its environment, as it goes on behind its completion: `lapses` lets the time of a
-- wait be over, and `fires` runs the timer's handler.
pub record Machine (handler : ErrorCode → Device → Device) : Type 1 where
  pub Config : Type 0
  pub Event : Type 0
  pub step : Config → Event → Config
  pub run : Config → List Event → Config
  pub run_nil : (c : Config) → run c [] ≡ c
  pub run_cons : (c : Config) (e : Event) (es : List Event) → run c (e ∷ es) ≡ run (step c e) es
  pub device : Config → Device
  pub IsDone : Config → Type 0
  pub step-IsDone : (c : Config) (e : Event) → IsDone c → IsDone (step c e)
  pub step-Leaves :
      (c : Config) (e : Event)
      → IsDone c
      → IsHarmless (device c).timer
      → Leaves (device c) (device (step c e))
  pub step-Opens :
      (c : Config) (e : Event)
      → IsDone c
      → (device (step c e)).is_open ≡ true
      → (device c).is_open ≡ true
  pub lapses : Event
  pub fires : Event
  pub timed :
      (c : Config)
      → IsDone c
      → device (run c (lapses ∷ fires ∷ []))
        ≡ run_timer handler
            (record (device c) { timer = expired_timer (device c).timer })
            (expired_timer (device c).timer)

module _ (handler : ErrorCode → Device → Device)
    (aborted : (d : Device) → handler ErrorCode.operation_aborted d ≡ d)
    (ended : (d : Device) → handler ErrorCode.success d ≡ close d) (m : Machine handler) where
  run-harmless :
      (c : m.Config) (es : List m.Event)
      → m.IsDone c
      → IsHarmless (m.device c).timer
      → (m.device (m.run c es)).is_open ≡ (m.device c).is_open
  run-harmless c [] p h = rw m.run_nil refl
  run-harmless c (e ∷ es) p h =
      let (same, quiet) = m.step-Leaves c e p h in
      rw m.run_cons (run-harmless (m.step c e) es (m.step-IsDone c e p) quiet ∙ same)

  run-closed :
      (c : m.Config) (es : List m.Event)
      → m.IsDone c
      → (m.device c).is_open ≡ false
      → (m.device (m.run c es)).is_open ≡ false
  run-closed c [] p o = rw m.run_nil o
  run-closed c (e ∷ es) p o = rw m.run_cons (
      run-closed (m.step c e) es (m.step-IsDone c e p)
        (still_false (m.device c).is_open (m.device (m.step c e)).is_open (m.step-Opens c e p) o))

  pub left_alone :
      (c : m.Config)
      → m.IsDone c
      → ((es : List m.Event) → (m.device (m.run c es)).is_open ≡ (m.device c).is_open)
        ↔ IsQuiet (m.device c)
  left_alone c p = (
    λ same.
        IsQuiet-of_run handler aborted ended (m.device c) (m.device c).timer refl
          (sym (ap (λ (d : Device). d.is_open) (m.timed c p)) ∙ same (m.lapses ∷ m.fires ∷ [])),
    λ left es. elim left [ inl h ↦ run-harmless c es p h | inr o ↦ run-closed c es p o ∙ sym o ],
  )
