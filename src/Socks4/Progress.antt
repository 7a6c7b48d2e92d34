-- ===== src/Socks4/Progress.antt =====
-- SOCKS4.hpp: events that answer nothing, and the reply to a read.
use moose_tools.Prelude.{
  ℕ, ◌≡◌, refl, ap, true, some, List, [], ◌∷◌, Bytes, ◌==◌, length, arith, ◌∙◌, All,
}
use moose_tools.Asio.{ErrorCode, Device, cancel}
use moose_tools.Socks4.{
  State, Handshake, Action, async_resolve, async_read, on_transfer, received, transferred,
}
use moose_tools.Socks4.Run.{
  Config, Event, resolves, writes, reads, expires, timer_runs, settle, react, step, run,
}

abbrev pub IsTimer : Event → Type 0
IsTimer expires = Unit
IsTimer timer_runs = Unit
IsTimer _ = ⊥

on_transfer_read :
    (h : Handshake) (d : Device) (e : ErrorCode)
    → h.state ≡ State.handle_read_response
    → on_transfer h d e ≡ received h (cancel d) e
unfolding on_transfer transferred
on_transfer_read h d e s = ap (transferred h d e) s

-- A reply of the right length, while it is read, goes to the reading branch of the handler.
pub react_read :
    (h : Handshake) (d : Device) (n : ℕ) (e : ErrorCode) (reply : Bytes)
    → h.state ≡ State.handle_read_response
    → length reply ≡ n
    → react
        (record { operation = h; device = d; pending = async_read n })
        (async_read n)
        (reads e reply)
      ≡ settle (received (record h { reply_buffer = some reply }) (cancel d) e)
unfolding react
react_read h d n e reply s l =
    let same : (length reply == n) ≡ true = ground arith in
    rw (same, react) (ap settle (on_transfer_read (record h { reply_buffer = some reply }) d e s))

react_timer :
    (h : Handshake) (d : Device) (a : Action) (e : Event)
    → IsTimer e
    → (react (record { operation = h; device = d; pending = a }) a e).pending ≡ a
unfolding react
react_timer h d async_resolve expires t = refl
react_timer h d _ expires t = refl
react_timer h d async_resolve timer_runs t = refl
react_timer h d _ timer_runs t = refl
react_timer h d a (resolves _ _) t = absurd t
react_timer h d a (writes _) t = absurd t
react_timer h d a (reads _ _) t = absurd t

pub run_timers : (c : Config) (es : List Event) → All IsTimer es → (run c es).pending ≡ c.pending
unfolding run step
run_timers c [] t = refl
run_timers c (e ∷ es) (t, ts) =
    run_timers (step c e) es ts ∙ react_timer c.operation c.device c.pending e t
