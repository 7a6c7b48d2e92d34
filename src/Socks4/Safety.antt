-- ===== src/Socks4/Safety.antt =====
-- SOCKS4.hpp: no assertion fails and no buffer is overrun, whatever the environment does.
use moose_tools.Prelude.{
  ℕ, ◌≡◌, refl, Option, none, some, List, [], ◌∷◌, Bytes, ◌==◌, length, arith, Bool-cases, inl, inr,
  ap, ◌⊎◌,
}
use moose_tools.Asio.{ErrorCode, Device, Address, v4, v6}
use moose_tools.Socks4.{
  State, Handshake, Action, async_resolve, async_write, async_read, complete, terminated, undefined,
  Outcome, initiate, on_start, on_resolve, on_transfer, first_v4, requested, resolved, written,
  replied, byte_at, received, transferred, request_granted,
}
use moose_tools.Socks4.Request.{fill_lem}
use moose_tools.Socks4.Run.{
  Config, Event, resolves, writes, reads, expires, timer_runs, react, step, run, begun,
}

abbrev pub HoldsBytes : Option Bytes → ℕ → Type 0
HoldsBytes none n = ⊥
HoldsBytes (some b) n = length b ≡ n

-- What holds of the operation while an action is under way.
abbrev pub Fits : Handshake → Action → Type 0
Fits h async_resolve =
    (h.state ≡ State.handle_resolve) × HoldsBytes h.request_buffer 14 × HoldsBytes h.reply_buffer 8
Fits h (async_write bytes) =
    (h.state ≡ State.handle_request_write) × HoldsBytes h.reply_buffer 8 × (length bytes ≡ 14)
Fits h (async_read n) =
    (h.state ≡ State.handle_read_response) × HoldsBytes h.reply_buffer 8 × (n ≡ 8)
Fits h (complete _) = Unit
Fits h terminated = ⊥
Fits h undefined = ⊥

abbrev pub IsSound : Config → Type 0
IsSound c = Fits c.operation c.pending

abbrev Sound : Outcome → Type 0
Sound (h, d, a) = Fits h a

requested-Sound :
    (h : Handshake) (d : Device) (buffer : Option Bytes) (results : List Address)
    → HoldsBytes buffer 14
    → HoldsBytes h.reply_buffer 8
    → Sound (requested h d buffer (first_v4 results))
unfolding requested first_v4
requested-Sound h d none results b r = absurd b
requested-Sound h d (some buffer) [] b r = tt
requested-Sound h d (some buffer) (v6 _ ∷ results) b r =
    requested-Sound h d (some buffer) results b r
requested-Sound h d (some buffer) (v4 x y z w ∷ results) b r =
    rw (fill_lem buffer h.target_port x y z w b) (refl, r, refl)

resolved-Sound :
    (h : Handshake) (d : Device) (results : List Address)
    → Fits h async_resolve
    → Sound (resolved h d results h.state)
unfolding resolved
resolved-Sound h d results (s, b, r) =
    rw (s, resolved) (requested-Sound h d h.request_buffer results b r)

on_resolve-Sound :
    (h : Handshake) (d : Device) (e : ErrorCode) (results : List Address)
    → Fits h async_resolve
    → Sound (on_resolve h d e results)
unfolding on_resolve
on_resolve-Sound h d ErrorCode.success results f = resolved-Sound h d results f
on_resolve-Sound h d _ results f = tt

written-Sound :
    (h : Handshake) (d : Device) (e : ErrorCode)
    → HoldsBytes h.reply_buffer 8
    → Sound (written h d e)
unfolding written
written-Sound h d ErrorCode.success r = elim (Bool-cases d.is_open) [
  | inl o ↦ rw (o, written) (refl, r, refl)
  | inr o ↦ rw (o, written) tt
]
written-Sound h d _ r = tt

-- The two bytes that are read stand in the buffer.
replied-Sound :
    (h : Handshake) (d : Device) (e : ErrorCode) (reply : Option Bytes)
    → HoldsBytes reply 8
    → Sound (replied h d e (byte_at reply 0) (byte_at reply 1))
unfolding replied byte_at
replied-Sound h d e none r = absurd r
replied-Sound h d e (some []) r = absurd (omega arith)
replied-Sound h d e (some (x ∷ [])) r = absurd (omega arith)
replied-Sound h d e (some (x ∷ y ∷ rest)) r = elim (Bool-cases (x == 0)) [
  | inl p ↦ elim (Bool-cases (y == request_granted)) [ inl q ↦ rw (p, q) tt | inr q ↦ rw (p, q) tt ]
  | inr p ↦ rw p tt
]

received-Sound :
    (h : Handshake) (d : Device) (e : ErrorCode)
    → HoldsBytes h.reply_buffer 8
    → Sound (received h d e)
unfolding received
received-Sound h d ErrorCode.success r = elim (Bool-cases d.is_open) [
  | inl o ↦ rw (o, received) (replied-Sound h _ ErrorCode.success h.reply_buffer r)
  | inr o ↦ rw (o, received) tt
]
received-Sound h d _ r = tt

transferred-Sound :
    (h : Handshake) (d : Device) (e : ErrorCode) (a : Action)
    → Fits h a
    → (a ≡ async_read 8) ⊎ ((b : Bytes) × (a ≡ async_write b))
    → Sound (on_transfer h d e)
unfolding on_transfer transferred
transferred-Sound h d e (async_write b) (s, r, _) _ = rw (s, transferred) (written-Sound h d e r)
transferred-Sound h d e (async_read n) (s, r, _) _ = rw (s, transferred) (received-Sound h _ e r)
transferred-Sound h d e async_resolve f (inl p) = cc
transferred-Sound h d e async_resolve f (inr (b, p)) = cc
transferred-Sound h d e (complete _) f (inl p) = cc
transferred-Sound h d e (complete _) f (inr (b, p)) = cc
transferred-Sound h d e terminated f _ = absurd f
transferred-Sound h d e undefined f _ = absurd f

react-Sound :
    (h : Handshake) (d : Device) (a : Action) (e : Event)
    → Fits h a
    → IsSound (react (record { operation = h; device = d; pending = a }) a e)
unfolding react
react-Sound h d async_resolve (resolves e results) f = on_resolve-Sound h d e results f
react-Sound h d (async_write b) (writes e) f =
    transferred-Sound h d e (async_write b) f (inr (b, refl))
react-Sound h d (async_read n) (reads e reply) (s, r, m) = elim (Bool-cases (length reply == n)) [
  | inl p ↦
      rw (p, react)
        (transferred-Sound (record h { reply_buffer = some reply }) d e (async_read n)
          (s, ground arith, m) (inl (ap async_read m)))
  | inr p ↦ rw (p, react) (s, r, m)
]
react-Sound h d a expires f = f
react-Sound h d a timer_runs f = f
react-Sound h d a e f = f

pub step-IsSound : (c : Config) (e : Event) → IsSound c → IsSound (step c e)
unfolding step
step-IsSound c e f = react-Sound c.operation c.device c.pending e f

pub run-IsSound : (c : Config) (es : List Event) → IsSound c → IsSound (run c es)
unfolding run
run-IsSound c [] f = f
run-IsSound c (e ∷ es) f = run-IsSound (step c e) es (step-IsSound c e f)

pub begun-IsSound :
    (port : ℕ) (request reply : Bytes) (d : Device)
    → length request ≡ 14
    → length reply ≡ 8
    → IsSound (begun port request reply d)
unfolding begun on_start initiate
begun-IsSound port request reply d p q = (refl, p, q)

-- For a handshake with buffers of 14 and 8 bytes: whatever its environment answers and whenever its
-- timer runs out, no assertion has failed and no buffer was null or overrun, the state is the one of
-- the operation under way, and the request that is written has 14 bytes.
pub run-begun-IsSound :
    (port : ℕ) (request reply : Bytes) (d : Device) (es : List Event)
    → length request ≡ 14
    → length reply ≡ 8
    → IsSound (run (begun port request reply d) es)
run-begun-IsSound port request reply d es p q =
    run-IsSound (begun port request reply d) es (begun-IsSound port request reply d p q)
