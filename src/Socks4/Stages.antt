-- ===== src/Socks4/Stages.antt =====
-- SOCKS4.hpp: what each answer leads to.
use moose_tools.Prelude.{
  ℕ, ◌≡◌, refl, ap, sym, subst, Bool, true, false, not, Option, none, some, List, [], ◌∷◌, Bytes,
  if◌then◌else◌, length, arith, Bool-cases, inl, inr, ◌∙◌, All, ◌⊎◌, take,
}
use moose_tools.Asio.{ErrorCode, is_error, success_of, is_aborted, Device, Address, v4, v6}
use moose_tools.Socks4.{
  Handshake, Action, async_resolve, async_write, async_read, complete, on_resolve, first_v4,
  requested, resolved, written, sent,
}
use moose_tools.Socks4.Request.{fill, fill_lem}
use moose_tools.Socks4.Run.{
  Config, Event, resolves, writes, reads, expires, timer_runs, settle, react, step, run,
}
use moose_tools.Socks4.Safety.{HoldsBytes, Fits, IsSound}
use moose_tools.Socks4.Progress.{IsTimer, run_timers}
use moose_tools.Socks4.Verdict.{verdict, IsReading, step-reply, step-failed_read, step_write}

unfoldable pub has_v4 : List Address → Bool
has_v4 [] = false
has_v4 (v6 _ ∷ results) = has_v4 results
has_v4 (v4 _ _ _ _ ∷ results) = true

react-complete :
    (c : Config) (e : Event) (code : ErrorCode) → (react c (complete code) e).pending ≡ c.pending
unfolding react
react-complete c expires code = refl
react-complete c timer_runs code = refl
react-complete c (resolves _ _) code = refl
react-complete c (writes _) code = refl
react-complete c (reads _ _) code = refl

pub step-complete :
    (c : Config) (e : Event) (code : ErrorCode)
    → c.pending ≡ complete code
    → (step c e).pending ≡ complete code
unfolding step
step-complete c e code p = ap (λ a. (react c a e).pending) p ∙ react-complete c e code ∙ p

-- A step, and timer events behind it.
abbrev pub step_timed : Config → Event → List Event → Config
step_timed c e ts = run (step c e) ts

pub step_timed-complete :
    (c : Config) (e : Event) (ts : List Event) (code : ErrorCode)
    → All IsTimer ts
    → c.pending ≡ complete code
    → (step_timed c e ts).pending ≡ complete code
step_timed-complete c e ts code t p = run_timers (step c e) ts t ∙ step-complete c e code p

Fits-at : (c : Config) (a : Action) → IsSound c → c.pending ≡ a → Fits c.operation a
Fits-at c a s p = subst (Fits c.operation) p s

-- The code of a read, with the version and status bytes, from a socket that is open or not.
unfoldable pub read_code : Bool → ErrorCode → ℕ → ℕ → ErrorCode
read_code is_open e version status =
    if is_error e
    then (if is_aborted e then ErrorCode.timed_out else e)
    else if is_open
    then verdict version status
    else ErrorCode.timed_out

pub read_outcome :
    (c : Config) (e : ErrorCode) (version status : ℕ) (rest : Bytes)
    → IsSound c
    → c.pending ≡ async_read 8
    → length rest ≡ 6
    → (step c (reads e (version ∷ status ∷ rest))).pending
      ≡ complete (read_code c.device.is_open e version status)
unfolding read_code
read_outcome c e version status rest s p l =
    let (state, _, _) = Fits-at c (async_read 8) s p in
    let reading : IsReading c = record { state = state; pending = p } in
    elim (Bool-cases (is_error e)) [
      | inl bad ↦
          rw bad (step-failed_read c e (version ∷ status ∷ rest) reading (omega arith) bad).0
      | inr good ↦
          rw (success_of e good) ((step-reply c version status rest reading l).0 ∙ ground arith)
    ]

pub write_outcome :
    (c : Config) (e : ErrorCode) (request : Bytes)
    → IsSound c
    → c.pending ≡ async_write request
    → (step c (writes e)).pending ≡ (
        if is_error e
        then complete e
        else if not c.device.is_open
        then complete ErrorCode.timed_out
        else async_read 8)
write_outcome c e request s p =
    let (state, _, _) = Fits-at c (async_write request) s p in
    rw (step_write c e request (record { state = state; pending = p }))
      (unfold written in ground arith)

-- What the resolution leads to: the write of the request, if there is an IPv4 address.
abbrev pub Resolved : List Address → Action → Type 0
Resolved results a =
    ((bytes : Bytes) × (has_v4 results ≡ true) × (a ≡ async_write bytes))
    ⊎ (has_v4 results ≡ false) × (a ≡ complete ErrorCode.host_not_found)

sent_write :
    (h : Handshake) (d : Device) (filled : Option Bytes) {buffer : Bytes}
    → filled ≡ some buffer
    → (bytes : Bytes) × ((sent h d filled).2 ≡ async_write bytes)
unfolding sent
sent_write h d filled {buffer} e = (take 14 buffer, rw e refl)

requested-Resolved :
    (h : Handshake) (d : Device) (buffer : Option Bytes) (results : List Address)
    → HoldsBytes buffer 14
    → Resolved results (requested h d buffer (first_v4 results)).2
unfolding requested first_v4 has_v4
requested-Resolved h d none results b = absurd b
requested-Resolved h d (some buffer) [] b = inr (refl, refl)
requested-Resolved h d (some buffer) (v6 _ ∷ results) b =
    requested-Resolved h d (some buffer) results b
requested-Resolved h d (some buffer) (v4 x y z w ∷ results) b =
    let (bytes, e) =
      sent_write h d (fill buffer h.target_port (x ∷ y ∷ z ∷ w ∷ []))
        (fill_lem buffer h.target_port x y z w b) in
    inl (bytes, refl, e)

step-resolves :
    (c : Config) (e : ErrorCode) (results : List Address)
    → c.pending ≡ async_resolve
    → step c (resolves e results) ≡ settle (on_resolve c.operation c.device e results)
unfolding step react
step-resolves c e results p = ap (λ a. react c a (resolves e results)) p

pub resolve_error :
    (c : Config) (e : ErrorCode) (results : List Address)
    → c.pending ≡ async_resolve
    → is_error e ≡ true
    → (step c (resolves e results)).pending ≡ complete e
unfolding on_resolve
resolve_error c e results p bad = rw (step-resolves c e results p, bad) refl

pub resolve-Resolved :
    (c : Config) (results : List Address)
    → IsSound c
    → c.pending ≡ async_resolve
    → Resolved results (step c (resolves ErrorCode.success results)).pending
unfolding on_resolve resolved
resolve-Resolved c results s p =
    let (state, b, _) = Fits-at c async_resolve s p in
    rw (step-resolves c ErrorCode.success results p) (
      subst (λ q. Resolved results (resolved c.operation c.device results q).2) (sym state)
        (requested-Resolved c.operation c.device c.operation.request_buffer results b))
