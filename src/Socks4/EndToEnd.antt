-- ===== src/Socks4/EndToEnd.antt =====
-- SOCKS4.hpp: the whole handshake, from the first call to the completion.
use moose_tools.Prelude.{
  ℕ, ◌≡◌, refl, Bool, true, false, not, List, ◌∷◌, Bytes, if◌then◌else◌, length, Bool-cases, inl,
  inr, ◌∙◌, All,
}
use moose_tools.Asio.{ErrorCode, is_error, success_of, Device, Address}
use moose_tools.Socks4.{async_resolve, async_write, complete, initiate, on_start}
use moose_tools.Socks4.Run.{Config, Event, resolves, writes, reads, step, run, begun}
use moose_tools.Socks4.Safety.{IsSound, run-IsSound, begun-IsSound}
use moose_tools.Socks4.Progress.{IsTimer, run_timers}
use moose_tools.Socks4.Stages.{
  has_v4, read_code, step_timed, step-complete, step_timed-complete, read_outcome, write_outcome,
  Resolved, resolve_error, resolve-Resolved,
}

-- What the three answers come to: the code of the resolution and its results; the code of the write,
-- and whether the socket was open then; the code of the read, whether the socket was open then, and
-- the version and status bytes of the reply.
unfoldable pub outcome :
    ErrorCode → List Address → ErrorCode → Bool → ErrorCode → Bool → ℕ → ℕ → ErrorCode
unfolding has_v4
outcome e1 results e2 open2 e3 open3 version status =
    if is_error e1
    then e1
    else if not (has_v4 results)
    then ErrorCode.host_not_found
    else if is_error e2
    then e2
    else if not open2
    then ErrorCode.timed_out
    else read_code open3 e3 version status

step_timed-IsSound :
    (c : Config) (e : Event) (ts : List Event) → IsSound c → IsSound (step_timed c e ts)
unfolding run
step_timed-IsSound c e ts s = run-IsSound c (e ∷ ts) s

written_outcome :
    (c : Config) (bytes : Bytes) (e2 e3 : ErrorCode) (behind : List Event) (x y : ℕ) (rest : Bytes)
    (open2 : Bool)
    → c.device.is_open ≡ open2
    → IsSound c
    → c.pending ≡ async_write bytes
    → length rest ≡ 6
    → All IsTimer behind
    → is_error e2 ≡ false
    → let c' = step_timed c (writes e2) behind in
      (step c' (reads e3 (x ∷ y ∷ rest))).pending
      ≡ complete (if not open2 then ErrorCode.timed_out else read_code c'.device.is_open e3 x y)
written_outcome c bytes e2 e3 behind x y rest true q s p l t good =
    read_outcome (step_timed c (writes e2) behind) e3 x y rest
      (step_timed-IsSound c (writes e2) behind s)
      (run_timers (step c (writes e2)) behind t ∙ write_outcome c e2 bytes s p ∙ rw (good, q) refl)
      l
written_outcome c bytes e2 e3 behind x y rest false q s p l t good =
    step-complete (step_timed c (writes e2) behind) (reads e3 (x ∷ y ∷ rest)) ErrorCode.timed_out
      (run_timers (step c (writes e2)) behind t ∙ write_outcome c e2 bytes s p ∙ rw (good, q) refl)

after_write :
    (c : Config) (bytes : Bytes) (e2 e3 : ErrorCode) (behind : List Event) (x y : ℕ) (rest : Bytes)
    (open2 : Bool)
    → c.device.is_open ≡ open2
    → IsSound c
    → c.pending ≡ async_write bytes
    → length rest ≡ 6
    → All IsTimer behind
    → let c' = step_timed c (writes e2) behind in
      (step c' (reads e3 (x ∷ y ∷ rest))).pending
      ≡ complete (
          if is_error e2
          then e2
          else if not open2
          then ErrorCode.timed_out
          else read_code c'.device.is_open e3 x y)
after_write c bytes e2 e3 behind x y rest open2 q s p l t = elim (Bool-cases (is_error e2)) [
  | inl bad ↦ rw bad (
      step-complete (step_timed c (writes e2) behind) (reads e3 (x ∷ y ∷ rest)) e2
        (run_timers (step c (writes e2)) behind t ∙ write_outcome c e2 bytes s p ∙ rw bad refl))
  | inr good ↦ rw good (written_outcome c bytes e2 e3 behind x y rest open2 q s p l t good)
]

-- From a resolution without an error on.
found_outcome :
    (c : Config) (e2 e3 : ErrorCode) (results : List Address) (between behind : List Event)
    (x y : ℕ) (rest : Bytes)
    → IsSound c
    → length rest ≡ 6
    → All IsTimer between
    → All IsTimer behind
    → Resolved results (step c (resolves ErrorCode.success results)).pending
    → let c1 = step_timed c (resolves ErrorCode.success results) between in
      let c2 = step_timed c1 (writes e2) behind in
      (step c2 (reads e3 (x ∷ y ∷ rest))).pending
      ≡ complete (outcome ErrorCode.success results e2 c1.device.is_open e3 c2.device.is_open x y)
unfolding outcome
found_outcome c e2 e3 results between behind x y rest s l t t' (inl (bytes, v, w)) =
    let e = resolves ErrorCode.success results in
    rw v (
      after_write (step_timed c e between) bytes e2 e3 behind x y rest
        (step_timed c e between).device.is_open refl (step_timed-IsSound c e between s)
        (run_timers (step c e) between t ∙ w) l t')
found_outcome c e2 e3 results between behind x y rest s l t t' (inr (v, w)) =
    let e = resolves ErrorCode.success results in
    let c1 = step_timed c e between in
    rw v (
      step-complete (step_timed c1 (writes e2) behind) (reads e3 (x ∷ y ∷ rest))
        ErrorCode.host_not_found
        (step_timed-complete c1 (writes e2) behind ErrorCode.host_not_found t'
          (run_timers (step c e) between t ∙ w)))

-- From the resolution on.
after_resolve :
    (c : Config) (e1 e2 e3 : ErrorCode) (results : List Address) (between behind : List Event)
    (x y : ℕ) (rest : Bytes)
    → IsSound c
    → c.pending ≡ async_resolve
    → length rest ≡ 6
    → All IsTimer between
    → All IsTimer behind
    → let c1 = step_timed c (resolves e1 results) between in
      let c2 = step_timed c1 (writes e2) behind in
      (step c2 (reads e3 (x ∷ y ∷ rest))).pending
      ≡ complete (outcome e1 results e2 c1.device.is_open e3 c2.device.is_open x y)
unfolding outcome
after_resolve c e1 e2 e3 results between behind x y rest s p l t t' =
    elim (Bool-cases (is_error e1)) [
      | inl bad ↦
          let c1 = step_timed c (resolves e1 results) between in
          rw bad (
            step-complete (step_timed c1 (writes e2) behind) (reads e3 (x ∷ y ∷ rest)) e1 (
              step_timed-complete c1 (writes e2) behind e1 t' (
                run_timers (step c (resolves e1 results)) between t
                ∙ resolve_error c e1 results p bad)))
      | inr good ↦ rw (success_of e1 good) (
          found_outcome c e2 e3 results between behind x y rest s l t t'
            (resolve-Resolved c results s p))
    ]

-- A new handshake with buffers of 14 and 8 bytes, with an answer to the resolution, one to the write
-- and one to the read of 8 bytes, whatever they are, and with any timer events before each: it
-- completes, with the code of the first of these that applies: an error of the resolution;
-- `host_not_found` without an IPv4 address; an error of the write; `timed_out` for a socket that is
-- closed when the write is answered; an error of the read, an aborted one as `timed_out`; `timed_out`
-- for a socket that is closed when the read is answered; and what the reply's version and status say.
pub run-begun-outcome :
    (port : ℕ) (request reply : Bytes) (d : Device) (before between behind : List Event)
    (e1 e2 e3 : ErrorCode) (results : List Address) (x y : ℕ) (rest : Bytes)
    → length request ≡ 14
    → length reply ≡ 8
    → length rest ≡ 6
    → All IsTimer before
    → All IsTimer between
    → All IsTimer behind
    → let c0 = run (begun port request reply d) before in
      let c1 = step_timed c0 (resolves e1 results) between in
      let c2 = step_timed c1 (writes e2) behind in
      (step c2 (reads e3 (x ∷ y ∷ rest))).pending
      ≡ complete (outcome e1 results e2 c1.device.is_open e3 c2.device.is_open x y)
run-begun-outcome port request reply d before between behind e1 e2 e3 results x y rest p q l t1 t2
      t3 =
    let c = begun port request reply d in
    after_resolve (run c before) e1 e2 e3 results between behind x y rest
      (run-IsSound c before (begun-IsSound port request reply d p q))
      (run_timers c before t1 ∙ unfold begun on_start initiate in refl) l t2 t3
