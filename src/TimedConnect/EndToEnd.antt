-- ===== src/TimedConnect/EndToEnd.antt =====
-- TimedConnect.hpp: the whole operation, from the first call to the completion.
use moose_tools.Prelude.{
  ℕ, ◌≡◌, refl, ap, Bool, true, false, List, [], inl, inr, ◌==◌, if◌then◌else◌, arith, Bool-cases,
  ◌∙◌, All, ◌||◌,
}
use moose_tools.Asio.{ErrorCode, is_error, Device, Address}
use moose_tools.TimedConnect.{
  Point, Connect, Family, async_resolve, complete, resume, resumed, resolve,
}
use moose_tools.TimedConnect.Run.{Config, Event, resolves, connects, settle, step, run, begun}
use moose_tools.TimedConnect.Completion.{verdict, step-connects}
use moose_tools.TimedConnect.Stages.{
  IsBackground, run-Same, step-complete, IsResolving, resolved-error, resolved-IsConnecting,
}

-- The protocols of an operation: any, IPv4 and IPv6.
unfoldable pub is_known : ℕ → Bool
is_known protocol = protocol == 0 || protocol == 4 || protocol == 6

-- The operation before its connection is answered.
abbrev pub attempt : Config → List Event → ErrorCode → List Address → List Event → Config
attempt c before e results between = run (step (run c before) (resolves e results)) between

attempt-complete :
    (c : Config) (before between : List Event) (e : ErrorCode) (results : List Address)
    (code : ErrorCode)
    → All IsBackground before
    → All IsBackground between
    → c.pending ≡ complete code
    → (attempt c before e results between).pending ≡ complete code
attempt-complete c before between e results code b b' p =
    (run-Same (step (run c before) (resolves e results)) between b').1
    ∙ step-complete (run c before) (resolves e results) code ((run-Same c before b).1 ∙ p)

attempt-verdict :
    (c : Config) (before between : List Event) (e1 e2 : ErrorCode) (results : List Address)
    → All IsBackground before
    → All IsBackground between
    → IsResolving c
    → let c' = attempt c before e1 results between in
      (step c' (connects e2)).pending
      ≡ complete (if is_error e1 then e1 else verdict c'.device.is_open e2)
attempt-verdict c before between e1 e2 results b b' r =
    let (o, p) = run-Same c before b in
    let r1 : IsResolving (run c before) = record {
      point = ap (λ (q : Connect). q.point) o ∙ r.point;
      family = r.family;
      pending = p ∙ r.pending;
    } in
    let c1 = step (run c before) (resolves e1 results) in
    let (o', p') = run-Same c1 between b' in
    elim (Bool-cases (is_error e1)) [
      | inl bad ↦ rw bad (
          step-complete (run c1 between) (connects e2) e1
            (p' ∙ resolved-error (run c before) e1 results r1 bad))
      | inr good ↦
          let k = resolved-IsConnecting (run c before) e1 results r1 good in
          rw good
            (step-connects (run c1 between) e2 (record {
              point = ap (λ (q : Connect). q.point) o' ∙ k.point;
              results = k.results;
              pending = p' ∙ k.pending;
            })).0
    ]

resolve_known :
    (c : Connect) (d : Device)
    → is_known c.protocol ≡ true
    → (family : Family) × (resolve c d
        ≡ (record c { point = Point.resolving }, d, async_resolve family))
unfolding resolve is_known
resolve_known c d k = elim (Bool-cases (c.protocol == 0)) [
  | inl p ↦ (Family.any_family, rw p refl)
  | inr p ↦ elim (Bool-cases (c.protocol == 4)) [
    | inl q ↦ (Family.v4_only, rw (p, q) refl)
    | inr q ↦ elim (Bool-cases (c.protocol == 6)) [
      | inl r ↦ (Family.v6_only, rw (p, q, r) refl)
      | inr r ↦ absurd (ground arith)
    ]
  ]
]

begun_lem : (c : Connect) (d : Device) → c.point ≡ Point.begin → begun c d ≡ settle (resolve c d)
unfolding begun resume
begun_lem c d p = ap (λ q. settle (resumed c d ErrorCode.success [] q)) p

begun-IsResolving :
    (c : Connect) (d : Device)
    → c.point ≡ Point.begin
    → is_known c.protocol ≡ true
    → IsResolving (begun c d)
begun-IsResolving c d p k =
    let (family, r) = resolve_known c d k in
    let b = begun_lem c d p ∙ ap settle r in
    record {
      point = ap (λ (q : Config). q.operation.point) b;
      family = family;
      pending = ap (λ (q : Config). q.pending) b;
    }

begun-unknown :
    (c : Connect) (d : Device)
    → c.point ≡ Point.begin
    → is_known c.protocol ≡ false
    → (begun c d).pending ≡ complete ErrorCode.no_protocol_option
unfolding resolve is_known
begun-unknown c d p k = rw (begun_lem c d p) (ground arith)

-- A new operation, with an answer to the resolution and one to the connection, whatever they are, and
-- with any timer events and openings of the socket before each: it completes. An unknown protocol
-- gives `no_protocol_option`, an error of the resolution is passed on, and else it is an aborted
-- connection or a socket that is closed now that shows as `timed_out`, another error as it is, or the
-- success.
pub run-begun-verdict :
    (c : Connect) (d : Device) (before between : List Event) (e1 e2 : ErrorCode)
    (results : List Address)
    → c.point ≡ Point.begin
    → All IsBackground before
    → All IsBackground between
    → let c' = attempt (begun c d) before e1 results between in
      (step c' (connects e2)).pending
      ≡ complete (
          if is_known c.protocol
          then (if is_error e1 then e1 else verdict c'.device.is_open e2)
          else ErrorCode.no_protocol_option)
run-begun-verdict c d before between e1 e2 results p b b' =
    elim (Bool-cases (is_known c.protocol)) [
      | inl k ↦ rw k (
          attempt-verdict (begun c d) before between e1 e2 results b b' (begun-IsResolving c d p k))
      | inr k ↦ rw k (
          step-complete (attempt (begun c d) before e1 results between) (connects e2)
            ErrorCode.no_protocol_option
            (attempt-complete (begun c d) before between e1 results ErrorCode.no_protocol_option b
              b' (begun-unknown c d p k)))
    ]
