-- ===== src/TimedConnect/Stages.antt =====
-- TimedConnect.hpp: what each answer leads to.
use moose_tools.Prelude.{◌≡◌, refl, ap, true, false, List, [], ◌∷◌, ◌∙◌, All}
use moose_tools.Asio.{ErrorCode, is_error, Address}
use moose_tools.TimedConnect.{
  Point, Family, Action, async_resolve, async_connect, complete, resume, connect, resumed,
}
use moose_tools.TimedConnect.Run.{
  Config, Event, resolves, connects, opens, expires, timer_runs, settle, react, step, run,
}
use moose_tools.TimedConnect.Completion.{IsConnecting}

-- What may happen while an operation is under way, and answers nothing.
abbrev pub IsBackground : Event → Type 0
IsBackground opens = Unit
IsBackground expires = Unit
IsBackground timer_runs = Unit
IsBackground _ = ⊥

-- What the background leaves as it is.
abbrev pub Same : Config → Config → Type 0
Same c c' = (c'.operation ≡ c.operation) × (c'.pending ≡ c.pending)

react-Same :
    (c : Config) (a : Action) (e : Event) → IsBackground e → c.pending ≡ a → Same c (react c a e)
unfolding react
react-Same c (async_connect _) opens b p = (refl, refl)
react-Same c (async_connect _) expires b p = (refl, refl)
react-Same c (async_connect _) timer_runs b p = (refl, refl)
react-Same c (async_resolve _) expires b p = (refl, refl)
react-Same c (async_resolve _) timer_runs b p = (refl, refl)
react-Same c (complete _) expires b p = (refl, refl)
react-Same c (complete _) timer_runs b p = (refl, refl)
react-Same c _ expires b p = (refl, refl)
react-Same c _ timer_runs b p = (refl, refl)
react-Same c a (resolves _ _) b p = absurd b
react-Same c a (connects _) b p = absurd b
react-Same c _ opens b p = (refl, refl)

pub run-Same : (c : Config) (es : List Event) → All IsBackground es → Same c (run c es)
unfolding run step
run-Same c [] b = (refl, refl)
run-Same c (e ∷ es) (b, bs) =
    let (o, p) = react-Same c c.pending e b refl in
    let (o', p') = run-Same (step c e) es bs in (o' ∙ o, p' ∙ p)

-- An operation that has completed is not answered any more.
react-complete :
    (c : Config) (e : Event) (code : ErrorCode) → (react c (complete code) e).pending ≡ c.pending
unfolding react
react-complete c expires code = refl
react-complete c timer_runs code = refl
react-complete c opens code = refl
react-complete c (resolves _ _) code = refl
react-complete c (connects _) code = refl

pub step-complete :
    (c : Config) (e : Event) (code : ErrorCode)
    → c.pending ≡ complete code
    → (step c e).pending ≡ complete code
unfolding step
step-complete c e code p = ap (λ a. (react c a e).pending) p ∙ react-complete c e code ∙ p

pub record IsResolving (c : Config) : Type 0 where
  pub point : c.operation.point ≡ Point.resolving
  pub family : Family
  pub pending : c.pending ≡ async_resolve family

step-resolves :
    (c : Config) (e : ErrorCode) (results : List Address)
    → IsResolving c
    → step c (resolves e results) ≡ settle (connect c.operation c.device e results)
unfolding step react resume
step-resolves c e results r =
    ap (λ a. react c a (resolves e results)) r.pending
    ∙ ap (λ p. settle (resumed c.operation c.device e results p)) r.point

pub resolved-error :
    (c : Config) (e : ErrorCode) (results : List Address)
    → IsResolving c
    → is_error e ≡ true
    → (step c (resolves e results)).pending ≡ complete e
unfolding connect
resolved-error c e results r bad = rw (step-resolves c e results r, bad) refl

pub resolved-IsConnecting :
    (c : Config) (e : ErrorCode) (results : List Address)
    → IsResolving c
    → is_error e ≡ false
    → IsConnecting (step c (resolves e results))
unfolding connect
resolved-IsConnecting c e results r good = record {
  point = rw (step-resolves c e results r, good) refl;
  results = results;
  pending = rw (step-resolves c e results r, good) refl;
}
