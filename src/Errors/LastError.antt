-- ===== src/Errors/LastError.antt =====
-- Error.cpp: the last error message, of which each thread has its own.
use moose_tools.Prelude.{
  ℕ, ◌≡◌, refl, Option, none, some, List, [], ◌∷◌, Bytes, ◌==◌, if◌then◌else◌, arith, ap, ◌∙◌,
}

-- `tls_error_message` of every thread; null is `none`.
abbrev Messages : Type 0
Messages = ℕ → Option Bytes

assign : Messages → ℕ → Bytes → Messages
assign m thread text other = if thread == other then some text else m other

-- `get_tls_error_message`: the messages afterwards and this thread's.
get_tls_error_message : Messages → ℕ → Option Bytes → Messages × Bytes
get_tls_error_message m thread none = (assign m thread [], [])
get_tls_error_message m thread (some text) = (m, text)

pub get_last_error : Messages → ℕ → Messages × Bytes
unfolding get_tls_error_message assign
get_last_error m thread = get_tls_error_message m thread (m thread)

set_last_error : Messages → ℕ → Bytes → Messages
unfolding get_tls_error_message assign
set_last_error m thread text = assign (get_tls_error_message m thread (m thread)).0 thread text

-- Calls of any threads, in the order in which they take place.
pub data Call : Type 0 where
  gets : ℕ → Call
  sets : ℕ → Bytes → Call

step : Messages → Call → Messages
step m (gets thread) = (get_last_error m thread).0
step m (sets thread text) = set_last_error m thread text

pub run : Messages → List Call → Messages
unfolding step
run m [] = m
run m (c ∷ cs) = run (step m c) cs

-- The last message that a thread set in a list of calls, or else a first one.
unfoldable pub last_set : ℕ → Bytes → List Call → Bytes
last_set thread first [] = first
last_set thread first (gets t ∷ cs) = last_set thread first cs
last_set thread first (sets t text ∷ cs) = last_set thread (if t == thread then text else first) cs

abbrev message : Option Bytes → Bytes
message none = []
message (some text) = text

get_last_error_lem : (m : Messages) (thread : ℕ) → (get_last_error m thread).1 ≡ message (m thread)
unfolding get_last_error
get_last_error_lem m thread = ground arith

step_message :
    (m : Messages) (thread : ℕ) (c : Call)
    → message (step m c thread) ≡ last_set thread (message (m thread)) (c ∷ [])
unfolding step last_set get_last_error set_last_error
step_message m thread (gets t) = ground arith
step_message m thread (sets t text) = ground arith

run_message :
    (m : Messages) (thread : ℕ) (cs : List Call)
    → message (run m cs thread) ≡ last_set thread (message (m thread)) cs
unfolding run last_set
run_message m thread [] = refl
run_message m thread (gets t ∷ cs) =
    run_message (step m (gets t)) thread cs
    ∙ ap (λ (first : Bytes). last_set thread first cs) (step_message m thread (gets t))
run_message m thread (sets t text ∷ cs) =
    run_message (step m (sets t text)) thread cs
    ∙ ap (λ (first : Bytes). last_set thread first cs) (step_message m thread (sets t text))

-- After any calls of any threads, `get_last_error` yields the message that the same thread set last,
-- or an empty one if it has set none, whatever the other threads did.
pub get_last_error-run :
    (cs : List Call) (thread : ℕ)
    → (get_last_error (run (λ _. none) cs) thread).1 ≡ last_set thread [] cs
get_last_error-run cs thread =
    get_last_error_lem (run (λ _. none) cs) thread ∙ run_message (λ _. none) thread cs
