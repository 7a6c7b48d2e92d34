-- ===== src/Logging/Reader.antt =====
-- Log.cpp: a reader of the lines that the formatter of the log writes.
use moose_tools.Prelude.{
  ℕ, ◌≡◌, refl, ap, Bool, true, false, not, ◌&&◌, Option, none, some, ◌>>=◌, List, [], ◌∷◌, ◌++◌,
  Bytes, map, All, codes, ◌==◌, if◌then◌else◌, arith, ◌∙◌,
}
use moose_tools.Logging.{
  Severity, debug, normal, warning, error, critical, severity_text, Entry, formatted,
}

-- The byte does not occur.
unfoldable pub lacks : ℕ → Bytes → Bool
lacks c [] = true
lacks c (x ∷ xs) = not (x == c) && lacks c xs

lacks-append : (c : ℕ) (a b : Bytes) → lacks c (a ++ b) ≡ (lacks c a && lacks c b)
unfolding lacks
lacks-append c [] b = refl
lacks-append c (x ∷ a) b = rw (lacks-append c a b) (ground arith)

both : (a b : Bool) → a && b ≡ true → (a ≡ true) × (b ≡ true)
both true b h = (refl, h)
both false b h = absurd (cc)

-- What stands before the first such byte, and what behind it.
split_at : ℕ → Bytes → Option (Bytes × Bytes)
split_at c [] = none
split_at c (x ∷ xs) =
    let rest = split_at c xs in
    if x == c then some ([], xs) else rest >>= (λ r. some (x ∷ r.0, r.1))

split_at-append : (c : ℕ) (a b : Bytes) → lacks c a ≡ true → split_at c (a ++ c ∷ b) ≡ some (a, b)
unfolding split_at lacks
split_at-append c [] b h = ground arith
split_at-append c (x ∷ a) b h =
    let (differs, rest) = both (not (x == c)) (lacks c a) h in
    rw (split_at-append c a b rest) (ground arith)

strip : Bytes → Bytes → Option Bytes
strip [] s = some s
strip (c ∷ p) [] = none
strip (c ∷ p) (x ∷ s) = let rest = strip p s in if x == c then rest else none

either : {A : Type 0} → Option A → Option A → Option A
either none o = o
either (some a) o = some a

read_as : Severity → Bytes → Option (Severity × Bytes)
unfolding strip
read_as severity s = strip (severity_text severity) s >>= (λ message. some (severity, message))

-- The severity and the message.
read_severity : Bytes → Option (Severity × Bytes)
unfolding read_as either
read_severity s = either (read_as debug s) (
    either (read_as normal s)
      (either (read_as warning s) (either (read_as error s) (read_as critical s))))

read_severity-append :
    (severity : Severity) (message : Bytes)
    → read_severity (severity_text severity ++ message) ≡ some (severity, message)
unfolding read_severity severity_text strip either read_as
read_severity-append debug message = refl
read_severity-append normal message = refl
read_severity-append warning message = refl
read_severity-append error message = refl
read_severity-append critical message = refl

read_line : Bytes → Option Entry
unfolding split_at strip read_severity
read_line line = split_at 58 line >>= (λ named. strip (codes " [") named.1 >>= (λ rest.
    split_at 93 rest >>= (λ timed. strip (codes " ") timed.1 >>= (λ text.
      read_severity text >>= (λ said. some (record {
        line_id = named.0;
        timestamp = timed.0;
        severity = said.0;
        message = said.1;
      }))))))

-- The number of the line has no colon and the time no bracket, and nothing has a line break.
unfoldable pub is_plain : Entry → Bool
unfolding lacks
is_plain e =
    lacks 58 e.line_id
    && (lacks 93 e.timestamp
        && (lacks 10 e.line_id && (lacks 10 e.timestamp && lacks 10 e.message)))

read_line-formatted : (e : Entry) → is_plain e ≡ true → read_line (formatted e) ≡ some e
unfolding read_line is_plain formatted strip
read_line-formatted e h =
    let (colon, h1) = both _ _ h in
    let (bracket, h2) = both _ _ h1 in
    rw
      (
        split_at-append 58 e.line_id _ colon,
        split_at-append 93 e.timestamp _ bracket,
        read_severity-append e.severity e.message,
      )
      refl

lacks-severity_text : (severity : Severity) → lacks 10 (severity_text severity) ≡ true
unfolding lacks severity_text
lacks-severity_text debug = refl
lacks-severity_text normal = refl
lacks-severity_text warning = refl
lacks-severity_text error = refl
lacks-severity_text critical = refl

lacks-formatted : (e : Entry) → is_plain e ≡ true → lacks 10 (formatted e) ≡ true
unfolding is_plain formatted lacks
lacks-formatted e h =
    let (colon, h1) = both (lacks 58 e.line_id) _ h in
    let (bracket, h2) = both (lacks 93 e.timestamp) _ h1 in
    let (named, h3) = both (lacks 10 e.line_id) _ h2 in
    let (timed, said) = both (lacks 10 e.timestamp) (lacks 10 e.message) h3 in
    rw
      (
        lacks-append 10 e.line_id _,
        named,
        lacks-append 10 e.timestamp _,
        timed,
        lacks-append 10 (severity_text e.severity) e.message,
        lacks-severity_text e.severity,
        said,
      )
      refl

joined : ℕ → List Bytes → List Bytes
joined x [] = (x ∷ []) ∷ []
joined x (line ∷ rest) = (x ∷ line) ∷ rest

-- The lines of a text; a final line break begins no line.
lines : Bytes → List Bytes
unfolding joined
lines [] = []
lines (x ∷ xs) = let rest = lines xs in if x == 10 then [] ∷ rest else joined x rest

lines-append :
    (line text : Bytes) → lacks 10 line ≡ true → lines (line ++ 10 ∷ text) ≡ line ∷ lines text
unfolding lines lacks joined
lines-append [] text h = refl
lines-append (x ∷ line) text h =
    let (differs, rest) = both (not (x == 10)) (lacks 10 line) h in
    rw (lines-append line text rest) (ground arith)

-- The reader of a log file.
pub read_log : Bytes → List (Option Entry)
unfolding lines
read_log text = map read_line (lines text)

-- A stream with a line for each entry.
unfoldable pub streamed : List Entry → Bytes
streamed [] = []
streamed (e ∷ es) = formatted e ++ 10 ∷ streamed es

pub read_log-streamed :
    (es : List Entry) → All (λ e. is_plain e ≡ true) es → read_log (streamed es) ≡ map some es
unfolding read_log streamed
read_log-streamed [] h = refl
read_log-streamed (e ∷ es) (h, hs) =
    ap (map read_line) (lines-append (formatted e) (streamed es) (lacks-formatted e h))
    ∙ rw (read_line-formatted e h, read_log-streamed es hs) refl
