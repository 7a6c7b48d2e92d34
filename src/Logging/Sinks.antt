-- ===== src/Logging/Sinks.antt =====
-- Log.cpp: which sinks `init_logging` sets up, and what they write.
use moose_tools.Prelude.{
  ℕ, ◌≡◌, refl, sym, ap, ◌∙◌, Bool, true, false, Option, none, some, List, [], ◌∷◌, ◌++◌, leb, ◌&&◌,
  ◌||◌, arith, if◌then◌else◌,
}
use moose_tools.Logging.{
  Severity, normal, warning, level, Entry, Platform, windows, linux, Build, SinkKind, file, console,
  event, syslog, Sink, Core, filtered, when, configured, init_logging, shutdown_logging, Log, Setup,
  prepared, prepare_log_file, copied_away, opened, add_sinks,
}

unfoldable pub accepts : Option ℕ → ℕ → Bool
accepts none n = true
accepts (some lowest) n = leb lowest n

same_kind : SinkKind → SinkKind → Bool
same_kind file file = true
same_kind console console = true
same_kind event event = true
same_kind syslog syslog = true
same_kind _ _ = false

-- The sinks of a kind take an entry each whose filter passes it.
taken : {FsPath : Type 0} → List (Sink FsPath) → SinkKind → Entry → List Entry
taken [] kind e = []
taken (s ∷ ss) kind e =
    let rest = taken ss kind e in
    if same_kind s.kind kind && accepts s.filter (level e.severity) then e ∷ rest else rest

-- What the sinks of a kind write of a sequence of records, in this order.
pub written : {FsPath : Type 0} → Log FsPath → SinkKind → List Entry → List Entry
unfolding taken
written log kind [] = []
written log kind (e ∷ es) =
    (if log.core.enabled then taken log.core.sinks kind e else []) ++ written log kind es

-- The kinds that a build sets up: the files and the console if it says so, the event log on Windows
-- if it says so, the syslog on Linux always.
unfoldable pub is_set_up : Platform → Build → SinkKind → Bool
is_set_up p b file = b.file_log
is_set_up p b console = b.console_log
is_set_up windows b event = b.event_log
is_set_up linux b event = false
is_set_up windows b syslog = false
is_set_up linux b syslog = true

-- The lowest severity in a release build.
unfoldable pub lowest : SinkKind → Severity
lowest file = normal
lowest _ = warning

-- Every entry in a debug build, and those from the lowest severity in a release build.
unfoldable pub wanted : Build → SinkKind → List Entry → List Entry
unfolding lowest level
wanted b kind [] = []
wanted b kind (e ∷ es) =
    let rest = wanted b kind es in
    if b.moose_debug || leb (level (lowest kind)) (level e.severity) then e ∷ rest else rest

taken-configured :
    {FsPath : Type 0} (p : Platform) (b : Build) (logfile : FsPath) (kind : SinkKind) (e : Entry)
    → taken (configured p b logfile) kind e
      ≡ (if is_set_up p b kind then wanted b kind (e ∷ []) else [])
unfolding taken same_kind accepts is_set_up lowest level configured filtered when wanted
taken-configured windows b logfile file e = ground arith
taken-configured windows b logfile console e = ground arith
taken-configured windows b logfile event e = ground arith
taken-configured windows b logfile syslog e = ground arith
taken-configured linux b logfile file e = ground arith
taken-configured linux b logfile console e = ground arith
taken-configured linux b logfile event e = ground arith
taken-configured linux b logfile syslog e = ground arith

prepared-core :
    {FsPath : Type 0} (same : FsPath → FsPath → Bool) (join : FsPath → FsPath → FsPath)
    (default_log : FsPath) (backup : FsPath → FsPath) (on : Bool) (s : Setup FsPath)
    (log : Log FsPath)
    → (prepared same join default_log backup on s log).core ≡ log.core
unfolding prepared prepare_log_file copied_away opened
prepared-core same join default_log backup false s log = refl
prepared-core same join default_log backup true s log = ground arith

wanted-append :
    (b : Build) (kind : SinkKind) (es fs : List Entry)
    → wanted b kind es ++ wanted b kind fs ≡ wanted b kind (es ++ fs)
unfolding wanted
wanted-append b kind [] fs = refl
wanted-append b kind (e ∷ es) fs = rw (sym (wanted-append b kind es fs)) (ground arith)

written-disabled :
    {FsPath : Type 0} (log : Log FsPath) (kind : SinkKind) (es : List Entry)
    → log.core.enabled ≡ false
    → written log kind es ≡ []
unfolding written
written-disabled log kind [] d = refl
written-disabled log kind (e ∷ es) d = rw d (written-disabled log kind es d)

if-append :
    (on : Bool) (xs ys zs : List Entry)
    → xs ++ ys ≡ zs
    → (if on then xs else []) ++ (if on then ys else []) ≡ (if on then zs else [])
if-append true xs ys zs e = e
if-append false xs ys zs e = refl

written-configured :
    {FsPath : Type 0} (log : Log FsPath) (p : Platform) (b : Build) (logfile : FsPath)
    (kind : SinkKind) (es : List Entry)
    → log.core ≡ record { enabled = true; sinks = configured p b logfile }
    → written log kind es ≡ (if is_set_up p b kind then wanted b kind es else [])
unfolding written wanted
written-configured log p b logfile kind [] c = ground arith
written-configured log p b logfile kind (e ∷ es) c =
    rw (written-configured log p b logfile kind es c, c, taken-configured p b logfile kind e)
      (if-append (is_set_up p b kind) (wanted b kind (e ∷ [])) (wanted b kind es)
        (wanted b kind (e ∷ es)) (wanted-append b kind (e ∷ []) es))

module _ {FsPath : Type 0} (same : FsPath → FsPath → Bool) (join : FsPath → FsPath → FsPath)
    (default_log : FsPath) (backup : FsPath → FsPath) where
  pub init_logging-core :
      (p : Platform) (b : Build) (setup : Setup FsPath) (log : Log FsPath)
      → let log' = init_logging same join default_log backup p b setup log in
        log'.core ≡ record {
          enabled = log.core.enabled;
          sinks = log.core.sinks ++ configured p b log'.s_logfile_name;
        }
  unfolding init_logging add_sinks
  init_logging-core p b setup log =
      let logfile = (prepared same join default_log backup b.file_log setup log).s_logfile_name in
      ap (λ (c : Core FsPath). record c { sinks = c.sinks ++ configured p b logfile })
        (prepared-core same join default_log backup b.file_log setup log)

  -- After `init_logging` of an enabled core without sinks, the sinks of a kind write, if the build
  -- sets them up, each record once and in order whose severity is normal or higher for the file and
  -- warning or higher for the others, in a debug build every record; else they write nothing.
  pub written-init_logging :
      (p : Platform) (b : Build) (setup : Setup FsPath) (log : Log FsPath) (kind : SinkKind)
      (es : List Entry)
      → log.core ≡ record { enabled = true; sinks = [] }
      → written (init_logging same join default_log backup p b setup log) kind es
        ≡ (if is_set_up p b kind then wanted b kind es else [])
  written-init_logging p b setup log kind es fresh =
      let log' = init_logging same join default_log backup p b setup log in
      written-configured log' p b log'.s_logfile_name kind es (
        init_logging-core p b setup log
        ∙ ap
            (λ (c : Core FsPath). record {
              enabled = c.enabled;
              sinks = c.sinks ++ configured p b log'.s_logfile_name;
            })
            fresh)

  -- After `shutdown_logging` no sink writes, and none does after another `init_logging` either: it
  -- adds its sinks and leaves the core disabled.
  written-shutdown_logging :
      (log : Log FsPath) (p : Platform) (b : Build) (setup : Setup FsPath) (kind : SinkKind)
      (es : List Entry)
      → (written (shutdown_logging log) kind es ≡ [])
        × (written
              (init_logging same join default_log backup p b setup (shutdown_logging log))
              kind
              es
            ≡ [])
  unfolding shutdown_logging
  written-shutdown_logging log p b setup kind es = (
    written-disabled (shutdown_logging log) kind es refl,
    written-disabled (init_logging same join default_log backup p b setup (shutdown_logging log))
        kind es
        (ap (λ (c : Core FsPath). c.enabled) (init_logging-core p b setup (shutdown_logging log))),
  )
