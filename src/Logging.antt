-- ===== src/Logging.antt =====
-- Log.hpp and Log.cpp: the severity's text, the name of the log file, and the sinks with their
-- filters and formatters. The core of Boost.Log is its list of sinks and whether it is enabled. What the
-- attributes LineID and TimeStamp write is the library's, and comes with an entry of the log.
pub mod Sinks
pub mod Reader
pub mod Readback
pub mod FileName
pub mod Files
mod Tests
use moose_tools.Prelude.{
  ℕ, String, Bool, true, false, not, Option, none, some, List, [], ◌∷◌, ◌++◌, leb, ltb, ◌&&◌, ◌||◌,
  if◌then◌else◌, get_elem?, get_or, Bytes, codes,
}

-- `severity_level`, by its value in a record
pub data Severity : Type 0 where
  debug normal warning error critical : Severity

pub level : Severity → ℕ
level debug = 0
level normal = 1
level warning = 2
level error = 3
level critical = 4

abbrev severity_strings : List String
severity_strings = "<DEBUG> " ∷ "<INFO> " ∷ "<WARNING> " ∷ "<ERROR> " ∷ "<CRITICAL> " ∷ []

pub data Output : Type 0 where
  text : String → Output
  number : ℕ → Output
  undefined : Output

-- `operator<<` of a severity. The array is read before the level is tested; `undefined` is a read
-- past its end.
pub severity_output : ℕ → Output
severity_output n = elim (get_elem? severity_strings n) [
  | none ↦ undefined
  | some str ↦ if ltb n 5 then text str else number n
]

-- A record of the log, with what the streams of the library write for its LineID and its TimeStamp.
pub record Entry : Type 0 where
  pub line_id : Bytes
  pub timestamp : Bytes
  pub severity : Severity
  pub message : Bytes

-- What `operator<<` writes for the levels that have a name.
unfoldable pub severity_text : Severity → Bytes
unfolding level
severity_text s = codes (get_or severity_strings (level s) "")

-- The formatter `fmt` of `init_logging`.
unfoldable pub formatted : Entry → Bytes
formatted e =
    e.line_id
    ++ (codes ": "
        ++ (codes "[" ++ (e.timestamp ++ (codes "] " ++ (severity_text e.severity ++ e.message)))))

pub data Platform : Type 0 where
  windows linux : Platform

-- The macros that a build defines.
pub record Build : Type 0 where
  pub moose_debug : Bool
  pub file_log : Bool
  pub console_log : Bool
  pub event_log : Bool

pub data SinkKind : Type 0 where
  file console event syslog : SinkKind

-- A sink, the lowest level that its filter lets through, and the file that its stream is open on.
pub record Sink (FsPath : Type 0) : Type 0 where
  pub kind : SinkKind
  pub filter : Option ℕ
  pub stream : Option FsPath

pub record Core (FsPath : Type 0) : Type 0 where
  pub enabled : Bool
  pub sinks : List (Sink FsPath)

-- `set_filter`, in a release build only
filtered : {FsPath : Type 0} → Build → SinkKind → Severity → Option FsPath → Sink FsPath
unfolding level
filtered b kind lowest stream = record {
  kind = kind;
  filter = if b.moose_debug then none else some (level lowest);
  stream = stream;
}

when : {FsPath : Type 0} → Bool → Sink FsPath → List (Sink FsPath)
when true s = s ∷ []
when false s = []

-- The sinks that `init_logging` of the two platforms adds; the file sink's stream is open on the log
-- file.
pub configured : {FsPath : Type 0} → Platform → Build → FsPath → List (Sink FsPath)
unfolding filtered when
configured windows b logfile =
    when b.file_log (filtered b file normal (some logfile))
    ++ (when b.console_log (filtered b console warning none)
        ++ when b.event_log (filtered b event warning none))
configured linux b logfile =
    when b.file_log (filtered b file normal (some logfile))
    ++ (when b.console_log (filtered b console warning none)
        ++ (filtered b syslog warning none ∷ []))

-- The event type of the Windows event log: `unmapped` is the library's, where `init_logging` maps
-- nothing.
pub data EventType : Type 0 where
  success_event info_event warning_event error_event : EventType

event_type : EventType → Severity → EventType
event_type unmapped debug = success_event
event_type unmapped normal = info_event
event_type unmapped warning = warning_event
event_type unmapped error = error_event
event_type unmapped critical = unmapped

-- What `prepare_log_file` reads: the macros of the build, and `getenv`.
pub record Setup (FsPath : Type 0) : Type 0 where
  pub file_dir : FsPath
  pub file_name : Option FsPath
  pub log_directory : Option FsPath
  pub log_file_name : Option FsPath

-- The core, `s_logfile_name`, and the files with their contents.
pub record Log (FsPath : Type 0) : Type 0 where
  pub core : Core FsPath
  pub s_logfile_name : FsPath
  pub files : FsPath → Option Bytes

add_sinks : {FsPath : Type 0} → Core FsPath → List (Sink FsPath) → Core FsPath
add_sinks core sinks = record core { sinks = core.sinks ++ sinks }

pub shutdown_logging : {FsPath : Type 0} → Log FsPath → Log FsPath
shutdown_logging log = record log { core = record { enabled = false; sinks = [] } }

abbrev pub or_default : {A : Type 0} → Option A → A → A
or_default none p = p
or_default (some q) p = q

-- `same` tells whether two paths are one file.
module _ {FsPath : Type 0} (same : FsPath → FsPath → Bool) where
  abbrev pub put : (FsPath → Option Bytes) → FsPath → Bytes → FsPath → Option Bytes
  put files p content q = if same p q then some content else files q

  -- `fs::copy` with an ignored error: it makes no copy where there is a file already.
  copied_to : (FsPath → Option Bytes) → Option Bytes → FsPath → Option Bytes → FsPath → Option Bytes
  copied_to files (some content) to none = put files to content
  copied_to files _ to _ = files

-- `/` and `replace_extension`, here by the current time, are the path library's.
module _ {FsPath : Type 0} (same : FsPath → FsPath → Bool) (join : FsPath → FsPath → FsPath)
    (default_log : FsPath) (backup : FsPath → FsPath) where
  -- An old log file is copied away.
  copied_away : Log FsPath → FsPath → Log FsPath
  unfolding copied_to
  copied_away log logfile = record log {
    s_logfile_name = logfile;
    files =
        copied_to same log.files (log.files logfile) (backup logfile) (log.files (backup logfile));
  }

  pub prepare_log_file : Setup FsPath → Log FsPath → Log FsPath
  unfolding copied_away
  prepare_log_file s log =
      let logfile = join s.file_dir (or_default s.file_name default_log) in
      let log_path = or_default s.log_directory s.file_dir in
      elim s.log_file_name [
        | none ↦ copied_away log logfile
        | some name ↦ copied_away log (join log_path name)
      ]

  -- The constructor of the `ofstream`, in a directory that can be written: the file is empty.
  opened : Log FsPath → Log FsPath
  opened log = record log { files = put same log.files log.s_logfile_name [] }

  prepared : Bool → Setup FsPath → Log FsPath → Log FsPath
  unfolding prepare_log_file opened
  prepared true s log = opened (prepare_log_file s log)
  prepared false s log = log

  pub init_logging : Platform → Build → Setup FsPath → Log FsPath → Log FsPath
  unfolding prepared add_sinks configured
  init_logging p b s log =
      let log = prepared b.file_log s log in
      record log { core = add_sinks log.core (configured p b log.s_logfile_name) }
