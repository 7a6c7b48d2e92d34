-- ===== src/Logging/Readback.antt =====
-- Log.cpp: what a reader of the log file finds.
use moose_tools.Prelude.{
  ◌≡◌, ap, ◌∙◌, Bool, true, false, ◌||◌, leb, some, List, [], ◌∷◌, map, if◌then◌else◌, All,
}
use moose_tools.Logging.{
  level, Entry, Platform, Build, SinkKind, file, console, init_logging, Log, Setup,
}
use moose_tools.Logging.Reader.{is_plain, streamed, read_log, read_log-streamed}
use moose_tools.Logging.Sinks.{written, wanted, lowest, is_set_up, written-init_logging}

if-All :
    (on : Bool) (e : Entry) (es : List Entry)
    → is_plain e ≡ true
    → All (λ e. is_plain e ≡ true) es
    → All (λ e. is_plain e ≡ true) (if on then e ∷ es else es)
if-All true e es h hs = (h, hs)
if-All false e es h hs = hs

wanted-plain :
    (b : Build) (kind : SinkKind) (es : List Entry)
    → All (λ e. is_plain e ≡ true) es
    → All (λ e. is_plain e ≡ true) (wanted b kind es)
unfolding wanted
wanted-plain b kind [] h = tt
wanted-plain b kind (e ∷ es) (h, hs) =
    if-All (b.moose_debug || leb (level (lowest kind)) (level e.severity)) e (wanted b kind es) h
      (wanted-plain b kind es hs)

-- The sinks that write lines to a stream: the file and the console.
abbrev IsStream : SinkKind → Type 0
IsStream file = Unit
IsStream console = Unit
IsStream _ = ⊥

-- After `init_logging` of an enabled core without sinks, for records whose number is written without a
-- colon, whose time without a bracket, and without a line break in any of their texts: a reader of the
-- log file, or of the console, if the build sets it up, finds, in order and in full, the records whose
-- severity is normal or higher in the file and warning or higher on the console, in a debug build all
-- of them, and nothing else.
pub read_log-written :
    {FsPath : Type 0} (same : FsPath → FsPath → Bool) (join : FsPath → FsPath → FsPath)
    (default_log : FsPath) (backup : FsPath → FsPath) (p : Platform) (b : Build)
    (setup : Setup FsPath) (log : Log FsPath) (kind : SinkKind) (es : List Entry)
    → log.core ≡ record { enabled = true; sinks = [] }
    → IsStream kind
    → is_set_up p b kind ≡ true
    → All (λ e. is_plain e ≡ true) es
    → read_log
        (streamed (written (init_logging same join default_log backup p b setup log) kind es))
      ≡ map some (wanted b kind es)
read_log-written same join default_log backup p b setup log kind es fresh _ on plain =
    ap (λ ws. read_log (streamed ws))
      (written-init_logging same join default_log backup p b setup log kind es fresh)
    ∙ ap (λ k. read_log (streamed (if k then wanted b kind es else []))) on
    ∙ read_log-streamed (wanted b kind es) (wanted-plain b kind es plain)
