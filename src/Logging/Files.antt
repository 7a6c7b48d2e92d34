-- ===== src/Logging/Files.antt =====
-- Log.cpp: what stands in the files after `init_logging` and a sequence of records.
use moose_tools.Prelude.{
  ◌≡◌, refl, sym, ap, ◌∙◌, Bool, true, ◌||◌, Option, none, some, List, [], ◌∷◌, ◌++◌, Bytes, leb,
  arith, subst, append_assoc, append-nil, if◌then◌else◌, Bool-cases, Option-cases, inl, inr,
}
use moose_tools.Logging.{
  level, Entry, formatted, Platform, windows, linux, Build, file, Sink, Core, filtered, when,
  configured, Setup, Log, put, copied_to, copied_away, prepare_log_file, opened, prepared,
  init_logging,
}
use moose_tools.Logging.Sinks.{accepts, lowest, wanted, init_logging-core}
use moose_tools.Logging.Reader.{streamed}

module _ {FsPath : Type 0} (same : FsPath → FsPath → Bool) where
  abbrev pub Files : Type 0
  Files = FsPath → Option Bytes

  -- A line at the end of a file that is open.
  line_at : Files → FsPath → Bytes → Option Bytes → Files
  line_at files p line none = files
  line_at files p line (some content) = put same files p (content ++ line)

  to_stream : Files → Option FsPath → Bytes → Files
  unfolding line_at
  to_stream files none line = files
  to_stream files (some p) line = line_at files p line (files p)

  -- The backend of a sink whose filter passes the record writes a line to its stream.
  recorded_by : Files → List (Sink FsPath) → Entry → Files
  unfolding to_stream
  recorded_by files [] e = files
  recorded_by files (s ∷ ss) e =
      let rest =
        recorded_by
          (if accepts s.filter (level e.severity)
            then to_stream files s.stream (formatted e ++ 10 ∷ [])
            else files)
          ss e in
      rest

  -- The files after a sequence of records.
  pub recorded : Files → Core FsPath → List Entry → Files
  unfolding recorded_by
  recorded files core [] = files
  recorded files core (e ∷ es) =
      recorded (if core.enabled then recorded_by files core.sinks e else files) core es

  -- The older text of a file, or else the one that it is given.
  abbrev pub first_of : Option Bytes → Option Bytes → Option Bytes
  first_of (some content) o = some content
  first_of none o = o

  module _ (same_refl : (p : FsPath) → same p p ≡ true)
      (same_sound : (p q : FsPath) → same p q ≡ true → p ≡ q) where
    put_unchanged :
        (files : Files) (p q : FsPath) (content : Bytes)
        → files p ≡ some content
        → put same files p content q ≡ files q
    put_unchanged files p q content e = elim (Bool-cases (same p q)) [
      | inl t ↦ rw t (sym e ∙ ap files (same_sound p q t))
      | inr f ↦ rw f refl
    ]

    put_twice :
        (files : Files) (p q : FsPath) (c d : Bytes)
        → put same (put same files p c) p d q ≡ put same files p d q
    put_twice files p q c d = ground arith

    -- The file sink of a build that has it.
    recorded_by-configured :
        (p : Platform) (b : Build) (logfile : FsPath) (files : Files) (content : Bytes) (e : Entry)
        → b.file_log ≡ true
        → files logfile ≡ some content
        → recorded_by files (configured p b logfile) e ≡ (
            if b.moose_debug || leb (level (lowest file)) (level e.severity)
            then put same files logfile (content ++ (formatted e ++ 10 ∷ []))
            else files)
    unfolding recorded_by to_stream line_at accepts lowest configured filtered when level
    recorded_by-configured windows b logfile files content e on f = ground (arith, on, f)
    recorded_by-configured linux b logfile files content e on f = ground (arith, on, f)

    put_more :
        (b : Build) (logfile : FsPath) (files : Files) (content : Bytes) (e : Entry)
        (es : List Entry)
        → files logfile ≡ some content
        → (content' : Bytes) × ((if b.moose_debug || leb (level (lowest file)) (level e.severity)
                then put same files logfile (content ++ (formatted e ++ 10 ∷ []))
                else files)
              logfile
            ≡ some content')
          × (content' ++ streamed (wanted b file es) ≡ content ++ streamed (wanted b file (e ∷ es)))
          × ((d : Bytes) (q : FsPath)
              → put same
                  (if b.moose_debug || leb (level (lowest file)) (level e.severity)
                    then put same files logfile (content ++ (formatted e ++ 10 ∷ []))
                    else files)
                  logfile
                  d
                  q
                ≡ put same files logfile d q)
    unfolding wanted streamed
    put_more b logfile files content e es f =
        elim (Bool-cases (b.moose_debug || leb (level (lowest file)) (level e.severity))) [
          | inl t ↦ rw t (
            content ++ (formatted e ++ 10 ∷ []),
            rw (same_refl logfile) refl,
            append_assoc content (formatted e ++ 10 ∷ []) (streamed (wanted b file es))
                ∙ ap (λ (s : Bytes). content ++ s)
                    (append_assoc (formatted e) (10 ∷ []) (streamed (wanted b file es))),
            λ d q. put_twice files logfile q (content ++ (formatted e ++ 10 ∷ [])) d,
          )
          | inr n ↦ rw n (content, f, refl, λ d q. refl)
        ]

    recorded_lem :
        (p : Platform) (b : Build) (logfile : FsPath) (files : Files) (core : Core FsPath)
        (content : Bytes) (es : List Entry) (q : FsPath)
        → b.file_log ≡ true
        → core ≡ record { enabled = true; sinks = configured p b logfile }
        → files logfile ≡ some content
        → recorded files core es q
          ≡ put same files logfile (content ++ streamed (wanted b file es)) q
    unfolding recorded streamed wanted
    recorded_lem p b logfile files core content [] q on c f =
        rw (append-nil content) (sym (put_unchanged files logfile q content f))
    recorded_lem p b logfile files core content (e ∷ es) q on c f =
        let (content', f', more, still) = put_more b logfile files content e es f in
        let files' =
          if b.moose_debug || leb (level (lowest file)) (level e.severity)
          then put same files logfile (content ++ (formatted e ++ 10 ∷ []))
          else files in
        let stepped : recorded files core (e ∷ es) q ≡ recorded files' core es q =
          rw (c, recorded_by-configured p b logfile files content e on f) refl in
        stepped
        ∙ recorded_lem p b logfile files' core content' es q on c f'
        ∙ still (content' ++ streamed (wanted b file es)) q
        ∙ ap (λ s. put same files logfile s q) more

    opened-files :
        (join : FsPath → FsPath → FsPath) (default_log : FsPath) (backup : FsPath → FsPath)
        (setup : Setup FsPath) (log : Log FsPath)
        → let log' = prepared same join default_log backup true setup log in
          let logfile = log'.s_logfile_name in
          log'.files
          ≡ put same
              (copied_to same log.files
                (log.files logfile)
                (backup logfile)
                (log.files (backup logfile)))
              logfile
              []
    unfolding prepared opened prepare_log_file copied_away
    opened-files join default_log backup setup log = elim (Option-cases setup.log_file_name) [
      | inl e ↦ rw e refl
      | inr (name, e) ↦ rw e refl
    ]

    same_content :
        (files : Files) (p q : FsPath) (o : Option Bytes)
        → files p ≡ o
        → files q ≡ (if same p q then o else files q)
    same_content files p q o e = elim (Bool-cases (same p q)) [
      | inl t ↦ rw t (ap files (sym (same_sound p q t)) ∙ e)
      | inr n ↦ rw n refl
    ]

    copied_to-first_of :
        (files : Files) (p q : FsPath) (old kept : Option Bytes)
        → files p ≡ kept
        → copied_to same files old p kept q ≡ (if same p q then first_of kept old else files q)
    unfolding copied_to
    copied_to-first_of files p q none none e = same_content files p q none e
    copied_to-first_of files p q none (some d) e = same_content files p q (some d) e
    copied_to-first_of files p q (some c) none e = refl
    copied_to-first_of files p q (some c) (some d) e = same_content files p q (some d) e

    -- Where two paths are one file exactly if `same` says so: after `init_logging` of an enabled core
    -- without sinks, by a build with the log file, and any records, the log file holds a line for each
    -- record whose severity is normal or higher, in a debug build for each record, in order, and nothing
    -- else; the text that stood there before is in the file's backup, unless there was a backup of that
    -- name already, which stays and then is all that is left; every other file is as before.
    pub init_logging-files :
        (join : FsPath → FsPath → FsPath) (default_log : FsPath) (backup : FsPath → FsPath)
        (p : Platform) (b : Build) (setup : Setup FsPath) (log : Log FsPath) (es : List Entry)
        (q : FsPath)
        → log.core ≡ record { enabled = true; sinks = [] }
        → b.file_log ≡ true
        → let log' = init_logging same join default_log backup p b setup log in
          let logfile = log'.s_logfile_name in
          recorded log'.files log'.core es q ≡ (
            if same logfile q
            then some (streamed (wanted b file es))
            else if same (backup logfile) q
            then first_of (log.files (backup logfile)) (log.files logfile)
            else log.files q)
    unfolding init_logging
    init_logging-files join default_log backup p b setup log es q fresh on =
        let log' = init_logging same join default_log backup p b setup log in
        let logfile = log'.s_logfile_name in
        let c : log'.core ≡ record { enabled = true; sinks = configured p b logfile } =
          init_logging-core same join default_log backup p b setup log
          ∙ ap
              (λ (k : Core FsPath). record {
                enabled = k.enabled;
                sinks = k.sinks ++ configured p b logfile;
              })
              fresh in
        let saved =
          copied_to same log.files (log.files logfile) (backup logfile)
            (log.files (backup logfile)) in
        let files : log'.files ≡ put same saved logfile [] =
          subst
            (λ (on : Bool).
              let l = prepared same join default_log backup on setup log in
              l.files
              ≡ put same
                  (copied_to same log.files (log.files l.s_logfile_name) (backup l.s_logfile_name)
                    (log.files (backup l.s_logfile_name)))
                  l.s_logfile_name [])
            (sym on) (opened-files join default_log backup setup log) in
        let empty : log'.files logfile ≡ some [] =
          ap (λ (f : Files). f logfile) files ∙ rw (same_refl logfile) refl in
        let lines = streamed (wanted b file es) in
        recorded_lem p b logfile log'.files log'.core [] es q on c empty
        ∙ ap (λ (f : Files). put same f logfile lines q) files
        ∙ put_twice saved logfile q [] lines
        ∙ ap (λ (o : Option Bytes). if same logfile q then some lines else o)
            (copied_to-first_of log.files (backup logfile) q (log.files logfile)
              (log.files (backup logfile)) refl)
