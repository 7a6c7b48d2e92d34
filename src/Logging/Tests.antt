-- ===== src/Logging/Tests.antt =====
-- The theorems at concrete builds.
use moose_tools.Prelude.{
  if◌then◌else◌, ◌≡◌, refl, true, false, none, some, List, [], ◌∷◌, codes, Bytes, ◌++◌,
}
use moose_tools.Logging.{
  Severity, debug, normal, warning, level, Entry, formatted, severity_text, linux, Build, file,
  Setup, Log, init_logging, prepared, prepare_log_file, copied_away, opened,
}
use moose_tools.Logging.Sinks.{written, is_set_up, lowest, wanted}
use moose_tools.Logging.Reader.{lacks, is_plain, streamed, read_log}
use moose_tools.Logging.Readback.{read_log-written}
use moose_tools.Logging.Files.{recorded, init_logging-files}
use moose_tools.Paths.{bytes_eq}
use moose_tools.Paths.Containment.{bytes_eq_refl, bytes_eq_sound}

abbrev release : Build
release = record { moose_debug = false; file_log = true; console_log = true; event_log = true }

abbrev fresh : Log Bytes
fresh = record {
  core = record { enabled = true; sinks = [] };
  s_logfile_name = [];
  files = λ p. if bytes_eq p (codes "/var/log/default.log") then some (codes "old") else none;
}

abbrev setup : Setup Bytes
setup = record {
  file_dir = codes "/var/log";
  file_name = none;
  log_directory = none;
  log_file_name = none;
}

abbrev join : Bytes → Bytes → Bytes
join p q = p ++ (codes "/" ++ q)

abbrev default_log : Bytes
default_log = codes "default.log"

abbrev backup : Bytes → Bytes
backup p = p ++ codes ".log_now"

abbrev entry : Severity → Entry
entry severity = record {
  line_id = codes "7";
  timestamp = codes "2015-May-01 10:00:00";
  severity = severity;
  message = codes "[a] : b";
}

abbrev entries : List Entry
entries = entry debug ∷ entry warning ∷ entry normal ∷ []

formatted_warning : formatted (entry warning) ≡ codes "7: [2015-May-01 10:00:00] <WARNING> [a] : b"
unfolding formatted severity_text level
formatted_warning = refl

read_log-written_example :
    read_log (
      streamed (
        written
          (init_logging bytes_eq join default_log backup linux release setup fresh)
          file
          entries))
    ≡ some (entry warning) ∷ some (entry normal) ∷ []
unfolding lowest level wanted is_plain lacks is_set_up
read_log-written_example =
    read_log-written bytes_eq join default_log backup linux release setup fresh file entries refl tt
      refl (refl, (refl, (refl, tt)))

-- The old log is in the backup.
init_logging-files_example :
    let log' = init_logging bytes_eq join default_log backup linux release setup fresh in
    recorded bytes_eq log'.files log'.core entries (codes "/var/log/default.log.log_now")
    ≡ some (codes "old")
unfolding init_logging prepared prepare_log_file copied_away opened
init_logging-files_example =
    init_logging-files bytes_eq bytes_eq_refl bytes_eq_sound join default_log backup linux release
      setup fresh entries (codes "/var/log/default.log.log_now") refl refl
