-- ===== src/Logging/FileName.antt =====
-- Log.cpp: the log file's name, and the text of a severity.
use moose_tools.Prelude.{
  ℕ, ◌≡◌, refl, Bool, Option, none, ltb, get_or, if◌then◌else◌, arith, zero, suc,
}
use moose_tools.Logging.{
  Setup, Log, copied_away, prepare_log_file, text, undefined, severity_strings, severity_output,
}

-- Without MOOSE_LOG_FILE_NAME in the environment, MOOSE_LOG_DIRECTORY changes neither the log file
-- nor what is copied away.
prepare_log_file_directory :
    {FsPath : Type 0} (same : FsPath → FsPath → Bool) (join : FsPath → FsPath → FsPath)
    (default_log : FsPath) (backup : FsPath → FsPath) (s : Setup FsPath) (log : Log FsPath)
    (directory : Option FsPath)
    → s.log_file_name ≡ none
    → prepare_log_file same join default_log backup (record s { log_directory = directory }) log
      ≡ prepare_log_file same join default_log backup s log
unfolding prepare_log_file copied_away
prepare_log_file_directory same join default_log backup s log directory e = ground arith

-- A level below 5 is written as the text at its place in the array; any other level reads past the
-- array's end, and is never written as a number.
severity_output_lem :
    (n : ℕ)
    → severity_output n ≡ (if ltb n 5 then text (get_or severity_strings n "") else undefined)
unfolding severity_output
severity_output_lem zero = refl
severity_output_lem (suc zero) = refl
severity_output_lem (suc (suc zero)) = refl
severity_output_lem (suc (suc (suc zero))) = refl
severity_output_lem (suc (suc (suc (suc zero)))) = refl
severity_output_lem (suc (suc (suc (suc (suc n))))) = ground arith
