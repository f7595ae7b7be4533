-- ===== src/Logger/Line.antt =====
-- The lines of the log: `ngx_log_errno`, `ngx_log_stderr`, `ngx_log_error_core` and `ngx_log_close` of
-- my_nginx_event/src/logger/my_logger.cpp. The clock, `strerror`, the process number and the results of
-- `write` are arguments; what is written is a list of descriptors with their bytes, where no
-- descriptor stands for -1. An array `errstr` starts at address 0.
pub mod Bounds
pub mod Text
use mynginx_evnet_module.Base.{
  ℕ, zero, suc, ◌+◌, ◌-◌, ◌^◌, Bool, true, false, Option, none, some, List, [], ◌∷◌, ◌++◌,
  if◌then◌else◌, ltb, leb, ◌==◌, length, take, get_elem?,
}
use mynginx_evnet_module.Base.Bytes.{Bytes, codes}
use mynginx_evnet_module.Base.Decimal.{decimal}
use mynginx_evnet_module.Base.CString.{c_str}
use mynginx_evnet_module.Logger.{Out, put, put_all}
use mynginx_evnet_module.Logger.Format.{
  Arg, word, pid, text_arg, Floating, Printed, printed, undefined, out_of_fuel, vslprintf,
}

abbrev pub err_level : List Bytes
err_level =
    codes "stderr"
    ∷ codes "emerg"
    ∷ codes "alert"
    ∷ codes "crit"
    ∷ codes "error"
    ∷ codes "warn"
    ∷ codes "notice"
    ∷ codes "info"
    ∷ codes "debug"
    ∷ []

abbrev max_error_str : ℕ
max_error_str = 2048

abbrev stderr_fileno : ℕ
stderr_fileno = 2

-- The place at the start of `errstr`, with its limit.
abbrev pub errstr : Out
errstr = record { text = []; buf = 0; last = max_error_str }

-- `%d` of an `int`, which is held by its 32 bits.
unfoldable pub int_text : ℕ → Bytes
int_text n = if leb (2 ^ 31) n then b'-' ∷ decimal (2 ^ 32 - n) else decimal n

abbrev pub leftstr_size : ℕ
leftstr_size = 10

abbrev pub leftstr : ℕ → Bytes
leftstr err = codes " (" ++ int_text err ++ codes ": "

-- The newline at the end, which takes the place of other bytes where there is no room.
unfoldable pub seal : Out → Out
unfolding put
seal o =
    let back = record o {
      text = take (length o.text - (o.buf - (o.last - 1 - 1))) o.text;
      buf = o.last - 1 - 1;
    } in
    if leb (o.last - 1) o.buf then put b'\n' back else put b'\n' o

-- `struct tm` as `localtime_r` gives it.
pub record Time : Type 0 where
  pub tm_year : ℕ
  pub tm_mon : ℕ
  pub tm_mday : ℕ
  pub tm_hour : ℕ
  pub tm_min : ℕ
  pub tm_sec : ℕ

-- `my_log`: the level with its sign, true for a negative one, and the descriptor of the file.
pub record LogFile : Type 0 where
  log_level : Bool × ℕ
  pub fd : Option ℕ

pub data WriteResult : Type 0 where
  written : WriteResult
  no_space : WriteResult
  write_failed : WriteResult

abbrev pub then_print : Printed → (Out → Printed) → Printed
then_print (printed o) next = next o
then_print undefined next = undefined
then_print out_of_fuel next = out_of_fuel

-- `ngx_log_errno`. A number whose text with its zero byte does not fit `leftstr` makes `sprintf`
-- write past the array.
unfoldable pub log_errno : (ℕ → Bytes) → ℕ → Out → Printed
unfolding put_all int_text
log_errno strerror err o =
    let message = leftstr err ++ strerror err ++ codes ") " in
    if leb leftstr_size (length (leftstr err))
    then undefined
    else if ltb (o.buf + length message) o.last
    then printed (put_all message o)
    else printed o

-- The error behind a place, where there is one.
abbrev pub with_errno : (ℕ → Bytes) → ℕ → Out → Printed
with_errno strerror err o = if err == 0 then printed o else log_errno strerror err o

abbrev pub seal_line : (ℕ → Bytes) → ℕ → Out → Printed
seal_line strerror err o = then_print (with_errno strerror err o) (λ o'. printed (seal o'))

-- `level > my_log.LogLevel`
abbrev is_above : ℕ → Bool × ℕ → Bool
is_above level (true, n) = if n == 0 then ltb 0 level else true
is_above level (false, n) = ltb n level

-- Where a write to the file has failed for another reason than its space.
abbrev write_again : Option ℕ → Bytes → List (Option ℕ × Bytes)
write_again none line = (some stderr_fileno, line) ∷ []
write_again (some fd) line = if fd == stderr_fileno then [] else (some stderr_fileno, line) ∷ []

-- The write of the line: a failed one goes to the standard error, unless that is what failed.
unfoldable pub write_line : LogFile → WriteResult → ℕ → Bytes → List (Option ℕ × Bytes)
write_line log result level line =
    if is_above level log.log_level
    then []
    else (log.fd, line)
      ∷ elim result [ written ↦ [] | no_space ↦ [] | write_failed ↦ write_again log.fd line ]

module _ {D : Type 0} (fl : Floating D) where
  -- The time, printed into `strcurrtime` without a limit.
  unfoldable pub time_text : Time → Printed
  unfolding vslprintf
  time_text t =
      vslprintf fl (record { text = []; buf = 0; last = 2 ^ 64 - 1 })
        (codes "%4d-%02d-%02d %02d:%02d:%02d")
        (word (t.tm_year + 1900)
          ∷ word (t.tm_mon + 1)
          ∷ word t.tm_mday
          ∷ word t.tm_hour
          ∷ word t.tm_min
          ∷ word t.tm_sec
          ∷ [])

  -- The time, the level and the process in front of the message.
  unfoldable pub log_head : Time → Bytes → ℕ → Printed
  unfolding time_text put_all
  log_head t level_name process = then_print (time_text t) (λ time.
      then_print
        (vslprintf fl (put_all (c_str time.text) errstr) (codes " [%s] ")
          (text_arg level_name ∷ []))
        (λ o. vslprintf fl o (codes "%P: ") (pid process ∷ [])))

  -- The line that `ngx_log_error_core` puts together; a level past the table is undefined.
  unfoldable pub log_line : Time → (ℕ → Bytes) → ℕ → ℕ → ℕ → Bytes → List (Arg D) → Printed
  unfolding log_head log_errno seal
  log_line t strerror process level err fmt args = elim (get_elem? err_level level) [
    | none ↦ undefined
    | some level_name ↦
        then_print (log_head t level_name process)
          (λ o. then_print (vslprintf fl o fmt args) (seal_line strerror err))
  ]

  -- `ngx_log_error_core`
  unfoldable pub log_error_core :
      Time
      → (ℕ → Bytes)
      → ℕ
      → LogFile
      → WriteResult
      → ℕ
      → ℕ
      → Bytes
      → List (Arg D)
      → Option (List (Option ℕ × Bytes))
  unfolding log_line write_line
  log_error_core t strerror process log result level err fmt args =
      elim (log_line t strerror process level err fmt args) [
        | printed o ↦ some (write_line log result level o.text)
        | undefined ↦ none
        | out_of_fuel ↦ none
      ]

  -- The line of `ngx_log_stderr`.
  unfoldable pub stderr_line : (ℕ → Bytes) → ℕ → Bytes → List (Arg D) → Printed
  unfolding vslprintf put_all log_errno seal
  stderr_line strerror err fmt args =
      then_print (vslprintf fl (put_all (codes "nginx: ") errstr) fmt args) (seal_line strerror err)

  -- `fd > STDERR_FILENO`: a file is open.
  abbrev has_file : LogFile → Bool
  has_file log = elim log.fd [ none ↦ false | some fd ↦ ltb stderr_fileno fd ]

  -- `ngx_log_stderr`: the line without its newline is the format of the line in the file, where no
  -- arguments are given.
  unfoldable pub log_stderr :
      Time
      → (ℕ → Bytes)
      → ℕ
      → LogFile
      → WriteResult
      → ℕ
      → Bytes
      → List (Arg D)
      → Option (List (Option ℕ × Bytes))
  unfolding stderr_line log_error_core
  log_stderr t strerror process log result err fmt args = elim (stderr_line strerror err fmt args) [
    | printed o ↦
        let message = c_str (take (length o.text - 1) o.text) in
        if has_file log
        then elim (log_error_core t strerror process log result 0 0 message []) [
          | none ↦ none
          | some writes ↦ some ((some stderr_fileno, o.text) ∷ writes)
        ]
        else some ((some stderr_fileno, o.text) ∷ [])
    | undefined ↦ none
    | out_of_fuel ↦ none
  ]

-- `ngx_log_close`, with the descriptor that it closes.
unfoldable pub log_close : LogFile → LogFile × Option ℕ
log_close log = elim log.fd [
  | none ↦ (log, none)
  | some fd ↦ if fd == stderr_fileno then (log, none) else (record log { fd = none }, some fd)
]
