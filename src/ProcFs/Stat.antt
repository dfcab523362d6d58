-- ===== src/ProcFs/Stat.antt =====
-- The record of include/kesrv/processmanager/procfs.hxx, and the fields of a line of /proc/PID/stat
-- that `ProcFs::readStat` puts into it.
use kexplorer_server.Prelude.{
  ℕ, ◌-◌, ◌%◌, ◌^◌, Bool, false, [], if◌then◌else◌, ◌==◌, ltb, length, take, drop, get_or,
}
use kexplorer_server.Prelude.Int.{ℤ, pos, negsuc}
use kexplorer_server.Prelude.Text.{Str}
use kexplorer_server.Prelude.Numerals.{strtol, strtoul}
use kexplorer_server.ProcFs.Usage.{Usage, no_usage}

pub record Stat : Type 0 where
  pub valid : Bool
  pub error : Str
  pub pid : ℤ
  pub comm : Str
  pub state : ℕ
  pub ppid : ℤ
  pub pgrp : ℤ
  pub session : ℤ
  pub tty_nr : ℤ
  pub tpgid : ℤ
  pub usage : Usage
  pub start_time : ℕ
  pub ruid : ℕ

-- `InvalidPid`.
abbrev pub invalid_pid : ℤ
invalid_pid = negsuc 0

-- `Stat()`; `startTime` has no initial value there, and is set before it is read.
abbrev pub no_stat : Stat
no_stat = record {
  valid = false;
  error = [];
  pid = invalid_pid;
  comm = [];
  state = b'?';
  ppid = invalid_pid;
  pgrp = invalid_pid;
  session = invalid_pid;
  tty_nr = negsuc 0;
  tpgid = invalid_pid;
  usage = no_usage;
  start_time = 0;
  ruid = 0xFFFFFFFF;
}

abbrev low_bits : ℤ → ℕ
low_bits (pos n) = n % 2 ^ 32
low_bits (negsuc n) = 2 ^ 32 - 1 - n % 2 ^ 32

-- The conversion of a `long` to an `int`.
unfoldable pub to_int : ℤ → ℤ
to_int z = let n = low_bits z in if ltb n (2 ^ 31) then pos n else negsuc (2 ^ 32 - 1 - n)

-- The reader of floating-point numbers, with the conversion of its result to `int`, is an argument.
module _ (strtod : Str → ℤ) where
  -- The cases of the `switch` from the eighth on; the text starts behind the separator.
  unfoldable pub set_usage : ℕ → Str → Usage → Usage
  set_usage index text u =
      if index == 8
      then record u { flags = strtoul text % 2 ^ 32 }
      else if index == 9
      then record u { minflt = strtoul text }
      else if index == 10
      then record u { cminflt = strtoul text }
      else if index == 11
      then record u { majflt = strtoul text }
      else if index == 12
      then record u { cmajflt = strtoul text }
      else if index == 13
      then record u { utime = strtoul text }
      else if index == 14
      then record u { stime = strtoul text }
      else if index == 15
      then record u { cutime = strtol text }
      else if index == 16
      then record u { cstime = strtol text }
      else if index == 17
      then record u { priority = strtol text }
      else if index == 18
      then record u { nice = strtol text }
      else if index == 19
      then record u { num_threads = strtol text }
      else if index == 20
      then record u { itrealvalue = strtol text }
      else if index == 21
      then record u { starttime = strtoul text }
      else if index == 22
      then record u { vsize = strtoul text }
      else if index == 23
      then record u { rss = strtol text }
      else if index == 24
      then record u { rsslim = strtoul text }
      else if index == 25
      then record u { startcode = strtoul text }
      else if index == 26
      then record u { endcode = strtoul text }
      else if index == 27
      then record u { startstack = strtoul text }
      else if index == 28
      then record u { kstkesp = strtoul text }
      else if index == 29
      then record u { kstkeip = strtoul text }
      else if index == 30
      then record u { signal = strtoul text }
      else if index == 31
      then record u { blocked = strtoul text }
      else if index == 32
      then record u { sigignore = strtoul text }
      else if index == 33
      then record u { sigcatch = strtoul text }
      else if index == 34
      then record u { wchan = strtoul text }
      else if index == 35
      then record u { nswap = strtoul text }
      else if index == 36
      then record u { cnswap = strtoul text }
      else if index == 37
      then record u { exit_signal = strtod text }
      else if index == 38
      then record u { processor = strtod text }
      else if index == 39
      then record u { rt_priority = strtoul text % 2 ^ 32 }
      else if index == 40
      then record u { policy = strtoul text % 2 ^ 32 }
      else if index == 41
      then record u { delayacct_blkio_ticks = strtoul text }
      else if index == 42
      then record u { guest_time = strtoul text }
      else if index == 43
      then record u { cguest_time = strtol text }
      else if index == 44
      then record u { start_data = strtoul text }
      else if index == 45
      then record u { end_data = strtoul text }
      else if index == 46
      then record u { start_brk = strtoul text }
      else if index == 47
      then record u { arg_start = strtoul text }
      else if index == 48
      then record u { arg_end = strtoul text }
      else if index == 49
      then record u { env_start = strtoul text }
      else if index == 50
      then record u { env_end = strtoul text }
      else if index == 51
      then record u { exit_code = strtod text }
      else u

  -- The `switch`, for a field that is not empty: the field, its separator in front unless it is the
  -- first, and the text from the start of the field on.
  unfoldable pub set_field : ℕ → Str → Str → Stat → Stat
  unfolding to_int
  set_field index field from st =
      let text = drop 1 from in
      if index == 0
      then record st { pid = to_int (strtol from) }
      else if index == 1
      then (if ltb 3 (length field)
          then record st { comm = take (length field - 3) (drop 2 field) }
          else st)
      else if index == 2
      then record st { state = get_or from 1 0 }
      else if index == 3
      then record st { ppid = to_int (strtol text) }
      else if index == 4
      then record st { pgrp = strtod text }
      else if index == 5
      then record st { session = strtod text }
      else if index == 6
      then record st { tty_nr = strtod text }
      else if index == 7
      then record st { tpgid = strtod text }
      else record st { usage = set_usage index text st.usage }
