-- ===== src/ProcFs/Usage.antt =====
-- include/kesrv/processmanager/procfs.hxx: the numbers of a stat line.
use kexplorer_server.Prelude.{ℕ}
use kexplorer_server.Prelude.Int.{ℤ, pos, negsuc}

-- The fields of `Stat` from the flags on. Where the source has `unsigned` types they are naturals.
pub record Usage : Type 0 where
  pub flags : ℕ
  pub minflt : ℕ
  pub cminflt : ℕ
  pub majflt : ℕ
  pub cmajflt : ℕ
  pub utime : ℕ
  pub stime : ℕ
  pub cutime : ℤ
  pub cstime : ℤ
  pub priority : ℤ
  pub nice : ℤ
  pub num_threads : ℤ
  pub itrealvalue : ℤ
  pub starttime : ℕ
  pub vsize : ℕ
  pub rss : ℤ
  pub rsslim : ℕ
  pub startcode : ℕ
  pub endcode : ℕ
  pub startstack : ℕ
  pub kstkesp : ℕ
  pub kstkeip : ℕ
  pub signal : ℕ
  pub blocked : ℕ
  pub sigignore : ℕ
  pub sigcatch : ℕ
  pub wchan : ℕ
  pub nswap : ℕ
  pub cnswap : ℕ
  pub exit_signal : ℤ
  pub processor : ℤ
  pub rt_priority : ℕ
  pub policy : ℕ
  pub delayacct_blkio_ticks : ℕ
  pub guest_time : ℕ
  pub cguest_time : ℤ
  pub start_data : ℕ
  pub end_data : ℕ
  pub start_brk : ℕ
  pub arg_start : ℕ
  pub arg_end : ℕ
  pub env_start : ℕ
  pub env_end : ℕ
  pub exit_code : ℤ

-- The initial values of the fields.
abbrev pub no_usage : Usage
no_usage = record {
  flags = 0;
  minflt = 0;
  cminflt = 0;
  majflt = 0;
  cmajflt = 0;
  utime = 0;
  stime = 0;
  cutime = pos 0;
  cstime = pos 0;
  priority = pos 0;
  nice = pos 0;
  num_threads = pos 0;
  itrealvalue = pos 0;
  starttime = 0;
  vsize = 0;
  rss = pos 0;
  rsslim = 0;
  startcode = 0;
  endcode = 0;
  startstack = 0;
  kstkesp = 0;
  kstkeip = 0;
  signal = 0;
  blocked = 0;
  sigignore = 0;
  sigcatch = 0;
  wchan = 0;
  nswap = 0;
  cnswap = 0;
  exit_signal = negsuc 0;
  processor = negsuc 0;
  rt_priority = 0;
  policy = 0;
  delayacct_blkio_ticks = 0;
  guest_time = 0;
  cguest_time = pos 0;
  start_data = 0;
  end_data = 0;
  start_brk = 0;
  arg_start = 0;
  arg_end = 0;
  env_start = 0;
  env_end = 0;
  exit_code = pos 0;
}
