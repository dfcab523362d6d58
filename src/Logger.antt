-- ===== src/Logger.antt =====
-- src/kexplorer-server/logger.cxx and include/kesrv/log.hxx: which messages are written, and the line
-- that a message becomes. The clock and the local time are arguments; `vsnprintf` has made the text.
pub mod Rounding
use kexplorer_server.Prelude.{
  ℕ, ◌+◌, ◌-◌, ◌/◌, Bool, true, false, Option, none, some, List, [], ◌∷◌, ◌++◌, if◌then◌else◌, ltb,
  leb, length, replicate,
}
use kexplorer_server.Prelude.Text.{Str, codes}
use kexplorer_server.Prelude.Numerals.{decimal}

pub data Level : Type 0 where
  debug info warning error fatal off : Level

-- The value of the enumerator.
abbrev pub rank : Level → ℕ
rank Level.debug = 0
rank Level.info = 1
rank Level.warning = 2
rank Level.error = 3
rank Level.fatal = 4
rank Level.off = 5

abbrev pub letter : Level → Str
letter Level.debug = codes "D"
letter Level.info = codes "I"
letter Level.warning = codes "W"
letter Level.error = codes "E"
letter Level.fatal = codes "!"
letter Level.off = codes "?"

-- The time of the clock: seconds and nanoseconds, rounded to seconds and milliseconds.
unfoldable pub round_time : ℕ → ℕ → ℕ × ℕ
round_time sec nsec = if leb 999500000 nsec then (sec + 1, 0) else (sec, (nsec + 500000) / 1000000)

-- "%02d" and "%03d".
abbrev pub padded : ℕ → ℕ → Str
padded width n = replicate (width - length (decimal n)) b'0' ++ decimal n

-- The hour, the minute and the second of `localtime_r`.
pub record LocalTime : Type 0 where
  pub hour : ℕ
  pub minute : ℕ
  pub second : ℕ

unfoldable pub prefix : Level → LocalTime → ℕ → Str
prefix level t msec =
    codes "["
    ++ (padded 2 t.hour
        ++ (codes ":"
            ++ (padded 2 t.minute
                ++ (codes ":"
                    ++ (padded 2 t.second
                        ++ (codes "."
                            ++ (padded 3 msec ++ (codes " " ++ (letter level ++ codes "] ")))))))))

-- `writev`: what is written to the file, if anything.
unfoldable pub writev : Level → (ℕ → LocalTime) → ℕ → ℕ → Level → Str → Option Str
unfolding round_time prefix
writev threshold local sec nsec level formatted =
    if ltb (rank level) (rank threshold)
    then none
    else (let (sec', msec) = round_time sec nsec in
        some (prefix level (local sec') msec ++ (formatted ++ codes "\n")))
