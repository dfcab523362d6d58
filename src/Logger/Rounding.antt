-- ===== src/Logger/Rounding.antt =====
-- The time in a line of the log.
use kexplorer_server.Prelude.{ℕ, ◌+◌, ◌*◌, ◌/◌, ◌<◌, ◌≡◌, arith}
use kexplorer_server.Logger.{round_time}

-- The milliseconds stay below a thousand, and together with the seconds they are the nearest number of
-- milliseconds to the time of the clock.
pub round_time_nearest :
    (sec nsec : ℕ)
    → nsec < 1000000000
    → ((round_time sec nsec).1 < 1000)
      × ((round_time sec nsec).0 * 1000 + (round_time sec nsec).1
          ≡ (sec * 1000000000 + nsec + 500000) / 1000000)
unfolding round_time
round_time_nearest sec nsec h = ground arith
