-- ===== src/Utilities/Runs.antt =====
-- The theorems on pauses and bits at concrete numbers.
use libspectrum.Base.{◌≡◌, arith}
use libspectrum.Utilities.{Pause, set_pause_ms, set_pause_tstates}
use libspectrum.Utilities.{set_pause_tstates-set_pause_ms}

abbrev none_yet : Pause
none_yet = record { pause = 0; pause_tstates = 0 }

set_pause_tstates-set_pause_ms_example :
    let set = set_pause_ms none_yet 1000 in
    (set_pause_tstates none_yet set.pause_tstates ≡ set) × (set.pause_tstates ≡ 3500000)
set_pause_tstates-set_pause_ms_example = set_pause_tstates-set_pause_ms none_yet 1000 (omega arith)
