-- ===== src/Utilities.antt =====
-- utilities.c: durations in milliseconds and in T-states of a 3.5 MHz clock, the pause of a tape
-- block in both, and the number of bytes that hold some bits. A duration is a 32-bit word.
mod Runs
use libspectrum.Base.{ℕ, ◌+◌, ◌-◌, ◌*◌, ◌/◌, ◌^◌, ◌≤◌, ◌<◌, ◌≡◌, refl, arith, List, [], ◌∷◌}
use libspectrum.Bytes.{dword}

abbrev pub tstates_per_ms : ℕ
tstates_per_ms = 3500000 / 1000

unfoldable pub ms_to_tstates : ℕ → ℕ
ms_to_tstates ms = dword (ms * tstates_per_ms)

unfoldable pub tstates_to_ms : ℕ → ℕ
tstates_to_ms tstates = tstates / tstates_per_ms

-- The two fields of a tape block that hold its pause.
pub record Pause : Type 0 where
  pub pause : ℕ
  pub pause_tstates : ℕ

unfoldable pub set_pause_ms : Pause → ℕ → Pause
unfolding ms_to_tstates
set_pause_ms block pause_ms = record block {
  pause = pause_ms;
  pause_tstates = ms_to_tstates pause_ms;
}

unfoldable pub set_pause_tstates : Pause → ℕ → Pause
unfolding tstates_to_ms
set_pause_tstates block pause_tstates = record block {
  pause_tstates = pause_tstates;
  pause = tstates_to_ms pause_tstates;
}

unfoldable pub bits_to_bytes : ℕ → ℕ
bits_to_bytes bits = (bits + 8 - 1) / 8

-- A pause of whole milliseconds that fits 32 bits of T-states, which `libspectrum_set_pause_ms`
-- sets, is set the same by `libspectrum_set_pause_tstates` from its T-states.
pub set_pause_tstates-set_pause_ms :
    (block : Pause) (ms : ℕ)
    → ms * 3500 < 2 ^ 32
    → let set = set_pause_ms block ms in
      (set_pause_tstates block set.pause_tstates ≡ set) × (set.pause_tstates ≡ ms * 3500)
unfolding set_pause_ms set_pause_tstates ms_to_tstates tstates_to_ms
set_pause_tstates-set_pause_ms block ms h =
    let whole : dword (ms * 3500) ≡ ms * 3500 = omega arith in
    let back : ms * 3500 / 3500 ≡ ms = omega arith in rw (whole, back) (refl, refl)

-- The number of bytes for some bits is the least that holds them.
pub bits_to_bytes_lem :
    (bits bytes : ℕ)
    → (bits ≤ 8 * bits_to_bytes bits) × (bits ≤ 8 * bytes → bits_to_bytes bits ≤ bytes)
unfolding bits_to_bytes
bits_to_bytes_lem bits bytes = (omega arith, λ h. omega arith)
