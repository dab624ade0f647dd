-- ===== src/Mmc/Slot.antt =====
-- A byte that is written while a card is in the slot goes to the state machine.
use libspectrum.Base.{ℕ, ◌≡◌, ap, none, some}
use libspectrum.Hdf.{Host}
use libspectrum.Mmc.State.{Card}
use libspectrum.Mmc.Port.{take_byte, write}

module _ {host : Host} where
  pub write_in_slot :
      (card : Card host) (b : ℕ) (f : host.File)
      → card.drive.disk ≡ some f
      → write card b ≡ take_byte card.command_state card b
  unfolding write
  write_in_slot card b f h =
      ap (λ d. elim d [ none ↦ card | some _ ↦ take_byte card.command_state card b ]) h
