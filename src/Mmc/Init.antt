-- ===== src/Mmc/Init.antt =====
-- The idle state: how a card leaves it and comes back to it, and what it refuses meanwhile.
use mathlib.Core.Path.{subst}
use libspectrum.Base.{ℕ, ◌∙◌, ◌%◌, ◌≡◌, refl, arith}
use libspectrum.Base.{Bool, true, false, not, ◌&&◌, ◌==◌, if◌then◌else◌, Bool-cases, inl, inr}
use libspectrum.Base.{some, bit_and}
use libspectrum.Base.Bits.{bit_and-one, bit_and_low}
use libspectrum.Hdf.{Host}
use libspectrum.Mmc.State.{Card, CommandState}
use libspectrum.Mmc.State.{is_idle, respond}
use libspectrum.Mmc.State.{waiting_for_command, waiting_for_data0, waiting_for_data1}
use libspectrum.Mmc.State.{waiting_for_data2, waiting_for_data3, waiting_for_crc}
use libspectrum.Mmc.State.{waiting_for_data_token, waiting_for_data, waiting_for_data_crc1}
use libspectrum.Mmc.State.{waiting_for_data_crc2}
use libspectrum.Mmc.State.{in_idle_state_mask, illegal_command_mask}
use libspectrum.Mmc.Port.{take_byte, write, end_command}
use libspectrum.Mmc.Commands.{do_command, do_command_data}
use libspectrum.Mmc.Commands.{do_application_command, do_standard_command, leave_erase_sequence}
use libspectrum.Mmc.Slot.{write_in_slot}
use libspectrum.Mmc.Quiet.{
  low, leave_erase_sequence-Quiet, do_command_data-Quiet, do_standard_command-Quiet,
}

module _ {host : Host} where
  -- A command that starts the card: ACMD41 behind CMD55, after a CMD8, with the bit for high
  -- capacity set.
  abbrev pub starts : Card host → Bool
  starts card =
      card.cmd55_issued
      && (card.current_command == 41
          && (card.cmd8_issued && not (bit_and card.argument0 0x40 == 0)))

  abbrev pub idle_after : Card host → Bool
  idle_after card =
      if card.current_command == 0 then true else if starts card then false else is_idle card

  app-idle :
      (card : Card host)
      → let (card', done) = do_application_command card in
        (card'.cache ≡ card.cache)
        × (card'.current_command ≡ card.current_command)
        × (done ≡ true → (card.current_command == 0) ≡ false)
        × (done ≡ false → (card.current_command == 41) ≡ false)
        × (card'.r1_status % 2 ≡ (
            if card.current_command == 41
              && (card.cmd8_issued && not (bit_and card.argument0 0x40 == 0))
            then 0
            else card.r1_status % 2))
  unfolding do_application_command respond
  app-idle card = ground (arith, low card illegal_command_mask, bit_and_low card.r1_status 0xfe)

  standard-idle :
      (card : Card host)
      → ((do_standard_command card).r1_status % 2
          ≡ (if card.current_command == 0 then 1 else card.r1_status % 2))
        × (card.r1_status % 2 ≡ 1 → (do_standard_command card).cache ≡ card.cache)
  standard-idle card = elim (Bool-cases (card.current_command == 0)) [
    | inl e ↦
        unfold do_standard_command respond in
        rw (e, low card in_idle_state_mask) (omega arith, λ _. refl)
    | inr e ↦ rw e (do_standard_command-Quiet card e)
  ]

  abbrev Idles : Card host → Card host → ℕ → Type 0
  Idles c c' n = (c'.r1_status % 2 ≡ n) × (c.r1_status % 2 ≡ 1 → c'.cache ≡ c.cache)

  -- A standard command, after the end of an erase sequence.
  left-Idles :
      (card : Card host)
      → Idles card
          (do_standard_command (leave_erase_sequence card))
          (if card.current_command == 0 then 1 else card.r1_status % 2)
  left-Idles card =
      let c = leave_erase_sequence card in
      let same : c.current_command ≡ card.current_command =
        unfold leave_erase_sequence in ground arith in
      let (bit, cache) = leave_erase_sequence-Quiet card in
      let (bit', cache') = standard-idle c in
      (bit' ∙ rw (same, bit), λ h. cache' (bit ∙ h) ∙ cache h)

  -- The three ways through `do_command`: `a` is the card after an application command, `x` and `y`
  -- those after a standard one.
  choice-Idles :
      (app done sends : Bool) (n : ℕ) (card a x y : Card host)
      → a.cache ≡ card.cache
      → (done ≡ true → (n == 0) ≡ false)
      → (done ≡ false → (n == 41) ≡ false)
      → a.r1_status % 2 ≡ (if n == 41 && sends then 0 else card.r1_status % 2)
      → Idles a x (if n == 0 then 1 else a.r1_status % 2)
      → Idles card y (if n == 0 then 1 else card.r1_status % 2)
      → Idles card
          (if app then if done then a else x else y)
          (if n == 0 then 1 else if app && (n == 41 && sends) then 0 else card.r1_status % 2)
  choice-Idles false done sends n card a x y e h k l v w = w
  choice-Idles true true sends n card a x y e h k l v w = rw (h refl) (l, λ _. e)
  choice-Idles true false sends n card a x y e h k l v w =
      let bit : a.r1_status % 2 ≡ card.r1_status % 2 = l ∙ rw (k refl) in
      rw (k refl) (v.0 ∙ rw bit, λ i. v.1 (bit ∙ i) ∙ e)

  -- The idle bit and the cache after a command.
  do_command-Idles :
      (card : Card host)
      → Idles card
          (do_command card)
          (if card.current_command == 0 then 1 else if starts card then 0 else card.r1_status % 2)
  unfolding do_command
  do_command-Idles card =
      let plain = record card { cmd55_issued = false } in
      let (a, done) = do_application_command plain in
      let (cache, same, zero_not, other, bit) = app-idle plain in
      choice-Idles card.cmd55_issued done
        (card.cmd8_issued && not (bit_and card.argument0 0x40 == 0)) card.current_command card a _ _
        cache zero_not other bit
        (subst
          (λ n.
            Idles a (do_standard_command (leave_erase_sequence a))
              (if n == 0 then 1 else a.r1_status % 2))
          same (left-Idles a))
        (left-Idles card)

  abbrev pub idle_next : CommandState → Card host → Bool
  idle_next waiting_for_crc card = idle_after card
  idle_next state card = is_idle card

  take_byte-idle :
      (state : CommandState) (card : Card host) (b : ℕ)
      → (is_idle (take_byte state card b) ≡ idle_next state card)
        × (is_idle card ≡ true → (take_byte state card b).cache ≡ card.cache)
  unfolding take_byte end_command is_idle
  take_byte-idle waiting_for_command card b = ground arith
  take_byte-idle waiting_for_data0 card b = (refl, λ _. refl)
  take_byte-idle waiting_for_data1 card b = (refl, λ _. refl)
  take_byte-idle waiting_for_data2 card b = (refl, λ _. refl)
  take_byte-idle waiting_for_data3 card b = (refl, λ _. refl)
  take_byte-idle waiting_for_crc card b = ground (
    arith,
    do_command-Idles card,
    bit_and-one card.r1_status,
    bit_and-one (do_command card).r1_status,
    bit_and-one (bit_and (do_command card).r1_status 1),
  )
  take_byte-idle waiting_for_data_token card b = ground arith
  take_byte-idle waiting_for_data card b = (refl, λ _. refl)
  take_byte-idle waiting_for_data_crc1 card b = (refl, λ _. refl)
  take_byte-idle waiting_for_data_crc2 card b = ground (
    arith,
    do_command_data-Quiet card,
    bit_and-one card.r1_status,
    bit_and-one (do_command_data card).r1_status,
  )

  -- A byte that is written to a card in the slot clears the idle bit only as the last byte of an
  -- ACMD41 that follows CMD55, after a CMD8, with the high capacity bit set, and sets it only as
  -- the last byte of CMD0. While the bit is set no byte changes a sector of the card.
  pub write_idle :
      (card : Card host) (b : ℕ) (f : host.File)
      → card.drive.disk ≡ some f
      → (is_idle (write card b) ≡ idle_next card.command_state card)
        × (is_idle card ≡ true → (write card b).cache ≡ card.cache)
  write_idle card b f h = rw (write_in_slot card b f h) (take_byte-idle card.command_state card b)
