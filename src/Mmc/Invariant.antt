-- ===== src/Mmc/Invariant.antt =====
-- What holds of a card between two calls: every buffer has its size, every index is inside it, and
-- an erase sequence names sectors of the card.
use libspectrum.Base.{
  get_elem?, get_elem?-get_or, ltb, ltb→lt, ltb→le, Bool-cases, ◌⊎◌, inl, inr, ◌+◌,
}
use libspectrum.Base.{ℕ, ◌≤◌, ◌<◌, ◌≡◌, refl, arith, true}
use libspectrum.Base.{Option, none, some, ◌≢◌, Result, ok, err, length, length-set}
use libspectrum.Hdf.{Host, Drive}
use libspectrum.Mmc.State.{Card, CommandState, erase_none}
use libspectrum.Mmc.State.{reset}
use libspectrum.Mmc.State.{waiting_for_command, waiting_for_data0, waiting_for_data1}
use libspectrum.Mmc.State.{waiting_for_data2, waiting_for_data3, waiting_for_crc}
use libspectrum.Mmc.State.{waiting_for_data_token, waiting_for_data, waiting_for_data_crc1}
use libspectrum.Mmc.State.{waiting_for_data_crc2}
use libspectrum.Mmc.Port.{take_byte, write, read, eject, insert, end_command}
use libspectrum.Mmc.Commands.{do_command}
use libspectrum.Mmc.Sound.{sequence_fits, Sound, do_command-Sound, do_command_data-Sound}

module _ {host : Host} where
  pub record IsValid (card : Card host) : Type 0 where
    pub send_size : length card.send_buffer ≡ 512
    pub response_size : length card.response_buffer ≡ 516
    pub response_fits : card.response_end ≤ 516
    pub response_order : card.response_next ≤ card.response_end
    pub data_room : card.command_state ≡ waiting_for_data → card.data_count < 512
    pub sequence :
        sequence_fits card.erase_sequence card.erase_block_start card.erase_block_end
          card.total_sectors
        ≡ true

  IsValid-Sound : {card : Card host} → IsValid card → Sound card
  IsValid-Sound v = record {
    send_size = v.send_size;
    response_size = v.response_size;
    response_fits = v.response_fits;
    response_order = v.response_order;
    sequence = v.sequence;
  }

  -- A state in which no data byte is awaited.
  Sound-IsValid :
      (card : Card host) → Sound card → card.command_state ≢ waiting_for_data → IsValid card
  Sound-IsValid card s h = record {
    send_size = s.send_size;
    response_size = s.response_size;
    response_fits = s.response_fits;
    response_order = s.response_order;
    data_room = λ e. absurd (h e);
    sequence = s.sequence;
  }

  end_command-IsValid : (card : Card host) → Sound card → IsValid (end_command card)
  unfolding end_command
  end_command-IsValid card s = ground arith

  ready :
      {card : Card host} → Sound card → Sound (record card { command_state = waiting_for_command })
  ready s = record {
    send_size = s.send_size;
    response_size = s.response_size;
    response_fits = s.response_fits;
    response_order = s.response_order;
    sequence = s.sequence;
  }

  -- Each byte that is written to a card keeps it valid.
  take_byte-IsValid :
      (state : CommandState) (card : Card host) (b : ℕ)
      → state ≡ card.command_state
      → IsValid card
      → IsValid (take_byte state card b)
  unfolding take_byte
  take_byte-IsValid waiting_for_command card b e v = ground arith
  take_byte-IsValid waiting_for_data0 card b e v = ground arith
  take_byte-IsValid waiting_for_data1 card b e v = ground arith
  take_byte-IsValid waiting_for_data2 card b e v = ground arith
  take_byte-IsValid waiting_for_data3 card b e v = ground arith
  take_byte-IsValid waiting_for_crc card b e v =
      end_command-IsValid (do_command card) (do_command-Sound card (IsValid-Sound v))
  take_byte-IsValid waiting_for_data_token card b e v = ground arith
  take_byte-IsValid waiting_for_data card b e v =
      ground (arith, length-set card.send_buffer card.data_count b)
  take_byte-IsValid waiting_for_data_crc1 card b e v = ground arith
  take_byte-IsValid waiting_for_data_crc2 card b e v =
      Sound-IsValid _ (ready (do_command_data-Sound card (IsValid-Sound v))) (λ h. cc h)

  -- `libspectrum_mmc_write` keeps a card valid, in every state and for every byte: no buffer is
  -- written past its end, and an erase sequence names only sectors of the card.
  pub write-IsValid : (card : Card host) (b : ℕ) → IsValid card → IsValid (write card b)
  unfolding write
  write-IsValid card b v = in_slot card.drive.disk
    where
      in_slot :
          (disk : Option host.File)
          → IsValid (elim disk [ none ↦ card | some _ ↦ take_byte card.command_state card b ])
      in_slot none = v
      in_slot (some f) = take_byte-IsValid card.command_state card b refl v

  -- What a read gives: the byte of the response buffer at the pointer, which is inside the buffer and
  -- alone moves on; or 0xff at the end of the response, with the card as it was.
  abbrev pub ReadsByte : Card host → ℕ × Card host → Type 0
  ReadsByte card (b, card') =
      ((get_elem? card.response_buffer card.response_next ≡ some b)
        × (card' ≡ record card { response_next = card.response_next + 1 })
        × (card.response_next < card.response_end))
      ⊎ ((b ≡ 0xff) × (card' ≡ card) × (card.response_next ≡ card.response_end))

  -- `libspectrum_mmc_read` keeps a valid card valid. Before the end of the response it gives the byte
  -- that stands in the response buffer at the pointer, which is inside the buffer, and only moves the
  -- pointer on; at the end it gives 0xff, and the card is as it was.
  pub read-IsValid :
      (card : Card host) → IsValid card → IsValid (read card).1 × ReadsByte card (read card)
  unfolding read
  read-IsValid card v = elim (Bool-cases (ltb card.response_next card.response_end)) [
    | inl e ↦
        let more : card.response_next < card.response_end = ltb→lt _ _ e in
        let byte =
          get_elem?-get_or card.response_buffer card.response_next 0
            (omega (arith, more, v.response_size, v.response_fits)) in
        rw e (ground arith, inl (byte, refl, more))
    | inr e ↦
        let ended : card.response_next ≡ card.response_end =
          omega (arith, ltb→le card.response_next card.response_end e, v.response_order) in
        rw e (v, inr (refl, refl, ended))
  ]

  pub eject-IsValid : (card : Card host) → IsValid card → IsValid (eject card)
  unfolding eject reset
  eject-IsValid card v = of_disk card.drive.disk
    where
      of_disk :
          (disk : Option host.File)
          → IsValid (
              reset (elim disk [
                | none ↦ card
                | some _ ↦ record card {
                  drive = record card.drive { disk = none };
                  cache = host.empty;
                }
              ]))
      of_disk none = ground arith
      of_disk (some f) = ground arith

  eject-idle : (card : Card host) → (eject card).erase_sequence ≡ erase_none
  unfolding eject reset
  eject-idle card = refl

  -- A valid card is valid after another is put in or it is taken out, also where its size is
  -- refused.
  pub insert-IsValid :
      (card : Card host) (opened : Option (Result (Drive host)))
      → IsValid card
      → IsValid (eject card) × IsValid (insert card opened).1
  unfolding insert
  insert-IsValid card none v = (eject-IsValid card v, eject-IsValid card v)
  insert-IsValid card (some (err e)) v = (eject-IsValid card v, eject-IsValid card v)
  insert-IsValid card (some (ok drive)) v =
      let out = eject-IsValid card v in (out, ground (arith, out, eject-idle card))
