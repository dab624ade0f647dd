-- ===== src/Mmc/Runs.antt =====
-- A host whose file is a list of bytes and whose table is an association list, and the theorems on
-- sectors and cards at a concrete card of 2048 sectors.
use libspectrum.Base.{ℕ, ◌+◌, ◌^◌, ◌≡◌, refl, ap, sym, ◌∙◌, arith, true, false}
use libspectrum.Base.{List, [], ◌∷◌, ◌++◌, Option, none, some, length, replicate, ◌==◌}
use libspectrum.Base.{if◌then◌else◌, length-replicate, ok}
use libspectrum.Hdf.{Host, Drive, read_sector, write_sector}
use libspectrum.Hdf.Laws.{as_read, read_sector-write_sector, read_sector_alias}
use libspectrum.Mmc.State.{Card, erase_none, waiting_for_command}
use libspectrum.Mmc.State.{waiting_for_crc, is_idle}
use libspectrum.Mmc.Port.{write, write_all, read, eject, insert}
use libspectrum.Mmc.Invariant.{IsValid, ReadsByte, read-IsValid, insert-IsValid}
use libspectrum.Mmc.Init.{write_idle, idle_next}
use libspectrum.Mmc.Protocol.{read_all}
use libspectrum.Mmc.Transfer.{read_back, prepared}
use libspectrum.Mmc.Refused.{stale_error}
use libspectrum.Mmc.Erase.{erase_range, erase_commands, zeros}

-- A file that gives a byte for every position.
abbrev same_byte : ℕ → ℕ → ℕ → Option (List ℕ)
same_byte b position n = some (replicate n b)

abbrev Entries : Type 0
Entries = List (ℕ × List ℕ)

abbrev find : Entries → ℕ → Option (List ℕ)
find [] j = none
find ((k, v) ∷ t) j = if k == j then some v else find t j

length-same_byte :
    (f position n : ℕ) (bytes : List ℕ) → same_byte f position n ≡ some bytes → length bytes ≡ n
length-same_byte f position n bytes h =
    let e : replicate n f ≡ bytes = cc h in ap length (sym e) ∙ length-replicate n f

abbrev listed : Host
listed = record {
  File = ℕ;
  read_at = same_byte;
  length-read_at = length-same_byte;
  Table = Entries;
  empty = [];
  lookup = find;
  insert = λ t k v. (k, v) ∷ t;
  lookup-empty = λ k. refl;
  lookup-insert = λ t k j v. refl;
}

abbrev drive : Drive listed
drive = record {
  disk = some 7;
  data_offset = 0x80;
  sector_size = 512;
  cylinders = 2;
  heads = 16;
  sectors = 64;
}

abbrev card : Card listed
card = record {
  drive = drive;
  cache = [];
  c_size = 1;
  total_sectors = 2048;
  r1_status = 1;
  command_state = waiting_for_command;
  current_command = 41;
  argument0 = 0x40;
  argument1 = 0;
  argument2 = 0;
  argument3 = 0;
  data_count = 0;
  send_buffer = zeros;
  response_buffer = replicate 516 0;
  response_end = 0;
  response_next = 0;
  cmd8_issued = true;
  cmd55_issued = true;
  erase_sequence = erase_none;
  erase_block_start = 0;
  erase_block_end = 0;
}

card-IsValid : IsValid card
card-IsValid = record {
  send_size = refl;
  response_size = refl;
  response_fits = omega arith;
  response_order = omega arith;
  data_room = λ e. cc e;
  sequence = refl;
}

-- A card with a response of two bytes, of which the first has been read.
abbrev answering : Card listed
answering = record card {
  response_buffer = 5 ∷ 7 ∷ replicate 514 0;
  response_next = 1;
  response_end = 2;
}

answering-IsValid : IsValid answering
answering-IsValid = record {
  send_size = refl;
  response_size = refl;
  response_fits = omega arith;
  response_order = omega arith;
  data_room = λ e. cc e;
  sequence = refl;
}

read_seven : (read answering).0 ≡ 7
unfolding read
read_seven = refl

read-IsValid_example : IsValid (read answering).1 × ReadsByte answering (read answering)
read-IsValid_example = read-IsValid answering answering-IsValid

insert-IsValid_example : IsValid (eject card) × IsValid (insert card (some (ok drive))).1
insert-IsValid_example = insert-IsValid card (some (ok drive)) card-IsValid

-- A card that waits for the last byte of ACMD41.
abbrev waking : Card listed
waking = record card { command_state = waiting_for_crc }

write_idle_example :
    (is_idle (write waking 0xff) ≡ idle_next waking.command_state waking)
    × (is_idle waking ≡ true → (write waking 0xff).cache ≡ waking.cache)
write_idle_example = write_idle waking 0xff 7 refl

waking_wakes : idle_next waking.command_state waking ≡ false
waking_wakes = refl

read_sector-write_sector_example :
    read_sector listed drive (write_sector listed drive [] 3 zeros) 3 ≡ some (as_read 512 zeros)
read_sector-write_sector_example = read_sector-write_sector listed drive [] 3 3 zeros refl

read_sector_alias_example : read_sector listed drive [] (5 + 2 ^ 23) ≡ read_sector listed drive [] 5
read_sector_alias_example = read_sector_alias listed drive [] 5 refl refl refl

read_back_example :
    read_all 516 (
      write_all
        (write_all
          (prepared card 7)
          (0x58 ∷ 0 ∷ 0 ∷ 1 ∷ 2 ∷ 0xff ∷ 0xfe ∷ 9 ∷ replicate 511 0 ++ (0 ∷ 0 ∷ [])))
        (0x51 ∷ 0 ∷ 0 ∷ 1 ∷ 2 ∷ 0xff ∷ []))
    ≡ 0 ∷ 0xfe ∷ as_read 512 (9 ∷ replicate 511 0) ++ (0 ∷ 0 ∷ [])
read_back_example =
    read_back card 7 0 0 1 2 0xff 0xff 9 0 0 (replicate 511 0) refl refl refl (omega arith)

erase_range_example :
    let card' = write_all (prepared card 7) (erase_commands 0 0 0 1 0 0 0 4 0xff) in
    read_sector listed card'.drive card'.cache 4 ≡ some (as_read 512 zeros)
erase_range_example = erase_range card 7 0 0 0 1 0 0 0 4 0xff 4 (omega arith) (omega arith)

stale_error_example :
    let after =
      write_all
        (write_all
          (prepared card 7)
          (0x58 ∷ 0 ∷ 0 ∷ 8 ∷ 0 ∷ 0xff ∷ 0xfe ∷ 9 ∷ replicate 511 0 ++ (0 ∷ 0 ∷ [])))
        (0x7a ∷ 0 ∷ 0 ∷ 0 ∷ 0 ∷ 0xff ∷ []) in
    (read_all 1 after ≡ 0x40 ∷ []) × (after.r1_status ≡ 0)
stale_error_example =
    stale_error card 7 0 0 8 0 0xff 0xff 9 0 0 (replicate 511 0) refl refl refl (omega arith)
