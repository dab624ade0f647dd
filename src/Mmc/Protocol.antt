-- ===== src/Mmc/Protocol.antt =====
-- The byte sequences of the SPI protocol, each as the change of the card that it makes: a command,
-- a block of data behind its token, and the bytes of a response.
use libspectrum.Base.{ℕ, zero, suc, ◌+◌, ◌≤◌, ◌≡◌, refl, ap, ap₂, ◌∙◌, sym, arith}
use libspectrum.Base.{◌==◌, if◌then◌else◌, eq→==, ne→==, lt→ltb}
use libspectrum.Base.{
  List, [], ◌∷◌, ◌++◌, none, some, length, set, get_or, take, drop, take_all, take-drop-suc,
}
use libspectrum.Base.Memory.{memcpy, length-memcpy, take-memcpy}
use libspectrum.Hdf.{Host}
use libspectrum.Mmc.State.{Card}
use libspectrum.Mmc.State.{waiting_for_command, waiting_for_data0}
use libspectrum.Mmc.State.{waiting_for_crc}
use libspectrum.Mmc.State.{waiting_for_data, waiting_for_data_crc1}
use libspectrum.Mmc.Commands.{do_command}
use libspectrum.Mmc.Port.{take_byte, write, write_all, read, end_command, parse_command, store_data}

-- A copy that fills a block replaces it.
pub memcpy_all : (xs ys : List ℕ) → length xs ≡ length ys → memcpy xs 0 ys ≡ ys
memcpy_all xs ys h =
    let copied = take-memcpy xs 0 ys (omega arith) in
    let all : 0 + length ys ≡ length (memcpy xs 0 ys) = omega (arith, length-memcpy xs 0 ys) in
    sym (take_all _ (memcpy xs 0 ys) (omega arith))
    ∙ ap (λ n. take n (memcpy xs 0 ys)) (sym all)
    ∙ copied

-- The response buffer is filled by a sector and the bytes around it.
pub filled :
    (buffer bytes : List ℕ)
    → length buffer ≡ 516
    → length bytes ≡ 512
    → memcpy (memcpy buffer 0 (0 ∷ 0xfe ∷ bytes)) 514 (0 ∷ 0 ∷ [])
      ≡ 0 ∷ 0xfe ∷ bytes ++ (0 ∷ 0 ∷ [])
filled buffer bytes h k =
    let front = memcpy buffer 0 (0 ∷ 0xfe ∷ bytes) in
    let whole = memcpy front 514 (0 ∷ 0 ∷ []) in
    let count : 514 ≡ 0 + length (0 ∷ 0xfe ∷ bytes) = omega arith in
    let before : take 514 front ≡ 0 ∷ 0xfe ∷ bytes =
      ap (λ n. take n front) count ∙ take-memcpy buffer 0 (0 ∷ 0xfe ∷ bytes) (omega arith) in
    let size : length whole ≡ 516 = length-memcpy front 514 _ ∙ length-memcpy buffer 0 _ ∙ h in
    sym (take_all 516 whole (omega arith))
    ∙ take-memcpy front 514 (0 ∷ 0 ∷ []) (omega (arith, length-memcpy buffer 0 (0 ∷ 0xfe ∷ bytes)))
    ∙ ap (λ r. r ++ (0 ∷ 0 ∷ [])) before

module _ {host : Host} where
  -- The card with the fields that a command in the slot is read with.
  abbrev pub commanded : Card host → ℕ → ℕ → ℕ → ℕ → ℕ → Card host
  commanded card c a0 a1 a2 a3 = record card {
    current_command = c;
    argument0 = a0;
    argument1 = a1;
    argument2 = a2;
    argument3 = a3;
    command_state = waiting_for_crc;
  }

  -- A card that is in the slot and waits for a command, without an idle bit, an error or a
  -- sequence.
  abbrev pub ready : Card host → host.File → Card host
  ready card f = record card {
    drive = record card.drive { disk = some f };
    command_state = waiting_for_command;
  }

  -- Six bytes are a command.
  pub write_all_command :
      (card : Card host) (f : host.File) (b c a0 a1 a2 a3 crc : ℕ) (rest : List ℕ)
      → parse_command b ≡ some c
      → write_all (ready card f) (b ∷ a0 ∷ a1 ∷ a2 ∷ a3 ∷ crc ∷ rest)
        ≡ write_all (end_command (do_command (commanded (ready card f) c a0 a1 a2 a3))) rest
  unfolding write_all write take_byte
  write_all_command card f b c a0 a1 a2 a3 crc rest h =
      ap
        (λ o.
          write_all
            (elim o [
              | some c ↦ record (ready card f) {
                current_command = c;
                command_state = waiting_for_data0;
              }
              | none ↦ ready card f
            ])
            (a0 ∷ a1 ∷ a2 ∷ a3 ∷ crc ∷ rest))
        h

  abbrev pub awaiting_data : Card host → host.File → ℕ → Card host
  awaiting_data card f n = record card {
    drive = record card.drive { disk = some f };
    command_state = waiting_for_data;
    data_count = n;
  }

  pub write_all_data :
      (card : Card host) (f : host.File) (n : ℕ) (b : ℕ) (bytes rest : List ℕ)
      → n + suc (length bytes) ≡ 512
      → write_all (awaiting_data card f n) (b ∷ bytes ++ rest)
        ≡ write_all
            (record (awaiting_data card f 512) {
              send_buffer = memcpy card.send_buffer n (b ∷ bytes);
              command_state = waiting_for_data_crc1;
            })
            rest
  unfolding write_all write take_byte store_data memcpy
  write_all_data card f n b [] rest h =
      let last : n + 1 ≡ 512 = omega arith in
      let state : (if n + 1 == 512 then waiting_for_data_crc1 else waiting_for_data)
          ≡ waiting_for_data_crc1 =
        rw (eq→== (n + 1) 512 last) in
      ap₂
        (λ k s.
          write_all
            (record (awaiting_data card f k) {
              send_buffer = set card.send_buffer n b;
              command_state = s;
            })
            rest)
        last state
  write_all_data card f n b (d ∷ bytes) rest h =
      let state : (if n + 1 == 512 then waiting_for_data_crc1 else waiting_for_data)
          ≡ waiting_for_data =
        rw (ne→== (n + 1) 512 (λ e. omega arith)) in
      let card' = record card { send_buffer = set card.send_buffer n b } in
      ap
        (λ s.
          write_all (record (awaiting_data card' f (n + 1)) { command_state = s })
            (d ∷ bytes ++ rest))
        state
      ∙ write_all_data card' f (n + 1) d bytes rest (omega arith)

  unfoldable pub read_all : ℕ → Card host → List ℕ
  unfolding read
  read_all zero card = []
  read_all (suc n) card = let (b, card') = read card in b ∷ read_all n card'

  pub read_all_lem :
      (n i : ℕ) (card : Card host)
      → i + n ≤ length card.response_buffer
      → read_all n (record card { response_next = i; response_end = i + n })
        ≡ take n (drop i card.response_buffer)
  unfolding read_all
  read_all_lem zero i card h = refl
  read_all_lem (suc n) i card h =
      let inside = lt→ltb i (i + suc n) (omega arith) in
      let moved : i + suc n ≡ i + 1 + n = omega arith in
      let next : i + 1 ≡ suc i = omega arith in
      rw inside (
        rw moved (
          ap (λ r. get_or card.response_buffer i 0 ∷ r) (read_all_lem n (i + 1) card (omega arith))
          ∙ rw next (sym (take-drop-suc n i card.response_buffer 0 (omega arith)))))
