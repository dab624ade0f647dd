-- ===== src/Tape/Zeros.antt =====
-- States of a tape that are all zeros, to begin with.
use libspectrum.Base.{[], false, none}
use libspectrum.Tape.Edges.{invalid_state}
use libspectrum.Tape.Data.{DataState}
use libspectrum.Tape.Next.{States}

abbrev pub bits : DataState
bits = record {
  state = invalid_state;
  edge_count = 0;
  bytes_through_block = 0;
  bits_through_byte = 0;
  current_byte = 0;
  bit_tstates = 0;
}

abbrev pub unset : States
unset = record {
  bits = bits;
  edge_count = 0;
  raw = record {
    state = invalid_state;
    bytes_through_block = 0;
    bits_through_byte = 0;
    last_bit = false;
    bit_tstates = 0;
  };
  generalised = record {
    state = invalid_state;
    run = 0;
    symbols_through_run = 0;
    edges_through_symbol = 0;
    current_symbol = 0;
    symbols_through_stream = 0;
    current_byte = 0;
    bits_through_byte = 0;
    bytes_through_stream = 0;
  };
  index = 0;
  sequence = record { index = 0; pulse_count = 0; level = none };
  pulsed = record {
    state = invalid_state;
    bit0_flags = 0;
    bit1_flags = 0;
    bytes_through_block = 0;
    bits_through_byte = 0;
    current_byte = 0;
    bit_pulses = [];
    bit_flags = 0;
    level = false;
    index = 0;
  };
}
