-- ===== src/Codec/Frame/Table.antt =====
-- core/codec/frame.h's `ardop_modulation` and `ardop_frame_spec`, and frame.c's table.
use Prim.Native.String.{String}
use ardopb.Base.{ℕ, List, [], ◌∷◌, text}

pub data Modulation : Type 0 where
  fsk4 psk4 psk8 qam16 : Modulation

pub record FrameSpec : Type 0 where
  pub name : List ℕ
  pub modulation : Modulation
  pub baud : ℕ
  pub carriers : ℕ
  pub data_bytes_per_carrier : ℕ
  pub rs_bytes_per_carrier : ℕ
  pub quality_threshold : ℕ

-- A row, its columns in the order of the source.
row : String → Modulation → ℕ → ℕ → ℕ → ℕ → ℕ → FrameSpec
unfolding text
row name modulation baud carriers data_bytes rs_bytes quality = record {
  name = text name;
  modulation = modulation;
  baud = baud;
  carriers = carriers;
  data_bytes_per_carrier = data_bytes;
  rs_bytes_per_carrier = rs_bytes;
  quality_threshold = quality;
}

-- The designated entries; a type with no entry has no name.
unfoldable pub frame_table : List (ℕ × FrameSpec)
unfolding row
frame_table =
    (0x23, row "BREAK" fsk4 50 1 0 0 60)
    ∷ (0x24, row "IDLE" fsk4 50 1 0 0 60)
    ∷ (0x29, row "DISC" fsk4 50 1 0 0 60)
    ∷ (0x2C, row "END" fsk4 50 1 0 0 60)
    ∷ (0x2D, row "ConRejBusy" fsk4 50 1 0 0 60)
    ∷ (0x2E, row "ConRejBW" fsk4 50 1 0 0 60)
    ∷ (0x30, row "IDFrame" fsk4 50 1 12 4 50)
    ∷ (0x31, row "ConReq200M" fsk4 50 1 12 4 50)
    ∷ (0x32, row "ConReq500M" fsk4 50 1 12 4 50)
    ∷ (0x33, row "ConReq1000M" fsk4 50 1 12 4 50)
    ∷ (0x34, row "ConReq2000M" fsk4 50 1 12 4 50)
    ∷ (0x35, row "ConReq200F" fsk4 50 1 12 4 50)
    ∷ (0x36, row "ConReq500F" fsk4 50 1 12 4 50)
    ∷ (0x37, row "ConReq1000F" fsk4 50 1 12 4 50)
    ∷ (0x38, row "ConReq2000F" fsk4 50 1 12 4 50)
    ∷ (0x39, row "ConAck200" fsk4 50 1 3 0 50)
    ∷ (0x3A, row "ConAck500" fsk4 50 1 3 0 50)
    ∷ (0x3B, row "ConAck1000" fsk4 50 1 3 0 50)
    ∷ (0x3C, row "ConAck2000" fsk4 50 1 3 0 50)
    ∷ (0x3D, row "PingAck" fsk4 50 1 3 0 50)
    ∷ (0x3E, row "Ping" fsk4 50 1 12 4 50)
    ∷ (0x40, row "4PSK.200.100.E" psk4 100 1 64 32 30)
    ∷ (0x41, row "4PSK.200.100.O" psk4 100 1 64 32 30)
    ∷ (0x42, row "4PSK.200.100S.E" psk4 100 1 16 8 30)
    ∷ (0x43, row "4PSK.200.100S.O" psk4 100 1 16 8 30)
    ∷ (0x44, row "8PSK.200.100.E" psk8 100 1 108 36 30)
    ∷ (0x45, row "8PSK.200.100.O" psk8 100 1 108 36 30)
    ∷ (0x46, row "16QAM.200.100.E" qam16 100 1 128 64 30)
    ∷ (0x47, row "16QAM.200.100.O" qam16 100 1 128 64 30)
    ∷ (0x48, row "4FSK.200.50S.E" fsk4 50 1 16 4 30)
    ∷ (0x49, row "4FSK.200.50S.O" fsk4 50 1 16 4 30)
    ∷ (0x4A, row "4FSK.500.100.E" fsk4 100 1 64 16 30)
    ∷ (0x4B, row "4FSK.500.100.O" fsk4 100 1 64 16 30)
    ∷ (0x4C, row "4FSK.500.100S.E" fsk4 100 1 32 8 30)
    ∷ (0x4D, row "4FSK.500.100S.O" fsk4 100 1 32 8 30)
    ∷ (0x50, row "4PSK.500.100.E" psk4 100 2 64 32 50)
    ∷ (0x51, row "4PSK.500.100.O" psk4 100 2 64 32 50)
    ∷ (0x52, row "8PSK.500.100.E" psk8 100 2 108 36 50)
    ∷ (0x53, row "8PSK.500.100.O" psk8 100 2 108 36 50)
    ∷ (0x54, row "16QAM.500.100.E" qam16 100 2 128 64 50)
    ∷ (0x55, row "16QAM.500.100.O" qam16 100 2 128 64 50)
    ∷ (0x60, row "4PSK.1000.100.E" psk4 100 4 64 32 50)
    ∷ (0x61, row "4PSK.1000.100.O" psk4 100 4 64 32 50)
    ∷ (0x62, row "8PSK.1000.100.E" psk8 100 4 108 36 50)
    ∷ (0x63, row "8PSK.1000.100.O" psk8 100 4 108 36 50)
    ∷ (0x64, row "16QAM.1000.100.E" qam16 100 4 128 64 50)
    ∷ (0x65, row "16QAM.1000.100.O" qam16 100 4 128 64 50)
    ∷ (0x70, row "4PSK.2000.100.E" psk4 100 8 64 32 50)
    ∷ (0x71, row "4PSK.2000.100.O" psk4 100 8 64 32 50)
    ∷ (0x72, row "8PSK.2000.100.E" psk8 100 8 108 36 50)
    ∷ (0x73, row "8PSK.2000.100.O" psk8 100 8 108 36 50)
    ∷ (0x74, row "16QAM.2000.100.E" qam16 100 8 128 64 50)
    ∷ (0x75, row "16QAM.2000.100.O" qam16 100 8 128 64 50)
    ∷ (0x7A, row "4FSK.2000.600.E" fsk4 600 1 600 150 30)
    ∷ (0x7B, row "4FSK.2000.600.O" fsk4 600 1 600 150 30)
    ∷ (0x7C, row "4FSK.2000.600S.E" fsk4 600 1 200 50 30)
    ∷ (0x7D, row "4FSK.2000.600S.O" fsk4 600 1 200 50 30)
    ∷ []

unfoldable pub data_nak_spec : FrameSpec
unfolding row
data_nak_spec = row "DataNAK" fsk4 50 1 0 0 40

unfoldable pub data_ack_spec : FrameSpec
unfolding row
data_ack_spec = row "DataACK" fsk4 50 1 0 0 40
