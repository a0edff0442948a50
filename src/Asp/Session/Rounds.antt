-- ===== src/Asp/Session/Rounds.antt =====
-- The bounds of the rounds of the other loops of app/asp.c are enough: a further round changes nothing.
use ardopb.Base.{ℕ, zero, suc, ◌+◌, ◌-◌, ◌%◌, ◌^◌, ◌≤◌, ◌<◌, ◌≡◌, arith, min, List, length, drop}
use ardopb.Asp.Crc.{crc32}
use ardopb.Asp.Session.{Io, Session, flush_loop}
use ardopb.Asp.Session.Sending.{chunk_size}
use ardopb.Asp.Session.Receiving.{prefix_loop}

module _ {W : Type 0} (io : Io W) where
  flushed : Session W → Session W
  flushed s =
      let sent = io.send s.world (drop s.out_sent s.outbox) in
      record s { world = sent.0; out_sent = s.out_sent + sent.1 }

  -- `flush` has a round for each byte that waits, and one to see that none is left.
  flush_loop_enough :
      (rounds : ℕ) (s : Session W)
      → length s.outbox - s.out_sent < rounds
      → flush_loop io (suc rounds) s ≡ flush_loop io rounds s
  unfolding flush_loop flushed
  flush_loop_enough zero s h = absurd (omega arith)
  flush_loop_enough (suc rounds) s h = ground (arith, h, flush_loop_enough rounds (flushed s))

-- `read_file` reads no more than it is asked for.
abbrev pub ReadIsBounded : {W : Type 0} → Io W → Type 0
ReadIsBounded {W} io = (w : W) (off n : ℕ) → length (io.read_file w off n) ≤ n

module _ {W : Type 0} (io : Io W) (reads : ReadIsBounded io) where
  -- The prefix that a peer holds is read in as many rounds as it has bytes, and one more.
  prefix_loop_enough :
      (w : W) (rounds have off crc : ℕ)
      → have < 2 ^ 32
      → off ≤ have
      → have - off < rounds
      → prefix_loop io w (suc rounds) have off crc ≡ prefix_loop io w rounds have off crc
  unfolding prefix_loop
  prefix_loop_enough w zero have off crc b l h = absurd (omega arith)
  prefix_loop_enough w (suc rounds) have off crc b l h =
      let got : List ℕ = io.read_file w off (min (have - off) chunk_size) in
      ground (
        arith,
        h,
        reads w off (min (have - off) chunk_size),
        prefix_loop_enough w rounds have ((off + length got) % 2 ^ 32) (crc32 crc got) b,
      )
