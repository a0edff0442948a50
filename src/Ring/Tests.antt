-- ===== src/Ring/Tests.antt =====
-- The theorems at rings of a few cells that have gone round.
use ardopb.Base.{ℕ, ◌≡◌, refl, arith, [], ◌∷◌}
use ardopb.Base.Words.{put_u32}
use ardopb.Ring.{RingBuffer, IsValid, contents, put, get, store}
use ardopb.Ring.Samples
use ardopb.Ring.Samples.Laws.{Appends, Removes, write-Appends, read-Removes}
use ardopb.Ring.Samples.Threads.{
  Threads, writer_idle, reader_idle, load_r, copy_in, copy_in_step, copied, load_w, loaded_w, Reach,
  here, next, Consistent,
}
use ardopb.Ring.Samples.Threads.Invariant.{Reach-Consistent}
use ardopb.Ring.Records
use ardopb.Ring.Records.Laws.{wire, Holds, Written, write-Written}
use ardopb.Ring.Records.Reads.{IsRead, read-IsRead}

abbrev two_samples : RingBuffer ℕ
two_samples = record { buf = 7 ∷ 1 ∷ 2 ∷ 9 ∷ []; cap = 4; w = 7; r = 5 }

two_samples-IsValid : IsValid two_samples
two_samples-IsValid = record {
  storage = refl;
  some_room = omega arith;
  cap_fits = omega arith;
  in_order = omega arith;
  bounded = omega arith;
  w_fits = omega arith;
}

contents_run : contents two_samples ≡ 1 ∷ 2 ∷ []
unfolding contents get
contents_run = refl

write_run :
    Samples.write two_samples (3 ∷ 4 ∷ 5 ∷ [])
    ≡ (record { buf = 4 ∷ 1 ∷ 2 ∷ 3 ∷ []; cap = 4; w = 9; r = 5 }, 2)
unfolding Samples.write Samples.write_count put store
write_run = refl

write-Appends_example :
    Appends two_samples (3 ∷ 4 ∷ 5 ∷ []) (Samples.write two_samples (3 ∷ 4 ∷ 5 ∷ []))
write-Appends_example = write-Appends two_samples (3 ∷ 4 ∷ 5 ∷ []) two_samples-IsValid (omega arith)

read-Removes_example : Removes two_samples 1 (Samples.read two_samples 1)
read-Removes_example = read-Removes two_samples 1 two_samples-IsValid

abbrev at_rest : Threads ℕ
at_rest = record {
  ring = two_samples;
  writer = writer_idle;
  reader = reader_idle;
  sent = 8 ∷ 1 ∷ 2 ∷ [];
  delivered = 8 ∷ [];
}

at_rest-Consistent : Consistent at_rest
unfolding contents get
at_rest-Consistent = record {
  valid = two_samples-IsValid;
  history = refl;
  writing = tt;
  reading = tt;
}

-- The reader loads its counter between two steps of the writer.
abbrev interleaved : Threads ℕ
interleaved = record {
  ring = (copy_in two_samples 5 (3 ∷ 4 ∷ 5 ∷ [])).0;
  writer = copied (copy_in two_samples 5 (3 ∷ 4 ∷ 5 ∷ [])).1;
  reader = loaded_w 7 1;
  sent = 8 ∷ 1 ∷ 2 ∷ [];
  delivered = 8 ∷ [];
}

interleaved_run : Reach at_rest interleaved
interleaved_run =
    next (next (next here (load_r (3 ∷ 4 ∷ 5 ∷ []) refl)) (load_w 1 refl))
      (copy_in_step 5 (3 ∷ 4 ∷ 5 ∷ []) refl)

Reach-Consistent_example : Consistent interleaved
Reach-Consistent_example = Reach-Consistent at_rest-Consistent interleaved_run

abbrev one_record : RingBuffer ℕ
one_record = record {
  buf = 0 ∷ 65 ∷ 66 ∷ 9 ∷ 9 ∷ 9 ∷ 9 ∷ 9 ∷ 9 ∷ 9 ∷ 9 ∷ 9 ∷ 9 ∷ 2 ∷ 0 ∷ 0 ∷ [];
  cap = 16;
  w = 19;
  r = 13;
}

one_record-Holds : Holds one_record ((65 ∷ 66 ∷ []) ∷ [])
unfolding contents get wire put_u32
one_record-Holds = record {
  valid = record {
    storage = refl;
    some_room = omega arith;
    cap_fits = omega arith;
    in_order = omega arith;
    bounded = omega arith;
    w_fits = omega arith;
  };
  layout = refl;
  sizes = (omega arith, tt);
}

write-Written_example :
    Written one_record
      ((65 ∷ 66 ∷ []) ∷ [])
      (67 ∷ [])
      (68 ∷ 69 ∷ [])
      1
      (Records.write one_record (67 ∷ []) (68 ∷ 69 ∷ []) 1)
write-Written_example =
    write-Written one_record ((65 ∷ 66 ∷ []) ∷ []) (67 ∷ []) (68 ∷ 69 ∷ []) 1 one_record-Holds
      (omega arith)

read-IsRead_example : IsRead one_record ((65 ∷ 66 ∷ []) ∷ []) 8 (Records.read one_record 8)
read-IsRead_example = read-IsRead one_record ((65 ∷ 66 ∷ []) ∷ []) 8 one_record-Holds
