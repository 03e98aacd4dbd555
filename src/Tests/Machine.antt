-- ===== src/Tests/Machine.antt =====
-- Concrete parameters for the tests: a machine whose allocations succeed, a file system
-- whose files are lists of bytes, and a request with a payload.
use biology.Base.{
  ℕ, ◌-◌, ◌^◌, ◌≤◌, ◌<◌, ◌≡◌, refl, sym, ap, ◌∙◌, true, false, some, List, [], ◌∷◌, ◌++◌, length,
  take, drop, replicate, length-replicate, length-append, length-take, take-append_le,
  take-append-drop, take_all, arith, none,
}
use biology.Base.Bytes.{le_bytes}
use biology.Base.Memory.{splice}
use biology.Kernel.{
  Allocator, IsAllocator, Vfs, IsVfs, count, Source, IsSource, delivered, Pages, IsPages, Blocks,
}
use biology.Serial.Info.{Bio, BioInfo, schema_payload, load_field, field_size}
use biology.Serial.Decode.{Block}
use biology.Gen.Worker.{Group, kref_put}
use biology.Serial.Encode.{bvec_bytes}
use biology.Serial.Layout.{
  IsWhole, total_len, segment_bytes, payload_bytes, field_bytes, body_bytes, record_bytes,
}

-- A block as the allocator gives it.
pub blank : ℕ → List ℕ
blank n = replicate n 0

pub blank-length : (n : ℕ) → length (blank n) ≡ n
unfolding blank
blank-length n = length-replicate n 0

pub regrown : List ℕ → ℕ → List ℕ
regrown old n = take n old ++ replicate (n - length old) 0

abbrev pub machine : Allocator
machine = record { kmalloc = λ n. some (blank n); krealloc = λ old n. some (regrown old n) }

keeps : (old : List ℕ) (n k : ℕ) → k ≤ length (take n old) → take k (regrown old n) ≡ take k old
unfolding regrown
keeps old n k h =
    take-append_le k (take n old) (replicate (n - length old) 0) h
    ∙ sym (take-append_le k (take n old) (drop n old) h)
    ∙ ap (take k) (take-append-drop n old)

pub machine-IsAllocator : IsAllocator machine
unfolding regrown
machine-IsAllocator = record {
  kmalloc_length = λ n e. sym (ap length (some_is e)) ∙ blank-length n;
  krealloc_length = λ old n e.
      sym (ap length (some_is e))
      ∙ omega (
        arith,
        length-append (take n old) (replicate (n - length old) 0),
        length-take n old,
        length-replicate {A = ℕ} (n - length old) 0,
      );
  krealloc_keeps = λ old n k e h h'.
      sym (ap (take k) (some_is e)) ∙ keeps old n k (omega (arith, length-take n old));
}
  where
    some_is : {x y : List ℕ} → some x ≡ some y → x ≡ y
    some_is e = cc

abbrev pub disk : Vfs
disk = record {
  File = List ℕ;
  contents = λ f. f;
  iter_write = λ f off bytes. (splice off bytes f, count (length bytes));
}

abbrev pub dumps : Source
dumps = record {
  File = List ℕ;
  contents = λ f. f;
  iter_read = λ f off n. delivered (take n (drop off f));
}

pub dumps-IsSource : IsSource dumps
dumps-IsSource = record { read_full = λ f off n. refl }

abbrev pub memory : Pages
memory = record { bytes_at = λ a n. replicate n a; sizeof_page = 64 }

pub memory-IsPages : IsPages memory
memory-IsPages = record { bytes_at_length = λ a n. length-replicate n a }

abbrev pub layer : Blocks
layer = record { bio_alloc = λ op. true; bio_add_page = λ buf n. n }

-- A write of four bytes.
abbrev pub write4 : BioInfo Bio
write4 = record {
  cpu = 1;
  id = 7;
  start_ts = 1000;
  end_ts = 1500;
  sector = 2048;
  size = 4;
  op = 1;
  status = 0;
  payload = record {
    size = 4;
    content = record {
      bi_sector = 2048;
      bi_size = 4;
      bi_opf = 1;
      bi_status = 0;
      bi_io_vec = record { bv_page = 9; bv_offset = 1; bv_len = 4 } ∷ [];
    };
  };
}

pub write4-IsWhole : IsWhole write4
unfolding total_len
write4-IsWhole = record {
  id_fits = omega arith;
  start_ts_fits = omega arith;
  end_ts_fits = omega arith;
  sector_fits = omega arith;
  size_fits = omega arith;
  op_fits = omega arith;
  cpu_fits = omega arith;
  status_fits = omega arith;
  payload_fits = omega arith;
  segments_whole = λ _. refl;
}

pub write4_size : length (record_bytes memory schema_payload write4) ≡ 61
unfolding record_bytes body_bytes field_bytes payload_bytes segment_bytes bvec_bytes le_bytes
    load_field field_size
write4_size = refl

pub write4-Recordable :
    IsWhole write4 × (length (record_bytes memory schema_payload write4) < 2 ^ 63)
write4-Recordable = (write4-IsWhole, omega (arith, write4_size))

pub disk-IsVfs : IsVfs disk
disk-IsVfs = record {
  write_count = λ f off bytes n h e.
      let whole : n ≡ length bytes = cc e in
      (omega arith, ap (λ t. splice off t f) (sym (take_all n bytes (omega arith))));
  write_fails = λ f off bytes e h x. absurd (cc x);
}

abbrev pub two_held : Group
two_held = record { active = true; refcount = 2; kobj_inited = true; freed = false }

abbrev pub one_held : Group
one_held = record { active = true; refcount = 1; kobj_inited = true; freed = false }

pub two_held-put : kref_put two_held ≡ some one_held
unfolding kref_put
two_held-put = refl

-- The memory that to-json reads the first record into.
abbrev pub nothing : BioInfo Block
nothing = record {
  cpu = 0;
  id = 0;
  start_ts = 0;
  end_ts = 0;
  sector = 0;
  size = 0;
  op = 0;
  status = 0;
  payload = record { size = 0; content = none };
}
