-- ===== src/Proxy/Whole.antt =====
-- The requests of the proxy are whole when they come to a dump: every member has the width of its
-- type, and a record of them has a size that a block can hold.
use biology.Base.{
  ℕ, ◌*◌, ◌^◌, ◌≤◌, ◌<◌, ◌≡◌, refl, ap, ◌∙◌, ◌≢◌, inl, inr, true, Bool-cases, [], ◌∷◌,
  if◌then◌else◌, length, length-append, arith,
}
use biology.Base.Bytes.{◌-u64◌, +u64_lem}
use biology.Kernel.{Pages, IsPages, Requests, IsRequests}
use biology.Serial.Info.{Bio, BioInfo, Field, Schema, field_size}
use biology.Serial.Layout.{
  IsWhole, total_len, body_bytes, field_bytes, length-field_bytes, length-record_bytes,
}
use biology.Dump.Session.{Recordable}
use biology.Proxy.Requests.{is_write, info_init, info_fill}

-- A request as the code takes it for granted: its members have the width of their types, and the
-- segments of a write are as long as it. The block layer does not promise the latter for a request
-- that was split or cloned, whose segments `bi_iter` cuts; such a request is outside of the theorems.
pub record IsRequest (bio : Bio) : Type 0 where
  pub sector_fits : bio.bi_sector < 2 ^ 64
  pub size_fits : bio.bi_size < 2 ^ 32
  pub opf_fits : bio.bi_opf < 2 ^ 32
  pub segments_whole : is_write bio ≡ true → total_len bio.bi_io_vec ≡ bio.bi_size

minus_fits : (a b : ℕ) → a -u64 b < 2 ^ 64
unfolding ◌-u64◌
minus_fits a b = omega arith

field_size_le :
    (f : Field) (info : BioInfo Bio) → info.payload.size < 2 ^ 32 → field_size f info ≤ 2 ^ 33
unfolding field_size
field_size_le Field.id info h = omega arith
field_size_le Field.start_ts info h = omega arith
field_size_le Field.end_ts info h = omega arith
field_size_le Field.sector info h = omega arith
field_size_le Field.size info h = omega arith
field_size_le Field.op info h = omega arith
field_size_le Field.cpu info h = omega arith
field_size_le Field.status info h = omega arith
field_size_le Field.payload info h = omega (arith, +u64_lem info.payload.size 8 (omega arith))

length-body_bytes_le :
    (P : Pages) (I : IsPages P) (schema : Schema) (info : BioInfo Bio)
    → IsWhole info
    → length (body_bytes P schema info) ≤ length schema * 2 ^ 33
unfolding body_bytes
length-body_bytes_le P I [] info w = omega arith
length-body_bytes_le P I (f ∷ fs) info w = omega (
  arith,
  length-append (field_bytes P f info) (body_bytes P fs info),
  length-field_bytes P I f info w,
  field_size_le f info w.payload_fits,
  length-body_bytes_le P I fs info w,
)

pub IsWhole-Recordable :
    (P : Pages) (I : IsPages P) (schema : Schema) (info : BioInfo Bio)
    → length schema < 2 ^ 16
    → IsWhole info
    → Recordable P schema info
IsWhole-Recordable P I schema info few w =
    (w, omega (arith, length-record_bytes P schema info, length-body_bytes_le P I schema info w))

-- `blgy_prxy_process_bio` fills in a whole request.
pub info_fill-IsWhole :
    (Q : Requests) (X : IsRequests Q) (bio : Bio) (id cpu now start_ts : ℕ)
    → IsRequest bio
    → id < 2 ^ 32
    → cpu < 2 ^ 32
    → let info = info_fill (info_init id bio) bio cpu (now -u64 start_ts) in
      IsWhole (record info {
        payload = record { size = info.payload.size; content = Q.bio_advance bio bio.bi_size };
      })
unfolding info_fill info_init
info_fill-IsWhole Q X bio id cpu now start_ts r small_id small_cpu = record {
  id_fits = small_id;
  start_ts_fits = minus_fits now start_ts;
  end_ts_fits = omega arith;
  sector_fits = r.sector_fits;
  size_fits = r.size_fits;
  op_fits = r.opf_fits;
  cpu_fits = small_cpu;
  status_fits = omega arith;
  payload_fits = ground (arith, r.size_fits);
  segments_whole =
      λ some_bytes. ap total_len (X.same_segments bio bio.bi_size) ∙ written some_bytes;
}
  where
    written :
        (if is_write bio then bio.bi_size else 0) ≢ 0
        → total_len bio.bi_io_vec ≡ (if is_write bio then bio.bi_size else 0)
    written some_bytes = elim (Bool-cases (is_write bio)) [
      | inl wr ↦ rw wr (r.segments_whole wr)
      | inr rd ↦ absurd (some_bytes (rw rd refl))
    ]

-- `blgy_prxy_bio_end_io` leaves it whole.
pub end_io-IsWhole :
    (info : BioInfo Bio) (status now start_ts : ℕ)
    → IsWhole info
    → status < 2 ^ 8
    → IsWhole (record info {
      end_ts = now -u64 start_ts;
      status = status;
      payload = record {
        size = info.payload.size;
        content = record info.payload.content { bi_status = status };
      };
    })
end_io-IsWhole info status now start_ts w small = record {
  id_fits = w.id_fits;
  start_ts_fits = w.start_ts_fits;
  end_ts_fits = minus_fits now start_ts;
  sector_fits = w.sector_fits;
  size_fits = w.size_fits;
  op_fits = w.op_fits;
  cpu_fits = w.cpu_fits;
  status_fits = small;
  payload_fits = w.payload_fits;
  segments_whole = w.segments_whole;
}
