-- ===== src/Gen/Request.antt =====
-- biology-gen-bio.c: the request that is built from a record, and biology-gen-worker.c's delay.
use biology.Base.{
  ℕ, ◌+◌, ◌-◌, ◌^◌, ◌%◌, ◌≤◌, ◌<◌, ◌≡◌, Bool, Option, none, some, List, ltb, le→ltb, lt→ltb, ltb→lt,
  Bool-cases, inl, inr, ◌==◌, if◌then◌else◌, ◌>>=◌, arith,
}
use biology.Base.Bytes.{◌-u64◌, -u64_lem}
use biology.Kernel.{Allocator, Blocks}
use biology.Serial.Info.{BioInfo}
use biology.Serial.Decode.{Block}

-- The members of the request that the generator sets; `bi_private` is its buffer.
pub record GenBio : Type 0 where
  pub bi_opf : ℕ
  pub bi_sector : ℕ
  pub bi_size : ℕ
  pub bi_private : List ℕ

-- The buffer of `blgy_gen_bio_create`: the payload of the record, or a fresh block of the size of
-- the request, whose allocation can fail. A null payload that has a size is a fault.
unfoldable pub bio_buffer : Allocator → BioInfo Block → Option (Option (List ℕ))
bio_buffer A info =
    if info.payload.size == 0
    then some (A.kmalloc info.size)
    else (info.payload.content >>= λ buf. some (some buf))

-- The rest of `blgy_gen_bio_create`; `none` is null.
unfoldable pub bio_attach : Blocks → BioInfo Block → Option (List ℕ) → Option GenBio
bio_attach B info none = none
bio_attach B info (some buf) =
    if B.bio_add_page buf info.size == info.size
    then some (record {
      bi_opf = info.op;
      bi_sector = info.sector;
      bi_size = info.size;
      bi_private = buf;
    })
    else none

-- `blgy_gen_bio_create`
unfoldable pub bio_create : Blocks → Allocator → BioInfo Block → Option (Option GenBio)
unfolding bio_buffer bio_attach
bio_create B A info =
    if B.bio_alloc info.op
    then (bio_buffer A info >>= λ buf. some (bio_attach B info buf))
    else some none

-- `<` on `s64`, given as bit patterns.
unfoldable pub lt_s64 : ℕ → ℕ → Bool
lt_s64 a b = ltb ((a + 2 ^ 63) % 2 ^ 64) ((b + 2 ^ 63) % 2 ^ 64)

-- The delay, in nanoseconds, of `blgy_gen_work_submit`, from the clock, the start of the worker
-- and the start of the recorded request.
unfoldable pub replay_delay : ℕ → ℕ → ℕ → ℕ
unfolding lt_s64
replay_delay now worker_start_ts info_start_ts =
    if lt_s64 (now -u64 worker_start_ts) info_start_ts
    then info_start_ts -u64 (now -u64 worker_start_ts)
    else 0

-- On a clock that does not go back and with times below `2 ^ 63`, the delay is what is left of the
-- recorded time: the request goes out at the recorded distance from the start of the worker, or
-- at once if that has passed.
pub replay_delay_lem :
    (now worker_start_ts info_start_ts : ℕ)
    → worker_start_ts ≤ now
    → now < 2 ^ 63
    → info_start_ts < 2 ^ 63
    → replay_delay now worker_start_ts info_start_ts ≡ info_start_ts - (now - worker_start_ts)
unfolding replay_delay lt_s64
replay_delay_lem now worker_start_ts info_start_ts h small small' =
    let elapsed = now - worker_start_ts in
    let passed : now -u64 worker_start_ts ≡ elapsed =
      -u64_lem now worker_start_ts h (omega arith) in
    rw passed (elim (Bool-cases (ltb elapsed info_start_ts)) [
      | inl early ↦
          let lt = ltb→lt elapsed info_start_ts early in
          rw
            (lt→ltb ((elapsed + 2 ^ 63) % 2 ^ 64) ((info_start_ts + 2 ^ 63) % 2 ^ 64) (omega arith))
            (-u64_lem info_start_ts elapsed (omega arith) (omega arith))
      | inr late ↦
          let ge : info_start_ts ≤ elapsed = ground arith in
          rw
            (le→ltb ((elapsed + 2 ^ 63) % 2 ^ 64) ((info_start_ts + 2 ^ 63) % 2 ^ 64) (omega arith))
            (omega arith)
    ])
