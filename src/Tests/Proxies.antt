-- ===== src/Tests/Proxies.antt =====
-- A device of the proxy with two processors, and what becomes of its dumps.
use biology.Base.{
  ℕ, ◌+◌, ◌≡◌, refl, ◌⊎◌, true, Option, some, List, [], ◌∷◌, ◌++◌, length, arith, sym, ap, ◌∙◌,
  length-append, take, replicate, ◌≤◌,
}
use biology.Base.Errno.{Errno, enomem, ok, err, Status}
use biology.Kernel.{ptr, Requests, IsRequests}
use biology.Serial.Info.{BioVec, Bio, load_field, field_size, BioInfo}
use biology.Serial.Header.{id_bytes, header_bytes}
use biology.Base.Bytes.{le_bytes}
use biology.Serial.Layout.{
  body_bytes, field_bytes, total_len, record_bytes, payload_bytes, segment_bytes,
}
use biology.Dump.Buffer.{initial_buf_size}
use biology.Dump.Session.{all_records}
use biology.Proxy.Device.{Dev, Setting, created_dev, atomic_inc, schema_for, dev_enable}
use biology.Proxy.Requests.{Proxy, submit_bio, disable, entry}
use biology.Proxy.Steps.{created, Run, here, submitted, stepped, device_enabled}
use biology.Proxy.Balance.{weigh, IsSound, weigh_infos}
use biology.Proxy.Sound.{Run-IsSound}
use biology.Proxy.Logs.{AreFiles, on_cpu}
use biology.Proxy.Whole.{IsRequest}
use biology.Proxy.Tracing.{IsTracing, submit_bio-IsTracing}
use biology.Proxy.Session.{begun, came, dev_enable-IsTracing, session-AreFiles, disable-AreFiles}
use biology.Proxy.Drain.{Run-drains}
use biology.Proxy.Create.{
  Resource, name_text, Answers, dev_create, dev_destroy, dev_create-dev_destroy,
}
use biology.Json.Parse.{prints, parse_dump_file}
use biology.Json.Prints.{texts, first_after}
use biology.Tests.Machine.{
  nothing, blank, regrown, machine, machine-IsAllocator, disk, disk-IsVfs, memory, memory-IsPages,
  write4, write4-IsWhole, dumps, dumps-IsSource, layer, two_held, one_held, two_held-put,
}
use biology.Parser.State.{Parser, parser_init}
use biology.Gen.Replay.{replay, requests}
use biology.Serial.Encode.{bvec_bytes}
use biology.Proxy.Replay.{AreFiles-some, closed_file, session-replay}
use biology.Control.Show.{dev_count}
use biology.Control.Sysfs.{dev_ctl_attr_show, entry_inflight}
use biology.Control.Counts.{Run-dev_count}

abbrev pub layer_below : Requests
layer_below = record { bio_advance = λ bio n. record bio { bi_size = 0 } }

pub layer_below-IsRequests : IsRequests layer_below
layer_below-IsRequests = record { same_segments = λ bio n. refl }

abbrev pub directory : List ℕ
directory = b'/' ∷ b't' ∷ []

-- The file of each processor holds one byte already.
abbrev old_files : ℕ → List ℕ
old_files cpu = cpu ∷ []

abbrev pub setting : Setting disk
setting = record { filp_open = λ path. ptr []; cpus = 2; sizeof_dump = 64; wq = true; now = 5 }

abbrev pub empty_file : ℕ → List ℕ
empty_file cpu = []

abbrev pub bio4 : Bio
bio4 = write4.payload.content

pub bio4-IsRequest : IsRequest bio4
unfolding total_len
bio4-IsRequest = record {
  sector_fits = omega arith;
  size_fits = omega arith;
  opf_fits = omega arith;
  segments_whole = λ wr. refl;
}

-- The created device is enabled.
abbrev pub Tracing : Proxy disk → Type 0
Tracing s = IsTracing disk memory (schema_for true) empty_file 2 true s

abbrev pub with_device : Dev disk → Proxy disk
with_device dev = record {
  dev = dev;
  inflight = [];
  queued = [];
  ended = [];
  passed = [];
  traced = [];
}

pub enabled :
    (dev : Dev disk) × (dev_enable machine setting (created_dev disk) true directory
      ≡ some (dev, ok tt))
    × Tracing (with_device dev)
enabled =
    dev_enable-IsTracing disk machine memory disk-IsVfs machine-IsAllocator memory-IsPages
      (λ f off bytes. refl) (λ old n small. (regrown old n, refl)) layer_below
      layer_below-IsRequests 256 (blank 256) refl true empty_file 2 (omega arith) (created disk)
      setting directory (blank 64) (blank 128) (blank 4096) (blank initial_buf_size) refl tt tt refl
      refl (omega arith) (λ i. refl) refl refl refl refl

-- A write comes to it, on the second processor.
one_write :
    (t : Proxy disk) × (submit_bio machine layer_below 256 1 9 true (with_device enabled.0) bio4
      ≡ some t)
    × Tracing t
one_write =
    submit_bio-IsTracing disk machine memory disk-IsVfs machine-IsAllocator memory-IsPages
      (λ f off bytes. refl) (λ old n small. (regrown old n, refl)) layer_below
      layer_below-IsRequests 256 (blank 256) refl (schema_for true)
      (unfold schema_for in omega arith) empty_file 2 (omega arith) true (with_device enabled.0)
      bio4 1 9 true refl enabled.2 bio4-IsRequest (omega arith)

one_write-Run : Run machine memory layer_below 256 (created disk) (bio4 ∷ []) one_write.0
one_write-Run =
    submitted
      (stepped here (device_enabled setting true directory enabled.0 (ok tt) enabled.1 refl)) bio4 1
      9 true one_write.1

session-AreFiles_example :
    (u : Proxy disk) × (closed : List (Option (List ℕ))) × (disable machine memory one_write.0
      ≡ some (u, closed))
    × AreFiles disk memory
        (schema_for true)
        empty_file
        0
        (one_write.0.traced ++ one_write.0.queued)
        closed
    × (length closed ≡ 2)
session-AreFiles_example =
    session-AreFiles disk machine memory disk-IsVfs machine-IsAllocator memory-IsPages
      (λ f off bytes. refl) (λ old n small. (regrown old n, refl)) layer_below
      layer_below-IsRequests 256 (blank 256) refl true empty_file 2 (omega arith) (created disk)
      setting directory (blank 64) (blank 128) (blank 4096) (blank initial_buf_size) refl tt tt refl
      refl (omega arith) (λ i. refl) refl refl refl refl enabled.0 enabled.1 one_write.0
      (came begun bio4 1 9 true bio4-IsRequest (omega arith) one_write.1)

Run-IsSound_example : IsSound total_len (bio4 ∷ []) [] one_write.0
Run-IsSound_example =
    Run-IsSound machine memory layer_below layer_below-IsRequests total_len 256 one_write.0
      (bio4 ∷ []) one_write-Run

length-weigh_infos : (infos : List (BioInfo Bio)) → length infos ≡ weigh_infos (λ v. 1) infos
unfolding weigh_infos
length-weigh_infos [] = refl
length-weigh_infos (info ∷ infos) = omega (arith, length-weigh_infos infos)

few_held : length one_write.0.inflight + length one_write.0.queued ≤ 1
unfolding weigh weigh_infos
few_held = omega (
  arith,
  (Run-IsSound machine memory layer_below layer_below-IsRequests (λ v. 1) 256 one_write.0
      (bio4 ∷ []) one_write-Run).conserved,
  length-weigh_infos one_write.0.inflight,
  length-weigh_infos one_write.0.queued,
)

Run-dev_count_example :
    (page : List ℕ) × (size : ℕ) × (dev_ctl_attr_show entry_inflight one_write.0
      ≡ some (page, size))
    × (dev_count machine 4096 (some (take size (page ++ replicate 10 0)))
        ≡ some (ok (length one_write.0.inflight + length one_write.0.queued)))
Run-dev_count_example =
    Run-dev_count machine memory layer_below layer_below-IsRequests 256 one_write.0 (bio4 ∷ [])
      machine 4096 10 (blank 4096) one_write-Run (omega (arith, few_held)) (omega arith) refl

Run-drains_example :
    (t : Proxy disk) × Run machine memory layer_below 256 one_write.0 [] t
    × (t.inflight ≡ [])
    × (t.queued ≡ [])
    × (t.dev.bio_inflight ≡ 0)
    × ((w : List BioVec → ℕ) → weigh w t.ended + weigh w t.passed ≡ weigh w (bio4 ∷ []))
Run-drains_example =
    Run-drains disk machine memory disk-IsVfs machine-IsAllocator memory-IsPages
      (λ f off bytes. refl) (λ old n small. (regrown old n, refl)) layer_below
      layer_below-IsRequests 256 (blank 256) refl (schema_for true)
      (unfold schema_for in omega arith) empty_file 2 (omega arith) one_write.0 (bio4 ∷ [])
      one_write-Run one_write.2

-- Two writes of the second processor wait in the queue of the enabled device.
abbrev waiting : Proxy disk
waiting = record (with_device enabled.0) { queued = write4 ∷ write4 ∷ [] }

waiting-IsTracing : Tracing waiting
waiting-IsTracing =
    let h = enabled.2 in
    record {
      dumps = h.dumps;
      on = h.on;
      present = h.present;
      queue = h.queue;
      each = h.each;
      logs = h.logs;
      inflight_held = tt;
      queued_held = ((write4-IsWhole, omega arith), ((write4-IsWhole, omega arith), tt));
      traced_held = tt;
    }

released :
    (u : Proxy disk) × (closed : List (Option (List ℕ))) × (file : List ℕ) × (disable machine memory
        waiting
      ≡ some (u, closed))
    × (entry 1 closed ≡ some (some file))
released =
    let (u, closed, run, files, sized, q, i) =
      disable-AreFiles disk machine memory disk-IsVfs machine-IsAllocator memory-IsPages
        (λ f off bytes. refl) (λ old n small. (regrown old n, refl)) layer_below
        layer_below-IsRequests 256 (blank 256) refl true empty_file 2 (omega arith) waiting
        waiting-IsTracing in
    let (file, at) =
      AreFiles-some disk memory (schema_for true) empty_file (waiting.traced ++ waiting.queued)
        closed 0 1 files (omega arith) in
    (u, closed, file, run, at)

of_second : on_cpu 1 (waiting.traced ++ waiting.queued) ≡ write4 ∷ write4 ∷ []
unfolding on_cpu
of_second = refl

two_writes_size :
    length (header_bytes (schema_for true))
      + length (all_records memory (schema_for true) (write4 ∷ write4 ∷ []))
    ≡ 162
unfolding header_bytes id_bytes all_records schema_for record_bytes body_bytes field_bytes le_bytes
    load_field field_size payload_bytes segment_bytes bvec_bytes
two_writes_size = refl

released_size : length released.2 ≡ 162
released_size =
    let (bytes, whole) =
      closed_file disk machine memory disk-IsVfs machine-IsAllocator memory-IsPages
        (λ f off bytes. refl) (λ old n small. (regrown old n, refl)) layer_below
        layer_below-IsRequests 256 (blank 256) refl true empty_file 2 (omega arith) (λ i. refl)
        waiting released.0 released.1 1 released.2 waiting-IsTracing released.3 released.4 in
    ap length bytes
    ∙ ap (λ l. length (header_bytes (schema_for true) ++ all_records memory (schema_for true) l))
        of_second
    ∙ length-append (header_bytes (schema_for true))
        (all_records memory (schema_for true) (write4 ∷ write4 ∷ []))
    ∙ two_writes_size

session-replay_example :
    (parser : Parser dumps) × (parser_init machine (ptr released.2) ≡ some (parser, ok tt))
    × (replay layer machine two_held
          (record { cpu = 2; start_ts = 50; parser = parser })
          (60 ∷ 70 ∷ 80 ∷ [])
        ≡ some (
          one_held,
          requests blank memory
              (schema_for true)
              50
              (on_cpu 1 (waiting.traced ++ waiting.queued))
              (60 ∷ 70 ∷ 80 ∷ []),
          some (ok tt),
        ))
    × (parse_dump_file machine nothing (some released.2) true
        ≡ prints
            (texts (on_cpu 1 (waiting.traced ++ waiting.queued)) true)
            (first_after (on_cpu 1 (waiting.traced ++ waiting.queued)) true))
session-replay_example =
    session-replay disk machine memory disk-IsVfs machine-IsAllocator memory-IsPages
      (λ f off bytes. refl) (λ old n small. (regrown old n, refl)) layer_below
      layer_below-IsRequests 256 (blank 256) refl true empty_file 2 (omega arith) (λ i. refl)
      waiting released.0 released.1 1 released.2 layer blank (λ old n small. (regrown old n, refl))
      dumps dumps-IsSource released.2 2 50 two_held one_held (60 ∷ 70 ∷ 80 ∷ []) nothing true
      waiting-IsTracing released.3 released.4 (λ op. refl) (λ buf n. refl) (λ n. refl) refl
      (omega (arith, released_size)) refl two_held-put (ap (λ l. length l + 1) (sym of_second))

-- The disk of a device cannot be added.
abbrev refused : Answers
refused = record { memory = true; target = ok tt; disk = ok tt; added = err enomem; ctl = ok tt }

dev_create-dev_destroy_example :
    (r : List Resource × ℕ × Status) × (dev_create refused (name_text ∷ []) 3 ≡ some r)
    × (((e : Errno) × (r ≡ (name_text ∷ [], 3, err e)))
        ⊎ ((r.2 ≡ ok tt) × (r.1 ≡ atomic_inc 3) × (dev_destroy true r.0 r.1 ≡ some ([], 3))))
dev_create-dev_destroy_example = dev_create-dev_destroy refused [] 3 (omega arith)
