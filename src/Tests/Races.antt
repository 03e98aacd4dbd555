-- ===== src/Tests/Races.antt =====
-- A device that is disabled while a request is in flight and another waits in its queue.
use biology.Base.{
  suc, subst, if◌then◌else◌, ℕ, ◌≡◌, refl, true, Option, none, some, List, [], ◌∷◌, ◌++◌, length,
  arith, sym, ap, ◌∙◌,
}
use biology.Base.Errno.{ok}
use biology.Serial.Info.{Bio, BioInfo}
use biology.Base.Bytes.{◌-u64◌}
use biology.Dump.Session.{some_injective}
use biology.Proxy.Device.{next_bio_id, schema_for}
use biology.Proxy.Requests.{
  info_init, info_fill, process_clone, process_bio, Proxy, submit_bio, end_io, disable,
}
use biology.Proxy.Steps.{clone_ended, created, Run, here, submitted, stepped, device_enabled}
use biology.Proxy.Logs.{AreFiles}
use biology.Proxy.Tracing.{end_io-IsTracing, submit_bio-IsTracing}
use biology.Proxy.Session.{disable-AreFiles}
use biology.Proxy.Race.{disable-end_io}
use biology.Tests.Machine.{
  blank, regrown, machine, machine-IsAllocator, disk, disk-IsVfs, memory, memory-IsPages,
}
use biology.Control.Files.{prxy_root, ctl_file, file_path}
use biology.Control.Handlers.{dev_ctl_store}
use biology.Cli.Commands.{name_word, proxy_disable_command_def}
use biology.Cli.Handle.{returns, command_handle}
use biology.Cli.Select.{split_words}
use biology.Cli.Enable.{device_ops}
use biology.Cli.Disable.{command_handle-AreFiles}
use biology.Tests.Calls.{usable, host, usable_lem, short_name, path_size}
use biology.Tests.Proxies.{
  layer_below, layer_below-IsRequests, empty_file, bio4, bio4-IsRequest, setting, directory,
  Tracing, with_device, enabled,
}

-- What is made of the write on a device, and the device behind it.
abbrev sent : Proxy disk → BioInfo Bio
sent s =
    let info = info_fill (info_init (next_bio_id s.dev).1 bio4) bio4 1 (9 -u64 s.dev.start_ts) in
    record info {
      payload = record { size = info.payload.size; content = layer_below.bio_advance bio4 4 };
    }

abbrev after_write : Proxy disk → Proxy disk
after_write s =
    process_clone machine layer_below (record s { dev = (next_bio_id s.dev).0 }) bio4
      (info_fill (info_init (next_bio_id s.dev).1 bio4) bio4 1 (9 -u64 s.dev.start_ts)) true

submit_bio-after_write :
    (s : Proxy disk)
    → Tracing s
    → submit_bio machine layer_below 256 1 9 true s bio4 ≡ some (after_write s)
unfolding submit_bio process_bio next_bio_id
submit_bio-after_write s h =
    ap
      (λ b.
        if b
        then process_bio machine layer_below 256 1 9 true s bio4
        else some (record s { passed = bio4 ∷ s.passed }))
      h.on

after_write-IsTracing : (s : Proxy disk) → Tracing s → Tracing (after_write s)
after_write-IsTracing s h =
    let (t, run, k) =
      submit_bio-IsTracing disk machine memory disk-IsVfs machine-IsAllocator memory-IsPages
        (λ f off bytes. refl) (λ old n small. (regrown old n, refl)) layer_below
        layer_below-IsRequests 256 (blank 256) refl (schema_for true)
        (unfold schema_for in omega arith) empty_file 2 (omega arith) true s bio4 1 9 true refl h
        bio4-IsRequest (omega arith) in
    subst Tracing (some_injective (sym run ∙ submit_bio-after_write s h)) k

after_write-inflight : (s : Proxy disk) → (after_write s).inflight ≡ sent s ∷ s.inflight
unfolding process_clone
after_write-inflight s = refl

-- A first write on the enabled device, whose clone ends: its work is queued.
abbrev first_sent : Proxy disk
first_sent = after_write (with_device enabled.0)

first_done :
    (t : Proxy disk) × (end_io
        (record first_sent { inflight = [] })
        (sent (with_device enabled.0))
        0
        12
      ≡ some t)
    × Tracing t
    × (t.inflight ≡ [])
    × (length t.queued ≡ suc (length first_sent.queued))
first_done =
    end_io-IsTracing disk machine memory disk-IsVfs machine-IsAllocator memory-IsPages
      (λ f off bytes. refl) (λ old n small. (regrown old n, refl)) layer_below
      layer_below-IsRequests 256 (blank 256) refl (schema_for true)
      (unfold schema_for in omega arith) empty_file 2 (omega arith) true first_sent [] []
      (sent (with_device enabled.0)) 0 12 (after_write-IsTracing (with_device enabled.0) enabled.2)
      (after_write-inflight (with_device enabled.0)) (omega arith)

-- A second write, which is in flight while the work of the first waits in the queue.
abbrev racing : Proxy disk
racing = after_write first_done.0

racing-Run : Run machine memory layer_below 256 (created disk) (bio4 ∷ bio4 ∷ []) racing
racing-Run =
    submitted
      (stepped
        (submitted
          (stepped here (device_enabled setting true directory enabled.0 (ok tt) enabled.1 refl))
          bio4 1 9 true (submit_bio-after_write (with_device enabled.0) enabled.2))
        (clone_ended [] [] (sent (with_device enabled.0)) 0 12
          (after_write-inflight (with_device enabled.0)) first_done.1))
      bio4 1 9 true (submit_bio-after_write first_done.0 first_done.2)

length-racing_queued : length racing.queued ≡ 1
unfolding process_clone
length-racing_queued = first_done.4

-- Its device is disabled.
raced :
    (t : Proxy disk) × (closed : List (Option (List ℕ))) × (disable machine memory racing
      ≡ some (t, closed))
    × AreFiles disk memory (schema_for true) empty_file 0 (racing.traced ++ racing.queued) closed
    × (length closed ≡ 2)
    × (t.queued ≡ [])
    × (t.inflight ≡ racing.inflight)
raced =
    disable-AreFiles disk machine memory disk-IsVfs machine-IsAllocator memory-IsPages
      (λ f off bytes. refl) (λ old n small. (regrown old n, refl)) layer_below
      layer_below-IsRequests 256 (blank 256) refl true empty_file 2 (omega arith) racing
      (after_write-IsTracing first_done.0 first_done.2)

disable-end_io_example :
    (raced.0.inflight ≡ sent first_done.0 ∷ first_done.0.inflight)
    × (end_io (record raced.0 { inflight = first_done.0.inflight }) (sent first_done.0) 0 15 ≡ none)
disable-end_io_example =
    disable-end_io machine memory racing raced.0 raced.1 [] first_done.0.inflight
      (sent first_done.0) 0 15 (after_write-inflight first_done.0) raced.2

-- The same from the command line.
command_handle-AreFiles_example :
    (text : List ℕ) × (t : Proxy disk) × (closed : List (Option (List ℕ))) × (command_handle host
        (split_words proxy_disable_command_def.name ++ (name_word ∷ short_name ∷ []))
      ≡ some (returns (ok (length text)) (some (file_path prxy_root short_name ctl_file, text))))
    × (dev_ctl_store
          (device_ops machine memory setting (λ s. some s))
          machine
          racing
          (text ++ (0 ∷ []))
          (length text)
        ≡ some (t, ok (length text)))
    × (disable machine memory racing ≡ some (t, closed))
    × AreFiles disk memory (schema_for true) empty_file 0 (racing.traced ++ racing.queued) closed
    × (length closed ≡ 2)
    × (t.queued ≡ [])
command_handle-AreFiles_example =
    command_handle-AreFiles disk machine memory disk-IsVfs machine-IsAllocator memory-IsPages
      (λ f off bytes. refl) (λ old n small. (regrown old n, refl)) (λ n. (blank n, refl))
      layer_below layer_below-IsRequests 256 empty_file 2 (omega arith) host usable (λ n. refl)
      usable_lem (λ s. some s) setting true short_name racing (omega arith)
      (omega (arith, path_size)) refl (after_write-IsTracing first_done.0 first_done.2)
