-- ===== src/Gen/Lifetime.antt =====
-- The group over the lives of its workers, whatever the order in which these run.
use biology.Base.{
  ℕ, zero, suc, ◌+◌, ◌≡◌, refl, subst, ◌∙◌, inl, inr, true, false, Option, none, some, List, [],
  ◌∷◌, ◌++◌, >>=-eq-some, length, length-append, arith,
}
use biology.Base.Errno.{ok, err, Status}
use biology.Kernel.{Allocator, Source, Ptr, null, err_ptr, ptr, Blocks}
use biology.Parser.State.{Parser, parser_init, parser_free}
use biology.Gen.Worker.{
  Group, Worker, Sizes, kref_get, kref_put, group_stop, Submitted, scheduled, destroyed,
  work_submit, worker_start, worker_parsed, worker_alloc, worker_create,
}
use biology.Dump.Init.{build_file_path}
use biology.Gen.Group.{
  World, group_ctl_init, group_more, group_workers, group_end, group_publish, group_create, turns,
}
use biology.Gen.Held.{
  some_injective, kref_put-Held, kref_get-Held, Outcome-Held, submit-Outcome, Held, running,
}

module _ {S : Source} where
  module _ (B : Blocks) (A : Allocator) where
    -- The workers of a group run in any order, and the group may be stopped between them.
    pub data Step : Group × List (Worker S) → Group × List (Worker S) → Type 0 where
      resumed :
          (group : Group) (before after : List (Worker S)) (worker : Worker S) (now : ℕ)
          (r : Group × Submitted S)
          → work_submit B A group worker now ≡ some r
          → Step (group, before ++ (worker ∷ after)) (r.0, before ++ (running (r.1 ∷ []) ++ after))
      stopped :
          (group : Group) (workers : List (Worker S))
          → group.freed ≡ false
          → Step (group, workers) (group_stop group, workers)

    pub data Reach : Group × List (Worker S) → Group × List (Worker S) → Type 0 where
      here : (s : Group × List (Worker S)) → Reach s s
      later : (s t u : Group × List (Worker S)) → Step s t → Reach t u → Reach s u

    Step-Held :
        (s t : Group × List (Worker S))
        → Step s t
        → Held (s.0) (length (s.1))
        → Held (t.0) (length (t.1))
    unfolding Held group_stop
    Step-Held _ _ (resumed group before after worker now r e) h =
        let n : ℕ = length before + length after in
        let held : Held group (suc n) =
          subst (Held group) (length-append before (worker ∷ after) ∙ omega arith) h in
        subst (Held (r.0))
          (omega (
            arith,
            length-append before (running (r.1 ∷ []) ++ after),
            length-append (running (r.1 ∷ [])) after,
          ))
          (Outcome-Held group r n (submit-Outcome B A group worker now r e) held)
    Step-Held _ _ (stopped group workers live) (inl h) = inl h
    Step-Held _ _ (stopped group workers live) (inr h) = inr h

    Reach-Held :
        (s t : Group × List (Worker S))
        → Reach s t
        → Held (s.0) (length (s.1))
        → Held (t.0) (length (t.1))
    Reach-Held _ _ (here s) h = h
    Reach-Held _ _ (later s u t step rest) h = Reach-Held u t rest (Step-Held s u step h)

  module _ (B : Blocks) (A : Allocator) (Z : Sizes) where
    -- The branch of an opened device.
    worker_started-Held :
        (group : Group) (worker : Worker S) (now : ℕ) (r : Group × List (Submitted S) × Status)
        (n : ℕ)
        → Held group (suc (suc n))
        → worker_start B A Z group worker now null ≡ some r
        → Held (r.0) (suc n + length (running (r.1)))
    unfolding worker_start
    worker_started-Held group worker now r n h run =
        let (work, e1, e2) = >>=-eq-some (A.kmalloc Z.sizeof_work) _ run in
        let ((group', out), e3, e4) = >>=-eq-some (work_submit B A group worker now) _ e2 in
        subst (λ t. Held (t.0) (suc n + length (running (t.1)))) (some_injective e4)
          (Outcome-Held group (group', out) (suc n) (submit-Outcome B A group worker now _ e3) h)

    worker_start-Held :
        (group : Group) (worker : Worker S) (now : ℕ) (target : Ptr ℕ)
        (r : Group × List (Submitted S) × Status) (n : ℕ)
        → Held group (suc (suc n))
        → worker_start B A Z group worker now target ≡ some r
        → Held (r.0) (suc n + length (running (r.1)))
    unfolding worker_start running
    worker_start-Held group worker now (err_ptr e) r n h run =
        let (freed, e1, e2) = >>=-eq-some (parser_free worker.parser) _ run in
        let (group', e3, e4) = >>=-eq-some (kref_put group) _ e2 in
        let held : Held group' (suc n) = kref_put-Held group group' (suc n) h e3 in
        subst (λ t. Held (t.0) (suc n + length (running (t.1)))) (some_injective e4)
          (subst (Held group') (omega arith) held)
    worker_start-Held group worker now null r n h run =
        worker_started-Held group worker now r n h run
    worker_start-Held group worker now (ptr target) r n h run =
        worker_started-Held group worker now r n h run

    worker_parsed-Held :
        (group : Group) (cpu start_ts now : ℕ) (target : Ptr ℕ) (parsed : Parser S × Status)
        (r : Group × List (Submitted S) × Status) (n : ℕ)
        → Held group (suc (suc n))
        → worker_parsed B A Z group cpu start_ts now target parsed ≡ some r
        → Held (r.0) (suc n + length (running (r.1)))
    unfolding worker_parsed
    worker_parsed-Held group cpu start_ts now target (parser, err e) r n h run = absurd (cc run)
    worker_parsed-Held group cpu start_ts now target (parser, ok x) r n h run =
        worker_start-Held group (record { cpu = cpu; start_ts = start_ts; parser = parser }) now
          target r n h run

    worker_alloc-Held :
        (group : Group) (cpu start_ts now : ℕ) (opened : Ptr S.File) (target : Ptr ℕ)
        (alloc : Option (List ℕ)) (r : Group × List (Submitted S) × Status) (n : ℕ)
        → Held group (suc n)
        → worker_alloc B A Z group cpu start_ts now opened target alloc ≡ some r
        → Held (r.0) (suc n + length (running (r.1)))
    unfolding worker_alloc running
    worker_alloc-Held group cpu start_ts now opened target none r n h run =
        subst (λ t. Held (t.0) (suc n + length (running (t.1)))) (some_injective run)
          (subst (Held group) (omega arith) h)
    worker_alloc-Held group cpu start_ts now opened target (some worker) r n h run =
        let (held, e1, e2) = >>=-eq-some (kref_get group) _ run in
        let (parsed, e3, e4) = >>=-eq-some (parser_init A opened) _ e2 in
        worker_parsed-Held held cpu start_ts now target parsed r n
          (kref_get-Held group held (suc n) h e1) e4

    module _ (W : World S) where
      running-append :
          (xs ys : List (Submitted S))
          → length (running (xs ++ ys)) ≡ length (running xs) + length (running ys)
      unfolding running
      running-append [] ys = omega arith
      running-append (scheduled w b d ∷ xs) ys = omega (arith, running-append xs ys)
      running-append (destroyed st ∷ xs) ys = running-append xs ys

      group_more-Held :
          (continue : Group → Option (Group × List (Submitted S) × Status))
          (created r : Group × List (Submitted S) × Status) (n : ℕ)
          → ((group : Group) (t : Group × List (Submitted S) × Status) (m : ℕ)
              → Held group (suc m)
              → continue group ≡ some t
              → Held (t.0) (suc m + length (running (t.1))))
          → Held (created.0) (suc n + length (running (created.1)))
          → group_more B A Z W continue created ≡ some r
          → Held (r.0) (suc n + length (running (r.1)))
      unfolding group_more
      group_more-Held continue (group, first, err e) r n step h run =
          subst (λ t. Held (t.0) (suc n + length (running (t.1)))) (some_injective run) h
      group_more-Held continue (group, first, ok x) r n step h run =
          let ((last, others, status), e1, e2) = >>=-eq-some (continue group) _ run in
          let m : ℕ = n + length (running first) in
          let t : Group × List (Submitted S) × Status = (last, others, status) in
          let held : Held last (suc m + length (running others)) =
            step group t m (subst (Held group) (omega arith) h) e1 in
          subst (λ u. Held (u.0) (suc n + length (running (u.1)))) (some_injective e2)
            (subst (Held last) (omega (arith, running-append first others)) held)

      group_workers-Held :
          (dir : List ℕ) (left i : ℕ) (group : Group) (r : Group × List (Submitted S) × Status)
          (n : ℕ)
          → Held group (suc n)
          → group_workers B A Z W dir left i group ≡ some r
          → Held (r.0) (suc n + length (running (r.1)))
      unfolding group_workers running worker_create
      group_workers-Held dir zero i group r n h run =
          subst (λ t. Held (t.0) (suc n + length (running (t.1)))) (some_injective run)
            (subst (Held group) (omega arith) h)
      group_workers-Held dir (suc left) i group r n h run =
          let (block, e0, e1) = >>=-eq-some (A.kmalloc 4096) _ run in
          let (path, e5, e2) = >>=-eq-some (build_file_path dir i) _ e1 in
          let (created, e3, e4) =
            >>=-eq-some
              (worker_create B A Z group i (W.created i) (W.submitted i) (W.filp_open path)
                (W.bdev_open i))
              _ e2 in
          group_more-Held (group_workers B A Z W dir left (i + 1)) created r n
            (λ g t m held go. group_workers-Held dir left (i + 1) g t m held go)
            (worker_alloc-Held group i (W.created i) (W.submitted i) (W.filp_open path)
              (W.bdev_open i) (A.kmalloc Z.sizeof_worker) created n h e3)
            e4

      group_end-Held :
          (t r : Group × List (Submitted S) × Status) (n : ℕ)
          → Held (t.0) (suc n)
          → n ≡ length (running (t.1))
          → group_end B A Z W t ≡ some r
          → Held (r.0) (length (running (r.1)))
      unfolding group_end
      group_end-Held (group, works, status) r n h count run =
          let (group', e1, e2) = >>=-eq-some (kref_put group) _ run in
          subst (λ t. Held (t.0) (length (running (t.1)))) (some_injective e2)
            (subst (Held group') count (kref_put-Held group group' n h e1))

      group_ctl_init-Held :
          (group : Group) (added : Status) (n : ℕ)
          → Held group n
          → Held ((group_ctl_init group added).0) n
      unfolding Held group_ctl_init
      group_ctl_init-Held group (err e) n h = h
      group_ctl_init-Held group (ok x) n (inl h) = inl h
      group_ctl_init-Held group (ok x) n (inr h) = inr h

      start-Held :
          Held (record { active = true; refcount = 1; kobj_inited = false; freed = false }) 1
      unfolding Held
      start-Held = inl (refl, refl, omega arith)

      group_publish-Held :
          (t r : Group × List (Submitted S) × Status)
          → Held (t.0) (1 + length (running (t.1)))
          → group_publish B A Z W t ≡ some r
          → Held (r.0) (length (running (r.1)))
      unfolding group_publish
      group_publish-Held (group, works, err e) r h run =
          group_end-Held (group, works, err e) r (length (running works))
            (subst (Held group) (omega arith) h) refl run
      group_publish-Held (group, works, ok x) r h run =
          let out = group_ctl_init group W.kobject_add in
          group_end-Held (out.0, works, out.1) r (length (running works))
            (group_ctl_init-Held group W.kobject_add _ (subst (Held group) (omega arith) h)) refl
            run

      -- A group that has been created, with success or not, is freed exactly with the last of the
      -- workers that run for it, whatever the order in which these run and are stopped.
      pub group_create-Held :
          (dump_dir_path : List ℕ) (cpu_cnt : ℕ) (group group' : Group) (works : List (Submitted S))
          (status : Status) (workers : List (Worker S))
          → group_create B A Z W dump_dir_path cpu_cnt ≡ some (group, works, status)
          → Reach B A (group, running works) (group', workers)
          → Held group' (length workers)
      unfolding group_create
      group_create-Held dump_dir_path cpu_cnt group group' works status workers run path =
          let (block, e1, e2) = >>=-eq-some (A.kmalloc Z.sizeof_group) _ run in
          let start : Group = record {
            active = true;
            refcount = 1;
            kobj_inited = false;
            freed = false;
          } in
          let (created, e3, e4) =
            >>=-eq-some (group_workers B A Z W dump_dir_path (turns cpu_cnt) 0 start) _ e2 in
          let held =
            group_workers-Held dump_dir_path (turns cpu_cnt) 0 start created 0 start-Held e3 in
          Reach-Held B A (group, running works) (group', workers) path
            (group_publish-Held created (group, works, status) held e4)
