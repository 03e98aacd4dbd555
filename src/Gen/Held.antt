-- ===== src/Gen/Held.antt =====
-- Who holds a group: `refcount` counts references, and the group is freed with the last. What each
-- submission of a worker does to the count.
use biology.Base.{
  ℕ, suc, ◌+◌, ◌-◌, ◌<◌, ◌≡◌, refl, sym, ap, subst, ◌∙◌, ◌⊎◌, inl, inr, Bool, true, false, Option,
  none, some, List, [], ◌∷◌, ◌==◌, ==_iff, if◌then◌else◌, ◌>>=◌, >>=-eq-some, length, arith,
}
use biology.Base.Errno.{ok, Status}
use biology.Kernel.{Allocator, Source, Blocks}
use biology.Serial.Info.{BioInfo}
use biology.Serial.Decode.{Block}
use biology.Parser.State.{Parser, ReadNext, next_ok, next_empty, next_err, parser_free, read_next}
use biology.Gen.Request.{GenBio, bio_create}
use biology.Gen.Worker.{
  Group, Worker, zeroed, group_destroy, kref_get, kref_put, Submitted, scheduled, destroyed,
  worker_destroy, work_destroy, work_schedule, work_read, work_submit,
}

-- `n` references to a group are held: it is live while there are any, and freed when there is none.
unfoldable pub Held : Group → ℕ → Type 0
Held group n =
    ((group.freed ≡ false) × (group.refcount ≡ n) × (0 < n)) ⊎ ((group.freed ≡ true) × (n ≡ 0))

pub some_injective {ℓ} : {B : Type ℓ} {x y : B} → some x ≡ some y → x ≡ y
some_injective e = cc

pub if-split {ℓ κ} :
    {A : Type ℓ} (P : Type κ) (b : Bool) (x y : A) {r : A}
    → (if b then x else y) ≡ r
    → ((b ≡ true) → x ≡ r → P)
    → ((b ≡ false) → y ≡ r → P)
    → P
if-split P true x y e f g = f refl e
if-split P false x y e f g = g refl e

put-Held :
    (left group' : Group) (n : ℕ)
    → left.freed ≡ false
    → left.refcount ≡ n
    → (if left.refcount == 0 then some (group_destroy left) else some left) ≡ some group'
    → Held group' n
unfolding Held group_destroy
put-Held left group' n live count e =
    if-split (Held group' n) (left.refcount == 0) (some (group_destroy left)) (some left) e
      (λ zero_left same.
        subst (λ g. Held g n) (some_injective same)
          (inr (refl, sym count ∙ (==_iff left.refcount 0).0 zero_left)))
      (λ more same. subst (λ g. Held g n) (some_injective same) (inl (live, count, ground arith)))

pub kref_put-Held :
    (group group' : Group) (n : ℕ)
    → Held group (suc n)
    → kref_put group ≡ some group'
    → Held group' n
unfolding Held kref_put group_destroy
kref_put-Held group group' n (inr (gone, none_left)) e = absurd (omega arith)
kref_put-Held group group' n (inl (live, count, some_left)) e =
    let left : Group = record group { refcount = group.refcount - 1 } in
    let put : (if left.refcount == 0 then some (group_destroy left) else some left) ≡ some group' =
      sym (
        ap
          (λ b.
            if b
            then none
            else (if left.refcount == 0 then some (group_destroy left) else some left))
          live)
      ∙ e in
    put-Held left group' n live (omega arith) put

pub kref_get-Held :
    (group group' : Group) (n : ℕ)
    → Held group n
    → kref_get group ≡ some group'
    → Held group' (suc n)
unfolding Held kref_get
kref_get-Held group group' n h e =
    if-split (Held group' (suc n)) group.freed none
      (some (record group { refcount = group.refcount + 1 })) e (λ gone same. absurd (cc same))
      (λ live same.
        subst (λ g. Held g (suc n)) (some_injective same)
          (elim h [
            | inl (x, count, y) ↦ inl (live, omega arith, omega arith)
            | inr (gone, y) ↦ cc (live, gone)
          ]))

-- The workers that are scheduled.
unfoldable pub running : {S : Source} → List (Submitted S) → List (Worker S)
running [] = []
running (scheduled worker bio delay ∷ works) = worker ∷ running works
running (destroyed status ∷ works) = running works

-- What a submission does to the group.
pub data Outcome {S : Source} (group : Group) : Group × Submitted S → Type 0 where
  kept :
      (worker : Worker S) (bio : GenBio) (delay : ℕ)
      → Outcome group (group, scheduled worker bio delay)
  released :
      (group' : Group) (status : Status)
      → kref_put group ≡ some group'
      → Outcome group (group', destroyed status)

pub Outcome-Held :
    {S : Source} (group : Group) (r : Group × Submitted S) (n : ℕ)
    → Outcome group r
    → Held group (suc n)
    → Held (r.0) (n + length (running (r.1 ∷ [])))
unfolding running
Outcome-Held group r n (kept worker bio delay) h = subst (Held group) (omega arith) h
Outcome-Held group r n (released group' status put) h =
    subst (Held group') (omega arith) (kref_put-Held group group' n h put)

module _ {S : Source} where
  pub work_destroy-Outcome :
      (group : Group) (worker : Worker S) (status : Status) (r : Group × Submitted S)
      → work_destroy group worker status ≡ some r
      → Outcome group r
  unfolding work_destroy worker_destroy
  work_destroy-Outcome group worker status r e =
      let (group', e1, e2) = >>=-eq-some (worker_destroy group worker) _ e in
      let (freed, e3, e4) = >>=-eq-some (parser_free worker.parser) _ e1 in
      subst (Outcome group) (some_injective e2) (released group' status e4)

  module _ (B : Blocks) (A : Allocator) where
    work_schedule-Outcome :
        (group : Group) (worker : Worker S) (now : ℕ) (info : BioInfo Block) (made : Option GenBio)
        (r : Group × Submitted S)
        → work_schedule B A group worker now info made ≡ some r
        → Outcome group r
    unfolding work_schedule
    work_schedule-Outcome group worker now info none r e = work_destroy-Outcome group worker _ r e
    work_schedule-Outcome group worker now info (some bio) r e =
        subst (Outcome group) (some_injective e) (kept worker bio _)

    work_read-Outcome :
        (group : Group) (worker : Worker S) (now : ℕ) (read : Parser S × ReadNext)
        (r : Group × Submitted S)
        → work_read B A group worker now read ≡ some r
        → Outcome group r
    unfolding work_read work_schedule
    work_read-Outcome group worker now (parser, next_empty) r e =
        work_destroy-Outcome group (record worker { parser = parser }) (ok tt) r e
    work_read-Outcome group worker now (parser, next_err) r e =
        work_destroy-Outcome group (record worker { parser = parser }) _ r e
    work_read-Outcome group worker now (parser, next_ok info) r e =
        let (made, e1, e2) = >>=-eq-some (bio_create B A info) _ e in
        work_schedule-Outcome group (record worker { parser = parser }) now info made r e2

    pub submit-Outcome :
        (group : Group) (worker : Worker S) (now : ℕ) (r : Group × Submitted S)
        → work_submit B A group worker now ≡ some r
        → Outcome group r
    unfolding work_submit
    submit-Outcome group worker now r e =
        if-split (Outcome group r) group.active
          (read_next A worker.parser zeroed >>= work_read B A group worker now)
          (work_destroy group worker (ok tt)) e
          (λ active run.
            let (read, e1, e2) = >>=-eq-some (read_next A worker.parser zeroed) _ run in
            work_read-Outcome group worker now read r e2)
          (λ stopped run. work_destroy-Outcome group worker (ok tt) r run)
