-- ===== src/Base/Memory.antt =====
-- A block of memory, or a file, as the list of its bytes.
use biology.Base.Tests.{leb, le→leb, if◌then◌else◌, ◌>>=◌}
use biology.Base.Lists.{
  length, take, drop, length-append, length-take, length-drop, take-append_len, drop-append_len,
  drop-drop, take-append-drop,
}
use Prim.Native.Nat.{ℕ, ◌+◌, ◌≤◌}
use mathlib.Core.Path.{◌≡◌, refl, sym, ap, ◌∙◌}
use mathlib.Core.Option.{Option, none, some}
use mathlib.Core.List.{List, [], ◌++◌, append_assoc}
use native.Mathlib.Nat.{add_assoc, add-zero}
use native.Mathlib.Omega.{arith}

-- `bs` laid over the bytes from `off` on; what follows stays, and the end moves if `bs` passes it.
abbrev pub splice : ℕ → List ℕ → List ℕ → List ℕ
splice off bs mem = take off mem ++ (bs ++ drop (off + length bs) mem)

-- `memcpy(mem + off, bs, length bs)`, a fault if it leaves the block.
unfoldable pub write : ℕ → List ℕ → List ℕ → Option (List ℕ)
write off bs mem = if leb (off + length bs) (length mem) then some (splice off bs mem) else none

-- `memcpy(…, mem + off, n)`, a fault if it leaves the block.
unfoldable pub read : ℕ → ℕ → List ℕ → Option (List ℕ)
read off n mem = if leb (off + n) (length mem) then some (take n (drop off mem)) else none

pub write_fits :
    (off : ℕ) (bs mem : List ℕ)
    → off + length bs ≤ length mem
    → write off bs mem ≡ some (splice off bs mem)
unfolding write
write_fits off bs mem h = rw (le→leb _ _ h)

pub length-splice :
    (off : ℕ) (bs mem : List ℕ)
    → off + length bs ≤ length mem
    → length (splice off bs mem) ≡ length mem
length-splice off bs mem h = omega (
  arith,
  length-append (take off mem) (bs ++ drop (off + length bs) mem),
  length-append bs (drop (off + length bs) mem),
  length-take off mem,
  length-drop (off + length bs) mem,
)

pub length-take_le : (off : ℕ) (mem : List ℕ) → off ≤ length mem → length (take off mem) ≡ off
length-take_le off mem h = omega (arith, length-take off mem)

-- The bytes up to the end of what was laid over.
pub take-splice :
    (off : ℕ) (bs mem : List ℕ)
    → off ≤ length mem
    → take (off + length bs) (splice off bs mem) ≡ take off mem ++ bs
take-splice off bs mem h =
    ap (take (off + length bs)) (sym (append_assoc (take off mem) bs _))
    ∙ take-append_len _ (take off mem ++ bs) _
        (omega (arith, length-append (take off mem) bs, length-take off mem))

pub take-splice_before :
    (off : ℕ) (bs mem : List ℕ) → off ≤ length mem → take off (splice off bs mem) ≡ take off mem
take-splice_before off bs mem h =
    take-append_len off (take off mem) _ (omega (arith, length-take off mem))

pub drop-splice :
    (off : ℕ) (bs mem : List ℕ)
    → off ≤ length mem
    → drop (off + length bs) (splice off bs mem) ≡ drop (off + length bs) mem
drop-splice off bs mem h =
    ap (drop (off + length bs)) (sym (append_assoc (take off mem) bs _))
    ∙ drop-append_len _ (take off mem ++ bs) _
        (omega (arith, length-append (take off mem) bs, length-take off mem))

drop-splice_past :
    (off k : ℕ) (bs mem : List ℕ)
    → off ≤ length mem
    → drop (off + length bs + k) (splice off bs mem) ≡ drop (off + length bs + k) mem
drop-splice_past off k bs mem h =
    sym (drop-drop (off + length bs) k (splice off bs mem))
    ∙ ap (drop k) (drop-splice off bs mem h)
    ∙ drop-drop (off + length bs) k mem

-- Two writes next to each other are one.
pub splice-splice :
    (off : ℕ) (xs ys mem : List ℕ)
    → off ≤ length mem
    → splice (off + length xs) ys (splice off xs mem) ≡ splice off (xs ++ ys) mem
splice-splice off xs ys mem h = rw (
  take-splice off xs mem h,
  drop-splice_past off (length ys) xs mem h,
  length-append xs ys,
  ← add_assoc off (length xs) (length ys),
  append_assoc (take off mem) xs,
  append_assoc xs ys,
)

pub write-write :
    (off : ℕ) (xs ys mem : List ℕ)
    → off + length (xs ++ ys) ≤ length mem
    → write (off + length xs) ys (splice off xs mem) ≡ some (splice off (xs ++ ys) mem)
write-write off xs ys mem h =
    let fits : off + length xs ≤ length mem = omega (arith, length-append xs ys) in
    write_fits (off + length xs) ys (splice off xs mem)
      (rw (length-splice off xs mem fits) (omega (arith, length-append xs ys)))
    ∙ ap some (splice-splice off xs ys mem (omega arith))

pub read-append :
    (front body back : List ℕ)
    → read (length front) (length body) (front ++ (body ++ back)) ≡ some body
unfolding read
read-append front body back =
    let fits : length front + length body ≤ length (front ++ (body ++ back)) =
      omega (arith, length-append front (body ++ back), length-append body back) in
    rw (
      le→leb _ _ fits,
      drop-append_len (length front) front (body ++ back) refl,
      take-append_len (length body) body back refl,
    )

pub splice-nil : (off : ℕ) (mem : List ℕ) → splice off [] mem ≡ mem
splice-nil off mem = rw add-zero (take-append-drop off mem)

-- A routine that lays `bs` at the position that it is given, wherever that fits.
abbrev pub Writes : (ℕ → List ℕ → Option (List ℕ)) → List ℕ → Type 0
Writes m bs =
    (off : ℕ) (buf : List ℕ) → off + length bs ≤ length buf → m off buf ≡ some (splice off bs buf)

pub Writes-seq :
    (m k : ℕ → List ℕ → Option (List ℕ)) (xs ys : List ℕ) (n : ℕ)
    → length xs ≡ n
    → Writes m xs
    → Writes k ys
    → Writes (λ off buf. m off buf >>= λ buf'. k (off + n) buf') (xs ++ ys)
Writes-seq m k xs ys n e hm hk off buf h =
    let fits : off + length xs ≤ length buf = omega (arith, length-append xs ys) in
    rw (hm off buf fits) (
      rw (← e) (
        hk (off + length xs) (splice off xs buf)
          (rw (length-splice off xs buf fits) (omega (arith, length-append xs ys)))
        ∙ ap some (splice-splice off xs ys buf (omega arith))))

pub length-splice_ge :
    (off : ℕ) (bs mem : List ℕ) → off ≤ length mem → off + length bs ≤ length (splice off bs mem)
length-splice_ge off bs mem h = omega (
  arith,
  length-append (take off mem) (bs ++ drop (off + length bs) mem),
  length-append bs (drop (off + length bs) mem),
  length-take off mem,
)
