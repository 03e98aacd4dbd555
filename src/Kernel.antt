-- ===== src/Kernel.antt =====
-- What the modules rely on in the kernel: the allocator, files and mapped pages. None of it is
-- code of the repository, so each is a record of functions with its documented laws.
use biology.Base.{Bool, ℕ, ◌≤◌, ◌≡◌, Option, some, List, length, take, drop}
use biology.Base.Errno.{Errno}
use biology.Serial.Info.{Bio}
use biology.Base.Memory.{splice}

-- `kmalloc(n)` and `krealloc(block, n)`; `none` is the null pointer. The bytes of a fresh block
-- are whatever lies there.
pub record Allocator : Type 0 where
  pub kmalloc : ℕ → Option (List ℕ)
  pub krealloc : List ℕ → ℕ → Option (List ℕ)

pub record IsAllocator (A : Allocator) : Type 0 where
  pub kmalloc_length : (n : ℕ) {block : List ℕ} → A.kmalloc n ≡ some block → length block ≡ n
  pub krealloc_length :
      (old : List ℕ) (n : ℕ) {block : List ℕ} → A.krealloc old n ≡ some block → length block ≡ n
  pub krealloc_keeps :
      (old : List ℕ) (n k : ℕ) {block : List ℕ}
      → A.krealloc old n ≡ some block
      → k ≤ length old
      → k ≤ n
      → take k block ≡ take k old

-- A pointer that a kernel function returns: null, an error packed by `ERR_PTR`, or an object.
pub data Ptr {ℓ} (A : Type ℓ) : Type ℓ where
  null : Ptr A
  err_ptr : Errno → Ptr A
  ptr : A → Ptr A

-- The `ssize_t` of a read or a write: a count, or a negative error.
pub data Count : Type 0 where
  count : ℕ → Count
  fails : Errno → Count

-- An open file. A write returns the file after it, a read the bytes that it delivers.
pub record Vfs : Type 1 where
  pub File : Type 0
  pub contents : File → List ℕ
  pub iter_write : File → ℕ → List ℕ → File × Count

-- A write at or before the end that reports `n` bytes has put the first `n` there and left what
-- lies behind them; one that fails leaves what lies before the position.
pub record IsVfs (V : Vfs) : Type 0 where
  pub write_count :
      (f : V.File) (off : ℕ) (bytes : List ℕ) (n : ℕ)
      → off ≤ length (V.contents f)
      → (V.iter_write f off bytes).1 ≡ count n
      → (n ≤ length bytes)
        × (V.contents (V.iter_write f off bytes).0 ≡ splice off (take n bytes) (V.contents f))
  pub write_fails :
      (f : V.File) (off : ℕ) (bytes : List ℕ) (e : Errno)
      → off ≤ length (V.contents f)
      → (V.iter_write f off bytes).1 ≡ fails e
      → take off (V.contents (V.iter_write f off bytes).0) ≡ take off (V.contents f)

-- The bytes that a read delivers, or a negative error.
pub data Delivered : Type 0 where
  delivered : List ℕ → Delivered
  refused : Errno → Delivered

-- A file system to read dump files from.
pub record Source : Type 1 where
  pub File : Type 0
  pub contents : File → List ℕ
  pub iter_read : File → ℕ → ℕ → Delivered

-- A read delivers what it is asked for, up to the end of the file.
pub record IsSource (S : Source) : Type 0 where
  pub read_full :
      (f : S.File) (off n : ℕ) → S.iter_read f off n ≡ delivered (take n (drop off (S.contents f)))

-- The bytes at an address, of which `memcpy` takes so many, and `sizeof(struct page)`.
pub record Pages : Type 0 where
  pub bytes_at : ℕ → ℕ → List ℕ
  pub sizeof_page : ℕ

pub record IsPages (P : Pages) : Type 0 where
  pub bytes_at_length : (a n : ℕ) → length (P.bytes_at a n) ≡ n

-- `bio_alloc` for an operation, which can fail, and the length that `bio_add_page` reports for a
-- buffer and a length.
pub record Blocks : Type 0 where
  pub bio_alloc : ℕ → Bool
  pub bio_add_page : List ℕ → ℕ → ℕ

-- What the proxy does with a request that is not its own: `bio_advance` by a number of bytes, which
-- leaves the segments as they are.
pub record Requests : Type 0 where
  pub bio_advance : Bio → ℕ → Bio

pub record IsRequests (Q : Requests) : Type 0 where
  pub same_segments : (bio : Bio) (n : ℕ) → (Q.bio_advance bio n).bi_io_vec ≡ bio.bi_io_vec
