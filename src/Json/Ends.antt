-- ===== src/Json/Ends.antt =====
-- to-json comes to an end.
use biology.Base.{
  ℕ, zero, suc, ◌+◌, ◌-◌, ◌^◌, ◌≤◌, ◌<◌, ◌≡◌, ◌≢◌, refl, ap, Bool, true, false, none, some, List,
  [], ◌∷◌, leb, leb→le, ◌==◌, Bool-cases, Option-cases, >>=-eq-some, inl, inr, length, All, arith,
}
use biology.Base.Bytes.{◌+u64◌, +u64_lem}
use biology.Base.Errno.{ok}
use biology.Base.Memory.{read}
use biology.Serial.Info.{BioInfo, Field, Schema, field_size}
use biology.Serial.Decode.{
  Block, deserialize_payload_json, deserialize_field, deserialize_loop, deserialize,
}
use biology.Dump.Session.{some_injective}
use biology.Gen.Held.{if-split}
use biology.Json.Parse.{
  json_bio_info, masked, Printed, prints, faulted, unfinished, behind, parse_next, parse_loop,
  parse_records,
}

-- A field of a fixed size.
unfoldable pub is_scalar : Field → Bool
is_scalar Field.payload = false
is_scalar f = true

read-inside : (p n : ℕ) (buf bytes : List ℕ) → read p n buf ≡ some bytes → p + n ≤ length buf
unfolding read
read-inside p n buf bytes e =
    if-split (p + n ≤ length buf) (leb (p + n) (length buf)) _ none e
      (λ inside same. leb→le (p + n) (length buf) inside) (λ outside same. absurd (cc same))

scalar_size :
    {D : Type 0} (f : Field) (i j : BioInfo D)
    → is_scalar f ≡ true
    → field_size f i ≡ field_size f j
unfolding field_size is_scalar
scalar_size Field.payload i j h = absurd (cc h)
scalar_size f i j h = refl

deserialize_field-inside :
    (f : Field) (info info' : BioInfo Block) (bufp : ℕ) (buf : List ℕ)
    → is_scalar f ≡ true
    → deserialize_field deserialize_payload_json f info bufp buf ≡ some info'
    → bufp + field_size f info' ≤ length buf
unfolding deserialize_field is_scalar
deserialize_field-inside Field.payload info info' bufp buf h e = absurd (cc h)
deserialize_field-inside f info info' bufp buf h e =
    let (bytes, r, same) = >>=-eq-some (read bufp (field_size f info) buf) _ e in
    omega (arith, read-inside bufp (field_size f info) buf bytes r, scalar_size f info info' h)

abbrev pub IsScalar : Field → Type 0
IsScalar f = is_scalar f ≡ true

deserialize_loop-inside :
    (fs : Schema) (info : BioInfo Block) (bufp : ℕ) (buf : List ℕ) (r : BioInfo Block × ℕ)
    → All IsScalar fs
    → bufp ≤ length buf
    → deserialize_loop deserialize_payload_json fs info bufp buf ≡ some r
    → (bufp ≤ r.1) × (r.1 ≤ length buf)
unfolding deserialize_loop
deserialize_loop-inside [] info bufp buf r h inside e =
    let same : bufp ≡ r.1 = ap (λ x. x.1) (some_injective e) in (omega arith, omega arith)
deserialize_loop-inside (f ∷ fs) info bufp buf r (one, more) inside e =
    let (info', e1, e2) =
      >>=-eq-some (deserialize_field deserialize_payload_json f info bufp buf) _ e in
    let (lo, hi) =
      deserialize_loop-inside fs info' (bufp + field_size f info') buf r more
        (deserialize_field-inside f info info' bufp buf one e1) e2 in
    (omega arith, hi)

deserialize-inside :
    (f : Field) (fs : Schema) (info : BioInfo Block) (pos : ℕ) (buf : List ℕ)
    (r : BioInfo Block × ℕ)
    → All IsScalar (f ∷ fs)
    → deserialize deserialize_payload_json info pos buf (f ∷ fs) ≡ some r
    → (8 ≤ r.1) × (pos + r.1 ≤ length buf)
unfolding deserialize deserialize_loop
deserialize-inside f fs info pos buf r (one, more) e =
    let (s, e1, e2) =
      >>=-eq-some (deserialize_loop deserialize_payload_json (f ∷ fs) info (pos + 8) buf) _ e in
    let (info', e3, e4) =
      >>=-eq-some (deserialize_field deserialize_payload_json f info (pos + 8) buf) _ e1 in
    let (lo, hi) =
      deserialize_loop-inside fs info' (pos + 8 + field_size f info') buf s more
        (deserialize_field-inside f info info' (pos + 8) buf one e3) e4 in
    let same : s.1 - pos ≡ r.1 = ap (λ x. x.1) (some_injective e2) in (omega arith, omega arith)

behind-unfinished : (text : List ℕ) (p : Printed) → p ≢ unfinished → behind text p ≢ unfinished
unfolding behind
behind-unfinished text (prints more first) h e = absurd (cc e)
behind-unfinished text faulted h e = absurd (cc e)
behind-unfinished text unfinished h e = h refl

loop-ends :
    (fuel : ℕ) (f : Field) (fs : Schema) (info : BioInfo Block) (offset : ℕ) (first : Bool)
    (st_size : ℕ) (buf : List ℕ)
    → All IsScalar (f ∷ fs)
    → length buf < 2 ^ 64
    → length buf < fuel + offset
    → 1 ≤ fuel
    → parse_loop fuel (f ∷ fs) st_size buf info offset first ≢ unfinished
unfolding parse_loop parse_next
loop-ends zero f fs info offset first st_size buf h small enough some_fuel = absurd (omega arith)
loop-ends (suc fuel) f fs info offset first st_size buf h small enough some_fuel =
    elim (Bool-cases (offset == st_size)) [
      | inl done ↦ rw done (λ e. absurd (cc e))
      | inr more ↦
          elim (Option-cases (deserialize deserialize_payload_json info offset buf (f ∷ fs))) [
            | inl stuck ↦ rw (more, stuck) (λ e. absurd (cc e))
            | inr (r, run) ↦
                let (lo, hi) = deserialize-inside f fs info offset buf r h run in
                let next : offset +u64 r.1 ≡ offset + r.1 = +u64_lem offset r.1 (omega arith) in
                rw (more, run)
                  (behind-unfinished (json_bio_info (masked r.0) first) _ (
                    rw next (
                      loop-ends fuel f fs (masked r.0) (offset + r.1) false st_size buf h small
                        (omega arith) (omega arith))))
          ]
    ]

-- to-json comes to an end on every mapping, whatever is in it and wherever the file ends in it, with a
-- schema that has a field and no payload: behind the header, which is not empty, its loop takes no
-- more turns than the mapping has bytes, and stops at the end of the file or faults at a read behind
-- the mapping.
pub parse_records-ends :
    (schema : Schema) (info : BioInfo Block) (size st_size : ℕ) (first : Bool) (buf : List ℕ)
    → All IsScalar schema
    → schema ≢ []
    → length buf < 2 ^ 64
    → 1 ≤ size
    → 1 ≤ length buf
    → parse_records st_size buf info first (ok (schema, size)) ≢ unfinished
unfolding parse_records
parse_records-ends [] info size st_size first buf h fields small header bytes = absurd (fields refl)
parse_records-ends (f ∷ fs) info size st_size first buf h fields small header bytes =
    loop-ends (length buf) f fs info size first st_size buf h small (omega arith) bytes
