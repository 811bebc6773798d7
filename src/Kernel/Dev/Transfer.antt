-- ===== src/Kernel/Dev/Transfer.antt =====
-- What is written to the static device of kernel/dev.c is read from it.
use twcos.Common.{
  ℕ, ◌+◌, ◌≤◌, ◌≡◌, refl, ap, subst, ◌∙◌, Bool, true, false, some, List, ◌++◌, arith, leb, length,
  take, drop, length-append, length-drop,
}
use twcos.Kernel.Dev.{
  submitted, complete, BufOp, copy_into, dev_static_submit, dev_op_submit, dev_op_wait,
}
use twcos.Kernel.Dev.Blocks.{length-take, take-append, drop-append}

le→leb : (a b : ℕ) → a ≤ b → leb a b ≡ true
le→leb a b h = ground arith

copy_into-some :
    (dst : List ℕ) (offset : ℕ) (src : List ℕ) (n : ℕ)
    → n ≤ length src
    → offset + n ≤ length dst
    → copy_into dst offset src n ≡ some (take offset dst ++ (take n src ++ drop (offset + n) dst))
unfolding copy_into
copy_into-some dst offset src n h g = rw (le→leb _ _ h, le→leb _ _ g)

-- The piece of `size` bytes at `offset` of the bytes that a write leaves.
piece :
    (bytes buffer : List ℕ) (offset size : ℕ)
    → size ≤ length buffer
    → offset + size ≤ length bytes
    → take size
        (drop offset (take offset bytes ++ (take size buffer ++ drop (offset + size) bytes)))
      ≡ take size buffer
piece bytes buffer offset size h g =
    let e : length (take offset bytes) ≡ offset = length-take offset bytes (omega arith) in
    let e' : length (take size buffer) ≡ size = length-take size buffer h in
    let rest = take size buffer ++ drop (offset + size) bytes in
    let dropped : drop offset (take offset bytes ++ rest) ≡ rest =
      subst (λ k. drop k (take offset bytes ++ rest) ≡ rest) e
        (drop-append (take offset bytes) rest) in
    ap (take size) dropped
    ∙ subst (λ k. take k (take size buffer ++ drop (offset + size) bytes) ≡ take size buffer) e'
        (take-append (take size buffer) (drop (offset + size) bytes))

-- An operation before it is submitted.
abbrev pub transfer : (write : Bool) (buffer : List ℕ) (offset size : ℕ) → BufOp
transfer write buffer offset size = record {
  status = submitted;
  write = write;
  buffer = buffer;
  offset = offset;
  size = size;
}

-- A write and a read of the same bytes of the device, both within the device and within their
-- buffers, complete; the read ends with the bytes that were written at the start of its buffer,
-- and the device keeps its size.
pub dev_op_submit-read :
    (bytes buffer into : List ℕ) (offset size : ℕ)
    → size ≤ length buffer
    → size ≤ length into
    → offset + size ≤ length bytes
    → (bytes' : List ℕ) × (written done : BufOp) × (dev_op_submit dev_static_submit bytes
          (transfer true buffer offset size)
        ≡ some (bytes', written))
      × (dev_op_wait written ≡ some complete)
      × (dev_op_submit dev_static_submit bytes' (transfer false into offset size)
          ≡ some (bytes', done))
      × (dev_op_wait done ≡ some complete)
      × (take size done.buffer ≡ take size buffer)
      × (length bytes' ≡ length bytes)
unfolding dev_op_submit dev_static_submit dev_op_wait
dev_op_submit-read bytes buffer into offset size h h' g =
    let rest : List ℕ = take size buffer ++ drop (offset + size) bytes in
    let bytes' : List ℕ = take offset bytes ++ rest in
    let e : length (take size buffer) ≡ size = length-take size buffer h in
    let kept : length bytes' ≡ length bytes = omega (
      arith,
      length-append (take offset bytes) rest,
      length-append (take size buffer) (drop (offset + size) bytes),
      length-take offset bytes (omega arith),
      e,
      length-drop (offset + size) bytes,
    ) in
    let found : List ℕ = take size (drop offset bytes') ++ drop (0 + size) into in
    (
      bytes',
      record (transfer true buffer offset size) { status = complete },
      record (transfer false into offset size) { status = complete; buffer = found },
      rw (copy_into-some bytes offset buffer size h g),
      refl,
      rw (
          copy_into-some into 0 (drop offset bytes') size
            (omega (arith, length-drop offset bytes', kept)) (omega arith)),
      refl,
      rw (piece bytes buffer offset size h g) (
          subst (λ k. take k (take size buffer ++ drop (0 + size) into) ≡ take size buffer) e
            (take-append (take size buffer) (drop (0 + size) into))),
      kept,
    )
