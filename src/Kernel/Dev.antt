-- ===== src/Kernel/Dev.antt =====
-- kernel/dev.c: operations on a device, and the device that is a piece of memory. The lock of an
-- operation and the queue of those who wait for it are left out: the static device completes an
-- operation before dev_op_submit returns.
mod Blocks
pub mod Transfer
mod Tests
use twcos.Common.{
  ℕ, ◌+◌, ◌-◌, Bool, true, false, Option, none, some, List, [], ◌∷◌, ◌++◌, if◌then◌else◌, leb,
  length, take, drop,
}

-- `dev_op_status`
pub data DevOpStatus : Type 0 where
  submitted : DevOpStatus
  complete : DevOpStatus
  timedout : DevOpStatus
  failed : DevOpStatus

-- `buf_op_t`; `buffer` is the memory at `p`, from there on.
pub record BufOp : Type 0 where
  pub status : DevOpStatus
  pub write : Bool
  pub buffer : List ℕ
  pub offset : ℕ
  pub size : ℕ

-- `memcpy` of `n` bytes from the start of `src` to `dst` at `offset`; `none` is an access behind the
-- end of either.
unfoldable pub copy_into : (dst : List ℕ) (offset : ℕ) (src : List ℕ) (n : ℕ) → Option (List ℕ)
copy_into dst offset src n =
    if leb n (length src)
    then (if leb (offset + n) (length dst)
        then some (take offset dst ++ (take n src ++ drop (offset + n) dst))
        else none)
    else none

-- `dev_static_submit` on the bytes of the device.
unfoldable pub dev_static_submit : List ℕ → BufOp → Option (List ℕ × BufOp)
dev_static_submit bytes op =
    if op.write
    then elim (copy_into bytes op.offset op.buffer op.size) [
      | none ↦ none
      | some bytes' ↦ some (bytes', record op { status = complete })
    ]
    else elim (copy_into op.buffer 0 (drop op.offset bytes) op.size) [
      | none ↦ none
      | some buffer' ↦ some (bytes, record op { status = complete; buffer = buffer' })
    ]

-- `dev_op_submit`
unfoldable pub dev_op_submit :
    (List ℕ → BufOp → Option (List ℕ × BufOp)) → List ℕ → BufOp → Option (List ℕ × BufOp)
dev_op_submit submit bytes op = submit bytes (record op { status = submitted })

-- `dev_op_wait` of an operation that is no longer submitted; `none` would wait.
unfoldable pub dev_op_wait : BufOp → Option DevOpStatus
dev_op_wait op = elim op.status [ submitted ↦ none | other ↦ some other ]
