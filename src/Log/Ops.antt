-- ===== src/Log/Ops.antt =====
-- `begin_op`, `log_write` and `end_op` of kernel/log.c: how the operations share the log's space.
-- `none` of `log_write` and `end_op` is a panic.
pub mod Space
use northos.Prelude.{
  ℕ, zero, suc, ◌+◌, ◌-◌, ◌*◌, Bool, true, false, ◌||◌, List, get_or, set, Option, none, some, ltb,
  leb, ◌==◌, if◌then◌else◌, update,
}
use northos.Log.{Block, Log, commit, log_size, max_op_blocks}

pub data Begin : Type 0 where
  sleeps : Begin
  begun : Log → Begin

-- One round of the loop of `begin_op`: it goes to sleep, or starts the operation.
unfoldable pub begin_op : Log → Begin
begin_op l =
    if l.committing
    then sleeps
    else if ltb log_size (l.n + (l.outstanding + 1) * max_op_blocks)
    then sleeps
    else begun (record l { outstanding = l.outstanding + 1 })

-- for (i = 0; i < n; i++) if (block[i] == b) break; the rounds left come first.
pub find_slot : ℕ → ℕ → List ℕ → ℕ → ℕ
find_slot zero i block b = i
find_slot (suc r) i block b = if get_or block i 0 == b then i else find_slot r (i + 1) block b

-- The caller's change of the buffer, which `log_write` keeps in the cache.
pub store : Log → ℕ → Block → Log
store l b d = record l { cache = update l.cache b d }

pub log_write : Log → ℕ → Option Log
log_write l b =
    if leb log_size l.n || leb (l.size - 1) l.n
    then none
    else if ltb l.outstanding 1
    then none
    else some (record l { block = set l.block slot b; n = if slot == l.n then l.n + 1 else l.n })
  where
    slot : ℕ
    slot = find_slot l.n 0 l.block b

-- The part of `end_op` under the first lock: the last operation turns to committing.
pub end_op : Log → Option Log
end_op l =
    if l.committing
    then none
    else if l.outstanding - 1 == 0
    then some (record l { outstanding = l.outstanding - 1; committing = true })
    else some (record l { outstanding = l.outstanding - 1 })

-- The rest of it, where the operation is to commit.
pub end_commit : Log → Log
end_commit l = record (commit l) { committing = false }
