-- ===== src/Ipc/Syscall.antt =====
-- src/syscall/ipc.rs: the calls that duplicate handles and those that move them over a channel,
-- on the caller's handle table. A call takes the current process's table, if there is a current
-- process, and returns what it writes to `a0` and the new table; `none` is the kernel panic of a
-- full table.
pub mod Duplicate
pub mod Transfer
use mathlib.Core.Option
use openv.Common.{
  ℕ, ◌+◌, ◌%◌, ◌^◌, Bool, true, false, not, Option, none, some, List, [], ◌∷◌, ◌==◌, ltb, ◌&&◌,
  ◌||◌, if◌then◌else◌,
}
use openv.Ipc.Object.{
  KernelObject, HandleEntry, contains, from_bits_truncate, channel, duplicate_right, transfer_right,
  write_right,
}
use openv.Ipc.Handle.{
  HandleTable, encode_handle, lowest_free, insert_with_rights, insert_entry, get_entry,
  remove_entry, dup, dup2, member, get_with_rights, Access, granted, refused,
}
use openv.Ipc.Port.{World}
use openv.Ipc.Channel.{References, write_fast}
use openv.Mm.UserPointer.{is_user_pointer_valid}
use openv.Errno

abbrev pub Reply : Type 0
Reply = Option (ℕ × HandleTable)

-- `get_current_proc_or_esrch!`: the call, or `ESRCH`.
abbrev pub with_proc : Option HandleTable → (HandleTable → Reply) → Option (ℕ × Option HandleTable)
with_proc none body = some (Errno.esrch, none)
with_proc (some t) body = Option.map (λ r. (r.0, some (r.1))) (body t)

-- The check of `sys_dup` and `sys_dup2`: the error code, or `none` to go on.
unfoldable pub refuse_duplicate : HandleTable → ℕ → Option ℕ
refuse_duplicate t handle = elim (get_entry t handle) [
  | none ↦ some Errno.ebadf
  | some entry ↦ if not (contains entry.rights duplicate_right) then some Errno.eacces else none
]

dup_body : HandleTable → ℕ → Reply
dup_body t old_fd = elim (refuse_duplicate t old_fd) [
  | some code ↦ some (code, t)
  | none ↦ elim (dup t old_fd) [
    | none ↦ none
    | some (r, t') ↦ elim r [ some new_fd ↦ some (new_fd, t') | none ↦ some (Errno.ebadf, t') ]
  ]
]

unfoldable pub sys_dup : Option HandleTable → ℕ → Option (ℕ × Option HandleTable)
unfolding dup_body
sys_dup proc arg0 = with_proc proc (λ t. dup_body t (arg0 % 2 ^ 32))

dup2_body : HandleTable → ℕ → ℕ → Reply
dup2_body t old_fd new_fd = elim (refuse_duplicate t old_fd) [
  | some code ↦ some (code, t)
  | none ↦
      let r : Bool × HandleTable = dup2 t old_fd new_fd in
      if r.0 then some (new_fd, r.1) else some (Errno.ebadf, r.1)
]

pub sys_dup2 : Option HandleTable → ℕ → ℕ → Option (ℕ × Option HandleTable)
unfolding dup2_body
sys_dup2 proc arg0 arg1 =
    let old_fd : ℕ = arg0 % 2 ^ 32 in
    let new_fd : ℕ = arg1 % 2 ^ 32 in
    if old_fd == new_fd
    then some (new_fd, proc)
    else with_proc proc (λ t. dup2_body t old_fd new_fd)

duplicate_entry : HandleTable → HandleEntry → ℕ → Reply
duplicate_entry t entry rights =
    if not (contains entry.rights duplicate_right)
    then some (Errno.eacces, t)
    else if not (contains entry.rights (from_bits_truncate (rights % 2 ^ 32)))
    then some (Errno.eacces, t)
    else insert_with_rights t entry.object (from_bits_truncate (rights % 2 ^ 32))

duplicate_body : HandleTable → ℕ → ℕ → Reply
unfolding duplicate_entry
duplicate_body t handle rights = elim (get_entry t handle) [
  | none ↦ some (Errno.ebadf, t)
  | some entry ↦ duplicate_entry t entry rights
]

unfoldable pub sys_handle_duplicate : Option HandleTable → ℕ → ℕ → Option (ℕ × Option HandleTable)
unfolding duplicate_body
sys_handle_duplicate proc handle rights =
    with_proc proc (λ t. duplicate_body t (handle % 2 ^ 32) rights)

-- What a call on channels does: the value of `a0`, the caller's table, the shared state, and the
-- waiter that the caller yields to.
pub record Effect : Type 0 where
  pub ret : ℕ
  pub fds : Option HandleTable
  pub world : World
  pub yields_to : Option ℕ

-- The caller's memory: the bytes and the 32-bit words at an address.
pub record UserMemory : Type 0 where
  pub read_bytes : ℕ → ℕ → List ℕ
  pub read_u32s : ℕ → ℕ → List ℕ

unfoldable pub channel_of : Access → Option ℕ
channel_of (granted (channel n)) = some n
channel_of (granted other) = none
channel_of (refused code) = none

-- Step 2.5 of `sys_channel_write`: some handle stands in the list before.
unfoldable pub has_duplicate : List ℕ → List ℕ → Bool
has_duplicate seen [] = false
has_duplicate seen (h ∷ hs) = member h seen || has_duplicate (h ∷ seen) hs

-- Step 3: the code of the first handle that is dead or may not be transferred.
unfoldable pub refuse_transfer : HandleTable → List ℕ → Option ℕ
refuse_transfer t [] = none
refuse_transfer t (h ∷ hs) = elim (get_entry t h) [
  | none ↦ some Errno.ebadf
  | some entry ↦
      if not (contains entry.rights transfer_right) then some Errno.eacces else refuse_transfer t hs
]

unfoldable pub check_handles : HandleTable → ℕ → List ℕ → Option ℕ
unfolding refuse_transfer has_duplicate
check_handles t fd ids =
    if member fd ids
    then some Errno.einval
    else if has_duplicate [] ids
    then some Errno.einval
    else refuse_transfer t ids

-- Step 4: the entries leave the table.
unfoldable pub take_entries : HandleTable → List ℕ → List HandleEntry × HandleTable
take_entries t [] = ([], t)
take_entries t (h ∷ hs) =
    let (found, t') = remove_entry t h in
    let (rest, t'') = take_entries t' hs in (elim found [ none ↦ rest | some e ↦ e ∷ rest ], t'')

-- The answer to what `write_fast` returned.
unfoldable pub write_outcome : HandleTable → Option (Option ℕ) × World → Effect
write_outcome t (some waiter, w) = record { ret = 0; fds = some t; world = w; yields_to = waiter }
write_outcome t (none, w) = record { ret = Errno.failed; fds = some t; world = w; yields_to = none }

-- Steps 4 and 5.
unfoldable pub send_entries : References → HandleTable → World → ℕ → List ℕ → List ℕ → Effect
unfolding write_outcome
send_entries refs t w n bytes ids =
    let (handles, t') = take_entries t ids in
    write_outcome t' (write_fast refs n (record { bytes = bytes; handles = handles }) w)

-- From step 1 on, with the bytes and the handle numbers copied in.
unfoldable pub channel_write_body : References → HandleTable → World → ℕ → List ℕ → List ℕ → Effect
unfolding channel_of
channel_write_body refs t w fd bytes ids = elim (channel_of (get_with_rights t fd write_right)) [
  | none ↦ record { ret = Errno.eacces; fds = some t; world = w; yields_to = none }
  | some n ↦ elim (check_handles t fd ids) [
    | some code ↦ record { ret = code; fds = some t; world = w; yields_to = none }
    | none ↦ send_entries refs t w n bytes ids
  ]
]

unfoldable pub sys_channel_write :
    References → UserMemory → Option HandleTable → World → ℕ → ℕ → ℕ → ℕ → ℕ → Effect
sys_channel_write refs user proc w fd buf_ptr buf_len handles_ptr handles_len =
    if ltb 8 handles_len
    then fail Errno.einval
    else if ltb 0 buf_len && not (is_user_pointer_valid 1 buf_ptr buf_len)
    then fail Errno.efault
    else if ltb 0 handles_len && not (is_user_pointer_valid 4 handles_ptr handles_len)
    then fail Errno.efault
    else elim proc [
      | none ↦ fail Errno.esrch
      | some t ↦
          channel_write_body refs t w (fd % 2 ^ 32) (user.read_bytes buf_ptr buf_len)
            (user.read_u32s handles_ptr handles_len)
    ]
  where
    fail : ℕ → Effect
    fail code = record { ret = code; fds = proc; world = w; yields_to = none }

-- The loop of `copy_msg_to_user` that gives the received entries handles in the receiver's table.
unfoldable pub mint_handle : HandleTable → HandleEntry → Option (ℕ × HandleTable)
mint_handle t entry = elim (lowest_free t) [
  | none ↦ none
  | some id ↦
      let new_h : ℕ = encode_handle id ((entry.generation + 1) % 65536) in
      some (new_h, insert_entry t new_h entry)
]

unfoldable pub mint_handles : HandleTable → List HandleEntry → Option (List ℕ × HandleTable)
mint_handles t [] = some ([], t)
mint_handles t (entry ∷ rest) = elim (mint_handle t entry) [
  | none ↦ none
  | some (h, t') ↦ Option.map (λ r. (h ∷ r.0, r.1)) (mint_handles t' rest)
]
