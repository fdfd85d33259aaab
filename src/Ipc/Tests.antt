-- ===== src/Ipc/Tests.antt =====
-- Runs of the handle table and of channels on concrete data, and the theorems at such data.
use openv.Common.{
  ℕ, ◌<◌, ◌≡◌, refl, ◌≢◌, false, none, some, List, [], ◌∷◌, map, arith, ltb, if◌then◌else◌,
}
use openv.Ipc.Object.{KernelObject, HandleEntry, channel, tty, port, contains, from_bits_truncate}
use openv.Ipc.Handle.{
  HandleTable, Slots, encode_handle, get_entry, is_cloexec, insert_with_rights, lowest_free, update,
  find_free, close_on_exec,
}
use openv.Ipc.Handle.Free.{insert_with_rights_lem, Inserts}
use openv.Ipc.Handle.Cloexec.{close_on_exec_lem, survivor, HasGenerations}
use openv.Ipc.Port.{World, Message}
use openv.Ipc.Channel.{References, create_pair, put_endpoint, fresh_endpoint}
use openv.Ipc.Channel.Run.{Op, send, receive, run, InOrder, run-InOrder}
use openv.Ipc.Syscall.{sys_handle_duplicate}
use openv.Ipc.Syscall.Duplicate.{NarrowsAt, sys_handle_duplicate-Narrows}

abbrev entry : KernelObject → ℕ → HandleEntry
entry obj rights = record { object = obj; rights = rights; generation = 1 }

-- Ids 0 to 2 are taken: a terminal, a channel and a port that can be read and duplicated only.
abbrev slots : Slots
slots id =
    if ltb 2 id
    then none
    else if ltb 1 id
    then some (entry (port 9) 5)
    else if ltb 0 id
    then some (entry (channel 4) 15)
    else some (entry (tty 1) 15)

abbrev table : HandleTable
table = record { map = slots; cloexec = 65537 ∷ [] }

abbrev tty_handle : ℕ
tty_handle = 65536

abbrev channel_handle : ℕ
channel_handle = 65537

abbrev port_handle : ℕ
port_handle = 65538

insert_with_rights_lem_example :
    (handle : ℕ) × (t' : HandleTable) × (insert_with_rights table (channel 5) 3 ≡ some (handle, t'))
    × Inserts table (channel 5) 3 handle t'
insert_with_rights_lem_example = insert_with_rights_lem table (channel 5) 3 3 (omega arith) refl

none_lower : (j : ℕ) → j < 1 → table.map j ≢ none
none_lower j h e = ground arith

slots-HasGenerations : HasGenerations slots
slots-HasGenerations id e h = ground arith

close_on_exec_lem_example :
    ((id : ℕ) → id < 65536 → (close_on_exec table).map id ≡ survivor (65537 ∷ []) id (table.map id))
    × ((h : ℕ) → is_cloexec (close_on_exec table) h ≡ false)
close_on_exec_lem_example = close_on_exec_lem table (omega arith) slots-HasGenerations

-- The table with an entry put under id 3.
abbrev inserted : KernelObject → ℕ → HandleTable
inserted obj rights = record table { map = update slots 3 (some (entry obj rights)) }

sys_handle_duplicate-Narrows_example : NarrowsAt table port_handle (inserted (port 9) 1) 3
unfolding sys_handle_duplicate get_entry insert_with_rights lowest_free find_free contains
    from_bits_truncate encode_handle
sys_handle_duplicate-Narrows_example =
    sys_handle_duplicate-Narrows table (inserted (port 9) 1) port_handle 1 65539 3 refl

empty_world : World
empty_world = record {
  endpoints = λ n. none;
  epolls = λ e. none;
  ports = λ p. record { queue = []; waiter = 0 };
  enqueued = [];
  woken = [];
}

-- Endpoints 4 and 6 of one channel.
abbrev paired : World
paired = create_pair 4 6 empty_world

abbrev hello : Message
hello = record { bytes = 104 ∷ 105 ∷ []; handles = [] }

abbrev bye : Message
bye = record { bytes = 98 ∷ []; handles = entry (port 9) 5 ∷ [] }

abbrev history : List Op
history = send hello ∷ send bye ∷ receive ∷ receive ∷ receive ∷ []

-- Nothing but the entries of the message refers to their objects, which hold nothing themselves.
abbrev one_reference : References
one_reference = record {
  released = λ w es. map (λ (e : HandleEntry). e.object) es;
  drop_other = λ obj w. w;
}

run-InOrder_example : InOrder 4 6 [] history (run one_reference 4 6 history paired)
unfolding create_pair empty_world put_endpoint fresh_endpoint
run-InOrder_example =
    run-InOrder one_reference 4 6 [] history paired (omega arith)
      ((fresh_endpoint 6, refl, refl), (fresh_endpoint 4, refl, refl))
