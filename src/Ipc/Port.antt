-- ===== src/Ipc/Port.antt =====
-- src/ipc/port.rs, and the shared kernel state that ports and channels act on.
use openv.Common.{ℕ, Option, none, some, Bool, List, [], ◌∷◌, ◌++◌, ltb, ◌==◌, if◌then◌else◌}
use openv.Ipc.Object.{HandleEntry}

abbrev pub signal_readable : ℕ
signal_readable = 1

abbrev pub signal_writable : ℕ
signal_writable = 2

abbrev pub signal_peer_closed : ℕ
signal_peer_closed = 4

-- `PortPacket`.
pub record PortPacket : Type 0 where
  pub key : ℕ
  pub type_ : ℕ
  pub status : ℕ
  pub observed_signals : ℕ

-- `SignalObserver`; the port is named by its number.
pub record SignalObserver : Type 0 where
  pub port : ℕ
  pub key : ℕ
  pub trigger_signals : ℕ

-- `Port`. A waiter is the pid of a blocked thread, or 0.
pub record Port : Type 0 where
  pub queue : List PortPacket
  pub waiter : ℕ

-- `Message` of src/ipc/channel.rs.
pub record Message : Type 0 where
  pub bytes : List ℕ
  pub handles : List HandleEntry

-- `ChannelEndpoint` with its `EndpointState`. The peer and the epoll instances are weak references,
-- named by their numbers.
pub record Endpoint : Type 0 where
  pub queue : List Message
  pub waker : Option ℕ
  pub peer_closed : Bool
  pub peer : ℕ
  pub waiter : ℕ
  pub observers : List SignalObserver
  pub epoll_waiters : List ℕ
  pub signal_waiters : List (ℕ × ℕ)

-- The objects that are alive, and what was handed to the scheduler so far: the pids passed to
-- `process::enqueue` and the wakers woken, oldest first. `epolls` gives the waiter of an instance.
pub record World : Type 0 where
  pub endpoints : ℕ → Option Endpoint
  pub epolls : ℕ → Option ℕ
  pub ports : ℕ → Port
  pub enqueued : List ℕ
  pub woken : List ℕ

-- A store with one cell written.
abbrev pub assign {ℓ} : {A : Type ℓ} → (ℕ → A) → ℕ → A → ℕ → A
assign f k v j = if j == k then v else f j

-- `if waiter > 0 { enqueue(waiter) }` on the value that `swap(0)` returned.
unfoldable pub enqueue_waiter : ℕ → World → World
enqueue_waiter waiter w =
    if ltb 0 waiter then record w { enqueued = w.enqueued ++ (waiter ∷ []) } else w

-- `Port::queue_packet`.
unfoldable pub queue_packet : ℕ → PortPacket → World → World
queue_packet p packet w = enqueue_waiter (w.ports p).waiter (record w {
  ports = assign w.ports p (record { queue = (w.ports p).queue ++ (packet ∷ []); waiter = 0 });
})

-- `Port::try_recv`.
unfoldable pub port_try_recv : ℕ → World → Option PortPacket × World
port_try_recv p w = elim (w.ports p).queue [
  | [] ↦ (none, w)
  | packet ∷ rest ↦ (
    some packet,
    record w { ports = assign w.ports p (record { queue = rest; waiter = (w.ports p).waiter }) },
  )
]
