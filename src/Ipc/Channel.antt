-- ===== src/Ipc/Channel.antt =====
-- src/ipc/channel.rs: the operations of a channel endpoint on the shared kernel state. An endpoint
-- is dropped when its number leads to `none`.
pub mod Fifo
pub mod Run
pub mod Closed
use openv.Common.{
  ℕ, ◌+◌, Bool, true, false, not, Option, none, some, List, [], ◌∷◌, ◌++◌, bit_and, ltb, ◌==◌, ◌||◌,
  map, length, if◌then◌else◌,
}
use openv.Ipc.Object.{KernelObject, HandleEntry, channel, epoll_instance}
use openv.Ipc.Port.{
  World, Endpoint, Message, SignalObserver, PortPacket, assign, enqueue_waiter, queue_packet,
  signal_readable, signal_writable, signal_peer_closed,
}

-- An endpoint's cell after a write to it.
unfoldable pub put_endpoint : ℕ → Endpoint → World → World
put_endpoint n ep w = record w { endpoints = assign w.endpoints n (some ep) }

-- `ChannelEndpoint::create_pair`, with fresh numbers for the two endpoints.
unfoldable pub fresh_endpoint : ℕ → Endpoint
fresh_endpoint peer = record {
  queue = [];
  waker = none;
  peer_closed = false;
  peer = peer;
  waiter = 0;
  observers = [];
  epoll_waiters = [];
  signal_waiters = [];
}

unfoldable pub create_pair : ℕ → ℕ → World → World
create_pair a b w = put_endpoint b (fresh_endpoint a) (put_endpoint a (fresh_endpoint b) w)

-- `handle::wake_epoll_waiters`: a dead instance leaves the list, a live one is woken.
unfoldable pub wake_epoll_waiters : List ℕ → World → List ℕ × World
wake_epoll_waiters [] w = ([], w)
wake_epoll_waiters (e ∷ es) w =
    let alive : Option ℕ = w.epolls e in
    let w' : World = elim alive [
      | none ↦ w
      | some pid ↦ enqueue_waiter pid (record w { epolls = assign w.epolls e (some 0) })
    ] in
    let rest : List ℕ × World = wake_epoll_waiters es w' in
    (elim alive [ none ↦ rest.0 | some pid ↦ e ∷ rest.0 ], rest.1)

-- `get_signals`: the bits are distinct.
unfoldable pub get_signals : Endpoint → ℕ
get_signals ep =
    (elim ep.queue [ [] ↦ 0 | m ∷ ms ↦ signal_readable ])
    + (if not ep.peer_closed then signal_writable else signal_peer_closed)

-- The loop of `notify_signals` over the direct waiters: what stays, and who is enqueued.
unfoldable pub wake_signal_waiters : ℕ → List (ℕ × ℕ) → List (ℕ × ℕ) × List ℕ
wake_signal_waiters active [] = ([], [])
wake_signal_waiters active ((pid, mask) ∷ ws) =
    let rest : List (ℕ × ℕ) × List ℕ = wake_signal_waiters active ws in
    if not (bit_and active mask == 0)
    then (rest.0, pid ∷ rest.1)
    else ((pid, mask) ∷ rest.0, rest.1)

-- The loop of `notify_signals` over the observers.
unfoldable pub notify_observers : ℕ → List SignalObserver → World → World
notify_observers active [] w = w
notify_observers active (o ∷ os) w = notify_observers active os (
    if not (bit_and active o.trigger_signals == 0)
    then queue_packet o.port
        (record { key = o.key; type_ = 1; status = 0; observed_signals = active }) w
    else w)

-- `notify_signals` on endpoint `n`, which is `ep`.
unfoldable pub notify_signals : ℕ → Endpoint → ℕ → World → World
notify_signals n ep active w =
    let (kept, pids) = wake_signal_waiters active ep.signal_waiters in
    notify_observers active ep.observers (
      put_endpoint n (record ep { signal_waiters = kept })
        (record w { enqueued = w.enqueued ++ pids }))

-- `if let Some(waker) = waker.take() { waker.wake() }`.
unfoldable pub wake_waker : Option ℕ → World → World
wake_waker none w = w
wake_waker (some k) w = record w { woken = w.woken ++ (k ∷ []) }

-- `write` on endpoint `n`, to its peer; `false` is the error "Peer closed".
unfoldable pub write_peer : ℕ → Endpoint → Message → World → World
unfolding wake_waker
write_peer p peer msg w =
    let queued : Endpoint = record peer {
      queue = peer.queue ++ (msg ∷ []);
      waker = none;
      waiter = 0;
    } in
    let w₁ : World = enqueue_waiter peer.waiter (wake_waker peer.waker w) in
    let (kept, w₂) = wake_epoll_waiters peer.epoll_waiters w₁ in
    let woken : Endpoint = record queued { epoll_waiters = kept } in
    notify_signals p woken (get_signals woken) w₂

-- The peer that `self.peer.lock().upgrade()` finds.
unfoldable pub peer_of : ℕ → World → Option (ℕ × Endpoint)
peer_of n w = elim (w.endpoints n) [
  | none ↦ none
  | some ep ↦ elim (w.endpoints ep.peer) [ none ↦ none | some peer ↦ some (ep.peer, peer) ]
]

-- `write_fast` hands the waiter to its caller instead of the run queue, and wakes the epoll waiters
-- before it takes the waiter. The option is the waiter.
unfoldable pub write_fast_peer : ℕ → Endpoint → Message → World → Option ℕ × World
write_fast_peer p peer msg w =
    let w₁ : World = wake_waker peer.waker w in
    let (kept, w₂) = wake_epoll_waiters peer.epoll_waiters w₁ in
    let woken : Endpoint = record peer {
      queue = peer.queue ++ (msg ∷ []);
      waker = none;
      waiter = 0;
      epoll_waiters = kept;
    } in
    (
      if ltb 0 peer.waiter then some peer.waiter else none,
      notify_signals p woken (get_signals woken) w₂,
    )

-- An endpoint after its first message was taken, which is announced to its own observers.
unfoldable pub take_front : ℕ → Endpoint → List Message → World → World
unfolding put_endpoint
take_front n ep rest w =
    let ep' : Endpoint = record ep { queue = rest } in
    notify_signals n ep' (get_signals ep') (put_endpoint n ep' w)

pub data Poll : Type 0 where
  ready : Message → Poll
  closed : Poll
  pending : Poll

unfoldable pub poll_recv : ℕ → ℕ → Endpoint → World → Poll × World
poll_recv n waker ep w = elim ep.queue [
  | msg ∷ rest ↦ (ready msg, take_front n ep rest w)
  | [] ↦
      if ep.peer_closed
      then (closed, w)
      else (pending, put_endpoint n (record ep { waker = some waker }) w)
]

unfoldable pub try_recv : ℕ → Endpoint → World → Option Message × World
try_recv n ep w = elim ep.queue [ msg ∷ rest ↦ (some msg, take_front n ep rest w) | [] ↦ (none, w) ]

-- The outcome of `try_recv_constrained`: a message, none, or the sizes that the caller's buffers
-- do not hold.
pub data Received : Type 0 where
  message : Message → Received
  nothing : Received
  too_small : ℕ → ℕ → Received

unfoldable pub try_recv_constrained : ℕ → Endpoint → ℕ → ℕ → World → Received × World
try_recv_constrained n ep max_bytes max_handles w = elim ep.queue [
  | [] ↦ (nothing, w)
  | msg ∷ rest ↦
      if ltb max_bytes (length msg.bytes) || ltb max_handles (length msg.handles)
      then (too_small (length msg.bytes) (length msg.handles), w)
      else (message msg, take_front n ep rest w)
]

-- `Drop`: the endpoint's number leads nowhere any more, and a live peer learns of it.
unfoldable pub drop_peer : ℕ → Endpoint → World → World
drop_peer p peer w =
    let w₁ : World = enqueue_waiter peer.waiter (wake_waker peer.waker w) in
    let closed' : Endpoint = record peer {
      waker = none;
      peer_closed = true;
      waiter = 0;
      signal_waiters = [];
    } in
    notify_signals p closed' (get_signals closed')
      (record w₁ { enqueued = w₁.enqueued ++ map (λ r. r.0) peer.signal_waiters })

unfoldable pub drop_endpoint : ℕ → World → World
drop_endpoint n w =
    let gone : World = record w { endpoints = assign w.endpoints n none } in
    elim (peer_of n w) [ none ↦ gone | some (p, peer) ↦ drop_peer p peer gone ]

-- What the counts of references, which the standard library keeps, say when entries are dropped: the
-- objects whose last reference goes, in the order of their drops, those that the dropped objects held
-- among them. The drop of a further kind of
-- object is an argument too.
pub record References : Type 0 where
  pub released : World → List HandleEntry → List KernelObject
  pub drop_other : KernelObject → World → World

-- `Drop for EpollInstance`.
unfoldable drop_epoll : ℕ → World → World
drop_epoll e w = elim (w.epolls e) [
  | none ↦ w
  | some pid ↦ enqueue_waiter pid (record w { epolls = assign w.epolls e none })
]

unfoldable pub drop_object : References → KernelObject → World → World
unfolding drop_epoll
drop_object refs (channel n) w = drop_endpoint n w
drop_object refs (epoll_instance e) w = drop_epoll e w
drop_object refs obj w = refs.drop_other obj w

unfoldable pub drop_objects : References → List KernelObject → World → World
drop_objects refs [] w = w
drop_objects refs (obj ∷ objs) w = drop_objects refs objs (drop_object refs obj w)

-- A message that is dropped takes its entries with it.
unfoldable pub drop_message : References → Message → World → World
drop_message refs msg w = drop_objects refs (refs.released w msg.handles) w

-- The result is whether the peer is there; without it, "Peer closed", the message is dropped.
unfoldable pub write : References → ℕ → Message → World → Bool × World
write refs n msg w = elim (peer_of n w) [
  | none ↦ (false, drop_message refs msg w)
  | some (p, peer) ↦ (true, write_peer p peer msg w)
]

-- `none` outside is "Peer closed", on which the message is dropped.
unfoldable pub write_fast : References → ℕ → Message → World → Option (Option ℕ) × World
write_fast refs n msg w = elim (peer_of n w) [
  | none ↦ (none, drop_message refs msg w)
  | some (p, peer) ↦ let (waiter, w') = write_fast_peer p peer msg w in (some waiter, w')
]
