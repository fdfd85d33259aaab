-- ===== src/Ipc/Channel/Closed.antt =====
-- What the drop of an endpoint leaves at its peer.
use mathlib.Core.List.{append_assoc, append-nil}
use openv.Common.{
  not, bit_and, ◌==◌, Bool-cases, inl, inr, ℕ, ltb, if◌then◌else◌, Bool, false, sym, ◌≡◌, refl, ◌∙◌,
  ap, true, Option, none, some, List, [], ◌∷◌, map, ◌++◌,
}
use openv.Ipc.Object.{KernelObject, channel}
use openv.Ipc.Port.{
  World, Endpoint, Message, PortPacket, SignalObserver, assign, enqueue_waiter, queue_packet,
}
use openv.Ipc.Channel.{
  References, notify_signals, put_endpoint, notify_observers, wake_waker, wake_signal_waiters,
  get_signals, peer_of, drop_peer, drop_endpoint, drop_object, drop_objects, drop_message,
}
use openv.Ipc.Channel.Fifo.{
  endpoints-notify_signals, endpoints-enqueue_waiter, endpoints-wake_waker,
}

-- More was put on the run queue, behind what was there.
abbrev Extends : World → World → Type 0
Extends w w' = (more : List ℕ) × (w'.enqueued ≡ w.enqueued ++ more)

Extends-trans : (u v w : World) → Extends u v → Extends v w → Extends u w
Extends-trans u v w (xs, e) (ys, e') =
    (xs ++ ys, e' ∙ ap (λ l. l ++ ys) e ∙ append_assoc u.enqueued xs ys)

Extends-same : (u w : World) → w.enqueued ≡ u.enqueued → Extends u w
Extends-same u w e = ([], e ∙ sym (append-nil u.enqueued))

enqueue_waiter-Extends : (pid : ℕ) (w : World) → Extends w (enqueue_waiter pid w)
unfolding enqueue_waiter
enqueue_waiter-Extends pid w = elim (Bool-cases (ltb 0 pid)) [
  | inl e ↦ (pid ∷ [], rw (e, enqueue_waiter) refl)
  | inr e ↦ Extends-same w (enqueue_waiter pid w) (rw (e, enqueue_waiter) refl)
]

if-Extends : (b : Bool) (u w : World) → Extends u w → Extends u (if b then w else u)
if-Extends true u w h = h
if-Extends false u w h = Extends-same u u refl

-- The round of `notify_observers` for one observer.
abbrev told : ℕ → SignalObserver → World → World
told active o w =
    if not (bit_and active o.trigger_signals == 0)
    then queue_packet o.port
        (record { key = o.key; type_ = 1; status = 0; observed_signals = active }) w
    else w

queue_packet-Extends :
    (p : ℕ) (packet : PortPacket) (w : World) → Extends w (queue_packet p packet w)
unfolding queue_packet
queue_packet-Extends p packet w = enqueue_waiter-Extends (w.ports p).waiter (record w {
  ports = assign w.ports p (record { queue = (w.ports p).queue ++ (packet ∷ []); waiter = 0 });
})

notify_observers-Extends :
    (active : ℕ) (os : List SignalObserver) (w : World) → Extends w (notify_observers active os w)
unfolding notify_observers
notify_observers-Extends active [] w = Extends-same w w refl
notify_observers-Extends active (o ∷ os) w =
    Extends-trans w (told active o w) (notify_observers active os (told active o w))
      (if-Extends _ w
        (queue_packet o.port
          (record { key = o.key; type_ = 1; status = 0; observed_signals = active }) w)
        (queue_packet-Extends o.port
          (record { key = o.key; type_ = 1; status = 0; observed_signals = active }) w))
      (notify_observers-Extends active os (told active o w))

-- Who waits for the endpoint: its reader, and those that wait for its signals directly.
abbrev pub waiters : Endpoint → List ℕ
waiters ep = (if ltb 0 ep.waiter then ep.waiter ∷ [] else []) ++ map (λ r. r.0) ep.signal_waiters

enqueue_waiter_eq :
    (pid : ℕ) (w : World)
    → (enqueue_waiter pid w).enqueued ≡ w.enqueued ++ (if ltb 0 pid then pid ∷ [] else [])
unfolding enqueue_waiter
enqueue_waiter_eq pid w = elim (Bool-cases (ltb 0 pid)) [
  | inl e ↦ rw e refl
  | inr e ↦ rw e (sym (append-nil w.enqueued))
]

enqueued-wake_waker : (k : Option ℕ) (w : World) → (wake_waker k w).enqueued ≡ w.enqueued
unfolding wake_waker
enqueued-wake_waker none w = refl
enqueued-wake_waker (some k) w = refl

-- Endpoint `c` is gone, and its peer `q`, which was `peer`, knows that. All who
-- waited for the peer are on the run queue.
abbrev pub Closes : ℕ → ℕ → Endpoint → World → World → Type 0
Closes c q peer w w' =
    (ep : Endpoint) × (w'.endpoints ≡ assign (assign w.endpoints c none) q (some ep))
    × (ep.peer_closed ≡ true)
    × (ep.queue ≡ peer.queue)
    × (ep.waiter ≡ 0)
    × (ep.waker ≡ none)
    × (ep.signal_waiters ≡ [])
    × (more : List ℕ) × (w'.enqueued ≡ (w.enqueued ++ waiters peer) ++ more)

drop_peer-enqueued :
    (q : ℕ) (peer : Endpoint) (w : World)
    → (more : List ℕ) × ((drop_peer q peer w).enqueued ≡ (w.enqueued ++ waiters peer) ++ more)
unfolding drop_peer notify_signals put_endpoint wake_signal_waiters
drop_peer-enqueued q peer w =
    let w₀ : World = wake_waker peer.waker w in
    let w₁ : World = enqueue_waiter peer.waiter w₀ in
    let pids : List ℕ = map (λ (r : ℕ × ℕ). r.0) peer.signal_waiters in
    let first : List ℕ = if ltb 0 peer.waiter then peer.waiter ∷ [] else [] in
    let closed' : Endpoint = record peer {
      waker = none;
      peer_closed = true;
      waiter = 0;
      signal_waiters = [];
    } in
    let (more, e) =
      notify_observers-Extends (get_signals closed') peer.observers
        (put_endpoint q closed' (record w₁ { enqueued = (w₁.enqueued ++ pids) ++ [] })) in
    (
      more,
      e
          ∙ ap (λ l. l ++ more)
              (append-nil (w₁.enqueued ++ pids)
                ∙ ap (λ l. l ++ pids)
                    (enqueue_waiter_eq peer.waiter w₀
                      ∙ ap (λ l. l ++ first) (enqueued-wake_waker peer.waker w))
                ∙ append_assoc w.enqueued first pids),
    )

drop_peer-Closes :
    (c q : ℕ) (peer : Endpoint) (w : World)
    → Closes c q peer w (drop_peer q peer (record w { endpoints = assign w.endpoints c none }))
unfolding drop_peer wake_signal_waiters
drop_peer-Closes c q peer w =
    let gone : World = record w { endpoints = assign w.endpoints c none } in
    let w₁ : World = enqueue_waiter peer.waiter (wake_waker peer.waker gone) in
    let closed' : Endpoint = record peer {
      waker = none;
      peer_closed = true;
      waiter = 0;
      signal_waiters = [];
    } in
    let (more, run_queue) = drop_peer-enqueued q peer gone in
    (
      closed',
      endpoints-notify_signals q closed' (get_signals closed')
            (record w₁ { enqueued = w₁.enqueued ++ map (λ r. r.0) peer.signal_waiters })
          ∙ ap (λ (f : ℕ → Option Endpoint). assign f q (some closed'))
              (endpoints-enqueue_waiter peer.waiter (wake_waker peer.waker gone)
                ∙ endpoints-wake_waker peer.waker gone),
      refl,
      refl,
      refl,
      refl,
      refl,
      more,
      run_queue,
    )

drop_endpoint-Closes :
    (c q : ℕ) (peer : Endpoint) (w : World)
    → peer_of c w ≡ some (q, peer)
    → Closes c q peer w (drop_endpoint c w)
unfolding drop_endpoint
drop_endpoint-Closes c q peer w e = rw (e, drop_endpoint) (drop_peer-Closes c q peer w)

-- What a message with these entries leaves behind when it is dropped: nothing, if other references
-- to all of their objects stay; and if just the last reference to an endpoint goes, its peer is closed.
abbrev pub Drops : References → Message → World → World → Type 0
Drops refs msg w w' =
    (w' ≡ drop_objects refs (refs.released w msg.handles) w)
    × (refs.released w msg.handles ≡ [] → w' ≡ w)
    × ((c q : ℕ) (peer : Endpoint)
        → refs.released w msg.handles ≡ channel c ∷ []
        → peer_of c w ≡ some (q, peer)
        → Closes c q peer w w')

pub drop_message-Drops :
    (refs : References) (msg : Message) (w : World) → Drops refs msg w (drop_message refs msg w)
unfolding drop_message drop_objects drop_object
drop_message-Drops refs msg w = (
  refl,
  λ e. ap (λ (objs : List KernelObject). drop_objects refs objs w) e,
  λ c q peer e at. rw e (drop_endpoint-Closes c q peer w at),
)
