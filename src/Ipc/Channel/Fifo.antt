-- ===== src/Ipc/Channel/Fifo.antt =====
-- A channel delivers its messages in the order in which they were written.
use openv.Common.{
  ℕ, ◌≡◌, refl, ◌∙◌, ap, ◌≢◌, Bool, true, false, Option, none, some, List, [], ◌∷◌, ◌++◌, arith,
  Option-cases, if◌then◌else◌, inl, inr,
}
use openv.Ipc.Port.{
  World, Endpoint, Message, SignalObserver, PortPacket, assign, enqueue_waiter, queue_packet,
}
use openv.Ipc.Channel.{
  put_endpoint, wake_epoll_waiters, wake_waker, wake_signal_waiters, notify_observers,
  notify_signals, write_peer, peer_of, write, write_fast, write_fast_peer, take_front, get_signals,
  References, drop_message,
}

-- The calls below touch the endpoints only through `put_endpoint`.
pub endpoints-enqueue_waiter : (k : ℕ) (w : World) → (enqueue_waiter k w).endpoints ≡ w.endpoints
unfolding enqueue_waiter
endpoints-enqueue_waiter k w = ground arith

pub endpoints-wake_waker : (k : Option ℕ) (w : World) → (wake_waker k w).endpoints ≡ w.endpoints
unfolding wake_waker
endpoints-wake_waker none w = refl
endpoints-wake_waker (some k) w = refl

endpoints-wake_epoll_waiters :
    (es : List ℕ) (w : World) → (wake_epoll_waiters es w).1.endpoints ≡ w.endpoints
unfolding wake_epoll_waiters
endpoints-wake_epoll_waiters [] w = refl
endpoints-wake_epoll_waiters (e ∷ es) w = elim (Option-cases (w.epolls e)) [
  | inl dead ↦ rw (dead, wake_epoll_waiters) (endpoints-wake_epoll_waiters es w)
  | inr (pid, alive) ↦
      rw (alive, wake_epoll_waiters)
        (endpoints-wake_epoll_waiters es _ ∙ endpoints-enqueue_waiter pid _)
]

endpoints-queue_packet :
    (p : ℕ) (packet : PortPacket) (w : World) → (queue_packet p packet w).endpoints ≡ w.endpoints
unfolding queue_packet
endpoints-queue_packet p packet w = endpoints-enqueue_waiter _ _

endpoints-if :
    (b : Bool) (w' w : World)
    → w'.endpoints ≡ w.endpoints
    → (if b then w' else w).endpoints ≡ w.endpoints
endpoints-if true w' w e = e
endpoints-if false w' w e = refl

endpoints-notify_observers :
    (active : ℕ) (os : List SignalObserver) (w : World)
    → (notify_observers active os w).endpoints ≡ w.endpoints
unfolding notify_observers
endpoints-notify_observers active [] w = refl
endpoints-notify_observers active (o ∷ os) w =
    endpoints-notify_observers active os _ ∙ endpoints-if _ _ w (endpoints-queue_packet o.port _ w)

pub endpoints-notify_signals :
    (n : ℕ) (ep : Endpoint) (active : ℕ) (w : World)
    → (notify_signals n ep active w).endpoints
      ≡ assign w.endpoints n
          (some (record ep { signal_waiters = (wake_signal_waiters active ep.signal_waiters).0 }))
unfolding notify_signals put_endpoint
endpoints-notify_signals n ep active w = endpoints-notify_observers active ep.observers _

-- What a write leaves at the peer: the message at the end, and nobody waiting.
abbrev pub Delivered : ℕ → Endpoint → Message → World → World → Type 0
Delivered p peer msg w w' =
    (ep : Endpoint) × (w'.endpoints ≡ assign w.endpoints p (some ep))
    × (ep.queue ≡ peer.queue ++ (msg ∷ []))
    × (ep.waiter ≡ 0)
    × (ep.waker ≡ none)
    × (ep.peer_closed ≡ peer.peer_closed)

-- `notify_signals` writes its endpoint, and keeps all of it but the direct waiters.
abbrev Kept : Endpoint → Endpoint → Type 0
Kept ep' ep =
    (ep'.queue ≡ ep.queue)
    × (ep'.waiter ≡ ep.waiter)
    × (ep'.waker ≡ ep.waker)
    × (ep'.peer_closed ≡ ep.peer_closed)
    × (ep'.peer ≡ ep.peer)

notified :
    (p : ℕ) (ep : Endpoint) (active : ℕ) (w₂ w : World)
    → w₂.endpoints ≡ w.endpoints
    → (ep' : Endpoint) × ((notify_signals p ep active w₂).endpoints
        ≡ assign w.endpoints p (some ep'))
      × Kept ep' ep
notified p ep active w₂ w e =
    let ep' : Endpoint = record ep {
      signal_waiters = (wake_signal_waiters active ep.signal_waiters).0;
    } in
    (
      ep',
      endpoints-notify_signals p ep active w₂
          ∙ ap (λ (f : ℕ → Option Endpoint). assign f p (some ep')) e,
      (refl, refl, refl, refl, refl),
    )

write_peer-Delivered :
    (p : ℕ) (peer : Endpoint) (msg : Message) (w : World)
    → Delivered p peer msg w (write_peer p peer msg w)
unfolding write_peer
write_peer-Delivered p peer msg w =
    let w₀ : World = wake_waker peer.waker w in
    let w₁ : World = enqueue_waiter peer.waiter w₀ in
    let woken : Endpoint = record peer {
      queue = peer.queue ++ (msg ∷ []);
      waker = none;
      waiter = 0;
      epoll_waiters = (wake_epoll_waiters peer.epoll_waiters w₁).0;
    } in
    let (ep', e, kept) =
      notified p woken (get_signals woken) (wake_epoll_waiters peer.epoll_waiters w₁).1 w (
        endpoints-wake_epoll_waiters peer.epoll_waiters w₁
        ∙ endpoints-enqueue_waiter peer.waiter w₀
        ∙ endpoints-wake_waker peer.waker w) in
    (ep', e, kept.0, kept.1, kept.2, kept.3)

pub write_fast_peer-Delivered :
    (p : ℕ) (peer : Endpoint) (msg : Message) (w : World)
    → Delivered p peer msg w (write_fast_peer p peer msg w).1
unfolding write_fast_peer
write_fast_peer-Delivered p peer msg w =
    let w₁ : World = wake_waker peer.waker w in
    let woken : Endpoint = record peer {
      queue = peer.queue ++ (msg ∷ []);
      waker = none;
      waiter = 0;
      epoll_waiters = (wake_epoll_waiters peer.epoll_waiters w₁).0;
    } in
    let (ep', e, kept) =
      notified p woken (get_signals woken) (wake_epoll_waiters peer.epoll_waiters w₁).1 w
        (endpoints-wake_epoll_waiters peer.epoll_waiters w₁ ∙ endpoints-wake_waker peer.waker w) in
    (ep', e, kept.0, kept.1, kept.2, kept.3)

-- Taking the front message writes its endpoint only, which keeps its peer.
taken :
    (n : ℕ) (ep : Endpoint) (rest : List Message) (w : World)
    → (ep' : Endpoint) × ((take_front n ep rest w).endpoints
        ≡ assign (put_endpoint n (record ep { queue = rest }) w).endpoints n (some ep'))
      × Kept ep' (record ep { queue = rest })
unfolding take_front
taken n ep rest w =
    let ep₁ : Endpoint = record ep { queue = rest } in
    notified n ep₁ (get_signals ep₁) (put_endpoint n ep₁ w) (put_endpoint n ep₁ w) refl

-- An endpoint `n` that is alive and whose peer `p`, another one, is alive with this queue.
abbrev pub Linked : ℕ → ℕ → List Message → World → Type 0
Linked n p q w =
    ((en : Endpoint) × (w.endpoints n ≡ some en) × (en.peer ≡ p))
    × ((ep : Endpoint) × (w.endpoints p ≡ some ep) × (ep.queue ≡ q))

peer_of-Linked :
    (n p : ℕ) (w : World) (en ep : Endpoint)
    → w.endpoints n ≡ some en
    → en.peer ≡ p
    → w.endpoints p ≡ some ep
    → peer_of n w ≡ some (p, ep)
unfolding peer_of
peer_of-Linked n p w en ep a b c = ground (arith, ap w.endpoints b)

assign_self : (f : ℕ → Option Endpoint) (k : ℕ) (v : Option Endpoint) → assign f k v k ≡ v
assign_self f k v = ground arith

assign_ne : (f : ℕ → Option Endpoint) (k j : ℕ) (v : Option Endpoint) → j ≢ k → assign f k v j ≡ f j
assign_ne f k j v ne = ground arith

relinked :
    (n p : ℕ) (w w' : World) (en ep : Endpoint) (q : List Message)
    → n ≢ p
    → w.endpoints n ≡ some en
    → en.peer ≡ p
    → w'.endpoints ≡ assign w.endpoints p (some ep)
    → ep.queue ≡ q
    → Linked n p q w'
relinked n p w w' en ep q ne a b e c = (
  (en, ap (λ (f : ℕ → Option Endpoint). f n) e ∙ assign_ne w.endpoints p n (some ep) ne ∙ a, b),
  (ep, ap (λ (f : ℕ → Option Endpoint). f p) e ∙ assign_self w.endpoints p (some ep), c),
)

write_eq :
    (refs : References) (n p : ℕ) (ep : Endpoint) (msg : Message) (w : World)
    → peer_of n w ≡ some (p, ep)
    → write refs n msg w ≡ (true, write_peer p ep msg w)
unfolding write
write_eq refs n p ep msg w e = rw (e, write)

-- `write` to a live peer, another endpoint, succeeds and appends the message to its queue.
pub write-Linked :
    (refs : References) (n p : ℕ) (q : List Message) (msg : Message) (w : World)
    → n ≢ p
    → Linked n p q w
    → ((write refs n msg w).0 ≡ true) × Linked n p (q ++ (msg ∷ [])) (write refs n msg w).1
write-Linked refs n p q msg w ne ((en, a, b), (ep, c, d)) =
    let (ep', e, q', _, _, _) = write_peer-Delivered p ep msg w in
    rw (write_eq refs n p ep msg w (peer_of-Linked n p w en ep a b c)) (
      refl,
      relinked n p w (write_peer p ep msg w) en ep' (q ++ (msg ∷ [])) ne a b e
          (q' ∙ ap (λ l. l ++ (msg ∷ [])) d),
    )

-- `write` on an endpoint whose peer is gone reports "Peer closed" and drops the message.
pub write-peer_gone :
    (refs : References) (n : ℕ) (msg : Message) (w : World)
    → peer_of n w ≡ none
    → write refs n msg w ≡ (false, drop_message refs msg w)
unfolding write
write-peer_gone refs n msg w e = rw (e, write)

pub take_front-Linked :
    (n p : ℕ) (w : World) (ep : Endpoint) (msg : Message) (rest : List Message)
    → n ≢ p
    → Linked n p (msg ∷ rest) w
    → Linked n p rest (take_front p ep rest w)
unfolding put_endpoint
take_front-Linked n p w ep msg rest ne ((en, a, b), _) =
    let (ep', e, kept) = taken p ep rest w in
    let cell : Option Endpoint = some (record ep { queue = rest }) in
    relinked n p (put_endpoint p (record ep { queue = rest }) w) (take_front p ep rest w) en ep'
      rest ne (assign_ne w.endpoints p n cell ne ∙ a) b e kept.0

pub write_fast-some :
    (refs : References) (n p : ℕ) (ep : Endpoint) (msg : Message) (w : World)
    → peer_of n w ≡ some (p, ep)
    → write_fast refs n msg w
      ≡ (some (write_fast_peer p ep msg w).0, (write_fast_peer p ep msg w).1)
unfolding write_fast
write_fast-some refs n p ep msg w e = rw (e, write_fast)

pub write_fast-none :
    (refs : References) (n : ℕ) (msg : Message) (w : World)
    → peer_of n w ≡ none
    → write_fast refs n msg w ≡ (none, drop_message refs msg w)
unfolding write_fast
write_fast-none refs n msg w e = rw (e, write_fast)
