-- ===== src/Ipc/Channel/Run.antt =====
-- One direction of a channel over a whole history of writes and receives.
use openv.Common.{
  ℕ, ◌≡◌, refl, sym, ◌∙◌, ap, subst, ◌≢◌, Option, none, some, List, [], ◌∷◌, ◌++◌, arith,
  if◌then◌else◌,
}
use mathlib.Core.List.{append_assoc, append-nil}
use openv.Ipc.Port.{World, Message}
use openv.Ipc.Channel.{References, write, take_front, try_recv}
use openv.Ipc.Channel.Fifo.{Linked, write-Linked, take_front-Linked}

pub data Op : Type 0 where
  send : Message → Op
  receive : Op

-- The messages that a history sends.
unfoldable pub sends : List Op → List Message
sends [] = []
sends (send m ∷ ops) = m ∷ sends ops
sends (receive ∷ ops) = sends ops

-- A receive at endpoint `p`: the message taken, if any.
unfoldable pub receive_at : ℕ → World → Option Message × World
receive_at p w = elim (w.endpoints p) [ none ↦ (none, w) | some ep ↦ try_recv p ep w ]

-- A message taken, before those taken later.
unfoldable pub prepend : Option Message → List Message → List Message
prepend none got = got
prepend (some m) got = m ∷ got

-- A history on endpoint `n` (which writes) and endpoint `p` (which receives): the messages accepted,
-- those received, and the state reached.
unfoldable pub run : References → ℕ → ℕ → List Op → World → List Message × List Message × World
run refs n p [] w = ([], [], w)
run refs n p (send m ∷ ops) w =
    let (accepted, w') = write refs n m w in
    let (sent, got, w'') = run refs n p ops w' in ((if accepted then m ∷ sent else sent), got, w'')
run refs n p (receive ∷ ops) w =
    let (found, w') = receive_at p w in
    let (sent, got, w'') = run refs n p ops w' in (sent, prepend found got, w'')

run_receive :
    (refs : References) (n p : ℕ) (ops : List Op) (w w' : World) (found : Option Message)
    → receive_at p w ≡ (found, w')
    → run refs n p (receive ∷ ops) w
      ≡ ((run refs n p ops w').0, prepend found (run refs n p ops w').1, (run refs n p ops w').2)
unfolding run
run_receive refs n p ops w w' found e =
    ap
      (λ (r : Option Message × World).
        let rest : List Message × List Message × World = run refs n p ops (r.1) in
        let all : List Message × List Message × World = (rest.0, prepend (r.0) rest.1, rest.2) in
        all)
      e

receive_nil : (n p : ℕ) (w : World) → Linked n p [] w → receive_at p w ≡ (none, w)
unfolding receive_at try_recv
receive_nil n p w (_, (ep, c, d)) = ground (arith, c, d)

receive_cons :
    (n p : ℕ) (w : World) (m : Message) (rest : List Message)
    → n ≢ p
    → Linked n p (m ∷ rest) w
    → (w' : World) × (receive_at p w ≡ (some m, w')) × Linked n p rest w'
unfolding receive_at try_recv
receive_cons n p w m rest ne l =
    let ep = l.1.0 in
    (take_front p ep rest w, ground (arith, l.1.1, l.1.2), take_front-Linked n p w ep m rest ne l)

-- What is true of a history that starts with queue `q` at the receiver.
abbrev pub InOrder : ℕ → ℕ → List Message → List Op → List Message × List Message × World → Type 0
InOrder n p q ops r =
    (rest : List Message) × Linked n p rest (r.2)
    × (r.0 ≡ sends ops)
    × (r.1 ++ rest ≡ q ++ sends ops)

-- On a live pair of endpoints every write of every history of writes and receives is accepted, and
-- the messages received, followed by those still queued, are those queued at the start followed by
-- those sent, in this order.
pub run-InOrder :
    (refs : References) (n p : ℕ) (q : List Message) (ops : List Op) (w : World)
    → n ≢ p
    → Linked n p q w
    → InOrder n p q ops (run refs n p ops w)
unfolding run sends prepend
run-InOrder refs n p q [] w ne l = (q, l, refl, sym (append-nil q))
run-InOrder refs n p q (send m ∷ ops) w ne l =
    let (ok, l') = write-Linked refs n p q m w ne l in
    let (rest, l'', all, order) =
      run-InOrder refs n p (q ++ (m ∷ [])) ops (write refs n m w).1 ne l' in
    (rest, l'', rw ok (ap (λ t. m ∷ t) all), order ∙ append_assoc q (m ∷ []) (sends ops))
run-InOrder refs n p [] (receive ∷ ops) w ne l =
    let got = run-InOrder refs n p [] ops w ne l in
    subst (InOrder n p [] (receive ∷ ops))
      (sym (run_receive refs n p ops w w none (receive_nil n p w l))) (got.0, got.1, got.2, got.3)
run-InOrder refs n p (m ∷ q) (receive ∷ ops) w ne l =
    let (w', e, l') = receive_cons n p w m q ne l in
    let (rest, l'', all, order) = run-InOrder refs n p q ops w' ne l' in
    subst (InOrder n p (m ∷ q) (receive ∷ ops)) (sym (run_receive refs n p ops w w' (some m) e))
      (rest, l'', all, ap (λ t. m ∷ t) order)
