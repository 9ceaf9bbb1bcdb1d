-- ===== src/Net/ServerInterface/Sending.antt =====
-- `MessageClient` and `MessageAllClients`, with the `OnClientDisconnect` of platform::Server
-- (include/Server.h), which calls `Disconnect` through the pointer.
use mathlib.Core.List.{append_assoc, append-nil}
use security_transmission_pl.Base.{
  Bool-cases, inl, inr, ℕ, suc, ◌≡◌, refl, sym, ap, ◌∙◌, Bool, true, false, Option, none, some,
  List, [], ◌∷◌, ◌++◌, arith, if◌then◌else◌, ◌==◌, not, ◌&&◌, replicate,
}
use security_transmission_pl.Net.Message.{Message}
use security_transmission_pl.Net.Connection.{
  Connection, Posted, posted_send, send, disconnect, is_open,
}
use security_transmission_pl.Net.ServerInterface.{
  ServerInterface, message_client, message_all_loop, message_all_clients, erase_null, assign,
  same_pointer,
}

module _ {T : Type 0} where
  -- `client->Disconnect()`, undefined through the null pointer.
  unfoldable pub on_client_disconnect : Option ℕ → (ℕ → Connection T) → Option (ℕ → Connection T)
  on_client_disconnect none heap = none
  on_client_disconnect (some h) heap = some (assign heap h (disconnect (heap h)))

-- The container as it is between calls: no pointer of it is null.
abbrev pub pointers : List ℕ → List (Option ℕ)
pointers [] = []
pointers (h ∷ hs) = some h ∷ pointers hs

-- How often a message goes to the object `j`.
pub times : ℕ → Option ℕ → List ℕ → ℕ
times j ignore [] = 0
times j ignore (h ∷ hs) =
    if h == j && not (same_pointer (some h) ignore)
    then suc (times j ignore hs)
    else times j ignore hs

erase_null-pointers : (hs : List ℕ) → erase_null (pointers hs) ≡ pointers hs
unfolding erase_null
erase_null-pointers [] = refl
erase_null-pointers (h ∷ hs) = ap (◌∷◌ (some h)) (erase_null-pointers hs)

module _ {T : Type 0} where
  -- The clients of a container whose sockets are open.
  abbrev pub live : (ℕ → Connection T) → List ℕ → List ℕ
  live heap [] = []
  live heap (h ∷ hs) = if (heap h).socket_open then h ∷ live heap hs else live heap hs

  -- `MessageClient` on a client whose socket is closed, in a container without null pointers, sends
  -- nothing and is defined, and the client stays in the container.
  pub message_client_stays :
      (h : ℕ) (hs : List ℕ) (msg : Message T) (s : ServerInterface T)
      → s.connections ≡ pointers hs
      → (s.heap h).socket_open ≡ false
      → (s' : ServerInterface T) × (message_client on_client_disconnect (some h) msg s ≡ some s')
        × (s'.connections ≡ s.connections)
        × ((s'.heap h).posted ≡ (s.heap h).posted)
  unfolding message_client on_client_disconnect is_open disconnect
  message_client_stays h hs msg s e closed = (
    record s {
      heap = assign s.heap h (disconnect (s.heap h));
      connections = erase_null s.connections;
    },
    rw closed,
    rw e (erase_null-pointers hs),
    ground arith,
  )

  live-ext :
      (heap heap' : ℕ → Connection T) (hs : List ℕ)
      → ((j : ℕ) → (heap' j).socket_open ≡ (heap j).socket_open)
      → live heap' hs ≡ live heap hs
  live-ext heap heap' [] e = refl
  live-ext heap heap' (h ∷ hs) e = rw (e h, live-ext heap heap' hs e)

  -- What the loop does from a heap and a container: which pointers are left, and what is posted to
  -- each object; no socket is opened or closed by it.
  record Looped (msg : Message T) (ignore : Option ℕ) (hs : List ℕ) (heap : ℕ → Connection T)
      : Type 0 where
    left : List (Option ℕ)
    invalid : Bool
    heap' : ℕ → Connection T
    returns :
        message_all_loop on_client_disconnect msg ignore (pointers hs) heap
        ≡ some (left, invalid, heap')
    kept : erase_null left ≡ pointers (live heap hs)
    kept_valid : invalid ≡ false → left ≡ pointers (live heap hs)
    sent :
        (j : ℕ)
        → (heap' j).posted
          ≡ (heap j).posted ++ replicate (times j ignore (live heap hs)) (posted_send msg)
    same : (j : ℕ) → (heap' j).socket_open ≡ (heap j).socket_open

  -- The heap after the client at the head was served.
  served : Message T → Option ℕ → ℕ → (ℕ → Connection T) → (ℕ → Connection T)
  served msg ignore h heap =
      if (heap h).socket_open
      then (if same_pointer (some h) ignore then heap else assign heap h (send msg (heap h)))
      else assign heap h (disconnect (heap h))

  served-same :
      (msg : Message T) (ignore : Option ℕ) (h : ℕ) (heap : ℕ → Connection T) (j : ℕ)
      → (served msg ignore h heap j).socket_open ≡ (heap j).socket_open
  unfolding served send disconnect
  served-same msg ignore h heap j = ground arith

  served-posted :
      (msg : Message T) (ignore : Option ℕ) (h : ℕ) (hs : List ℕ) (heap : ℕ → Connection T) (j : ℕ)
      → (served msg ignore h heap j).posted
          ++ replicate (times j ignore (live heap hs)) (posted_send msg)
        ≡ (heap j).posted ++ replicate (times j ignore (live heap (h ∷ hs))) (posted_send msg)
  unfolding served send disconnect times
  served-posted msg ignore h hs heap j =
      let more : List (Posted T) = replicate (times j ignore (live heap hs)) (posted_send msg) in
      ground (arith, append_assoc (heap j).posted (posted_send msg ∷ []) more)

  module _ (msg : Message T) (ignore : Option ℕ) (h : ℕ) (hs : List ℕ)
      (heap heap' : ℕ → Connection T) (left : List (Option ℕ)) (invalid : Bool)
      (rest : message_all_loop on_client_disconnect msg ignore
          (pointers hs)
          (served msg ignore h heap)
        ≡ some (left, invalid, heap')) where
    loop-open :
        (heap h).socket_open ≡ true
        → message_all_loop on_client_disconnect msg ignore (pointers (h ∷ hs)) heap
          ≡ some (some h ∷ left, invalid, heap')
    unfolding message_all_loop served is_open
    loop-open opened = simp (opened, simp opened at rest)

    loop-closed :
        (heap h).socket_open ≡ false
        → message_all_loop on_client_disconnect msg ignore (pointers (h ∷ hs)) heap
          ≡ some (none ∷ left, true, heap')
    unfolding message_all_loop served is_open on_client_disconnect
    loop-closed closed = simp (closed, simp closed at rest)

  live-open :
      (heap : ℕ → Connection T) (h : ℕ) (hs : List ℕ)
      → (heap h).socket_open ≡ true
      → live heap (h ∷ hs) ≡ h ∷ live heap hs
  live-open heap h hs e = rw e

  live-closed :
      (heap : ℕ → Connection T) (h : ℕ) (hs : List ℕ)
      → (heap h).socket_open ≡ false
      → live heap (h ∷ hs) ≡ live heap hs
  live-closed heap h hs e = rw e

  loop-Looped :
      (msg : Message T) (ignore : Option ℕ) (hs : List ℕ) (heap : ℕ → Connection T)
      → Looped msg ignore hs heap
  unfolding message_all_loop on_client_disconnect erase_null times
  loop-Looped msg ignore [] heap = record {
    left = [];
    invalid = false;
    heap' = heap;
    returns = refl;
    kept = refl;
    kept_valid = λ _. refl;
    sent = λ j. sym (append-nil (heap j).posted);
    same = λ j. refl;
  }
  loop-Looped msg ignore (h ∷ hs) heap =
      let r : Looped msg ignore hs (served msg ignore h heap) =
        loop-Looped msg ignore hs (served msg ignore h heap) in
      let same_live : live (served msg ignore h heap) hs ≡ live heap hs =
        live-ext heap (served msg ignore h heap) hs (served-same msg ignore h heap) in
      elim (Bool-cases (heap h).socket_open) [
        | inl alive ↦ record {
          left = some h ∷ r.left;
          invalid = r.invalid;
          heap' = r.heap';
          returns = loop-open msg ignore h hs heap r.heap' r.left r.invalid r.returns alive;
          kept =
              ap (◌∷◌ (some h)) (r.kept ∙ ap pointers same_live)
              ∙ sym (ap pointers (live-open heap h hs alive));
          kept_valid = λ v.
              ap (◌∷◌ (some h)) (r.kept_valid v ∙ ap pointers same_live)
              ∙ sym (ap pointers (live-open heap h hs alive));
          sent = λ j. (rw same_live at r.sent j) ∙ served-posted msg ignore h hs heap j;
          same = λ j. r.same j ∙ served-same msg ignore h heap j;
        }
        | inr dead ↦ record {
          left = none ∷ r.left;
          invalid = true;
          heap' = r.heap';
          returns = loop-closed msg ignore h hs heap r.heap' r.left r.invalid r.returns dead;
          kept = r.kept ∙ ap pointers same_live ∙ sym (ap pointers (live-closed heap h hs dead));
          kept_valid = λ v. cc;
          sent = λ j. (rw same_live at r.sent j) ∙ served-posted msg ignore h hs heap j;
          same = λ j. r.same j ∙ served-same msg ignore h heap j;
        }
      ]

  -- `MessageAllClients` on a container without null pointers is defined. It keeps exactly the
  -- clients whose sockets are open, in their order; it posts the message once for each entry of a
  -- kept client other than the ignored one, after what was posted before, and posts nothing else;
  -- and it opens and closes no socket.
  pub message_all_clients_lem :
      (hs : List ℕ) (msg : Message T) (ignore : Option ℕ) (s : ServerInterface T)
      → s.connections ≡ pointers hs
      → (s' : ServerInterface T) × (message_all_clients on_client_disconnect msg ignore s ≡ some s')
        × (s'.connections ≡ pointers (live s.heap hs))
        × ((j : ℕ)
            → (s'.heap j).posted
              ≡ (s.heap j).posted ++ replicate (times j ignore (live s.heap hs)) (posted_send msg))
        × ((j : ℕ) → (s'.heap j).socket_open ≡ (s.heap j).socket_open)
  unfolding message_all_clients
  message_all_clients_lem hs msg ignore s e =
      let r : Looped msg ignore hs s.heap = loop-Looped msg ignore hs s.heap in
      (
        record s { connections = if r.invalid then erase_null r.left else r.left; heap = r.heap' },
        rw (e, r.returns),
        ground (arith, r.kept, r.kept_valid),
        r.sent,
        r.same,
      )
