-- ===== src/Tests/Sending.antt =====
-- The theorems on messages, queues, connections and the server's container, each on one input.
use security_transmission_pl.Base.{
  ℕ, ◌%◌, ◌^◌, ◌≡◌, ◌≢◌, ◌↔◌, refl, ◌⊎◌, true, false, none, some, List, [], ◌∷◌, ◌++◌, arith, u32,
  u64, length, ◌+◌, replicate, get_elem?, ◌==◌, if◌then◌else◌, ◌>>=◌,
}
use security_transmission_pl.Net.Message.{Message, OwnedMessage, size, push, pop}
use security_transmission_pl.Net.Message.Laws.{IsSized, Fits, pop-push}
use security_transmission_pl.Net.TsQueue.{TsQueue}
use security_transmission_pl.Net.TsQueue
use security_transmission_pl.Net.TsQueue.Wakeup
use security_transmission_pl.Net.Scramble.{scramble}
use security_transmission_pl.Net.Connection.{
  Connection, writing_body, writing_validation, reading_header, on_write_header, on_write_body,
  posted_send, on_write_validation, new, connect_to_client, write_validation, read_validation,
}
use security_transmission_pl.Net.Connection.Handshake.{
  greeting, answered, answering, write_done, answer_accepted_iff, handshake_succeeds,
  foreign_answer_iff,
}
use security_transmission_pl.Net.Connection.Writing.{frames}
use security_transmission_pl.Net.Connection.Writing.Order.{
  InOrder, Reach-InOrder, Reach-written, Reach-handled,
}
use security_transmission_pl.Net.Connection.Reading.{read_frames, messages_delivered, stale_body}
use security_transmission_pl.Net.ServerInterface.{
  ServerInterface, Arrival, fails, comes, new_server, start, on_accept, wait_for_client_connection,
  message_client, message_all_clients,
}
use security_transmission_pl.Net.ServerInterface.Accepting.{
  IsNumbered, serving, accept_all, has_gone, accept_all-listens,
}
use security_transmission_pl.Net.ServerInterface.Sending.{
  on_client_disconnect, times, message_client_stays, message_all_clients_lem,
}
use security_transmission_pl.Proto.Msg.{NetMsgType}
use security_transmission_pl.Platform.Server.{on_client_connect}
use security_transmission_pl.Tests.Peers.{
  empty_msg, hello, peer, dead_peer, sys_fresh, sys_half, sys_done, run_half, run_done,
}

hello-IsSized : IsSized hello
unfolding size
hello-IsSized = refl

hello_pushed-Fits : Fits (push hello (9 ∷ []))
unfolding push size
hello_pushed-Fits = omega arith

hello-Fits : Fits hello
unfolding size
hello-Fits = omega arith

pop-push_example : pop (push hello (9 ∷ [])) 1 ≡ some (9 ∷ [], hello)
pop-push_example = pop-push hello (9 ∷ []) hello-IsSized hello_pushed-Fits

popped :
    pop hello 1
    ≡ some (
      8 ∷ [],
      record { header = record { id = NetMsgType.seckey_verify; size = 1 }; body = 7 ∷ [] },
    )
unfolding pop
popped = refl

abbrev queue : TsQueue ℕ
queue = record { deq_queue = 1 ∷ [] }

-- The waiter finds the item that was there before it looked.
item_found : Wakeup.Reach {A = ℕ} Wakeup.start (record {
  queue = record { deq_queue = 4 ∷ [] };
  waiter = Wakeup.Waiter.returned;
  pusher = Wakeup.Pusher.outside;
})
unfolding TsQueue.push_back TsQueue.new TsQueue.empty
item_found =
    Wakeup.Reach.next
      (Wakeup.Reach.next (Wakeup.Reach.next Wakeup.Reach.here (Wakeup.Step.append 4 refl refl))
        (Wakeup.Step.notify refl refl))
      (Wakeup.Step.find_item refl refl refl refl)

lost_wakeup_example :
    (s : Wakeup.System ℕ) × Wakeup.Reach Wakeup.start s
    × (s.waiter ≡ Wakeup.Waiter.asleep)
    × (s.pusher ≡ Wakeup.Pusher.outside)
    × (s.queue.deq_queue ≡ 4 ∷ [])
lost_wakeup_example = Wakeup.lost_wakeup 4

answer_accepted_iff_example :
    let c = answered 1 5 10000 3 empty_msg in
    ((c.socket_open ≡ true) ↔ (3 ≡ scramble (u64 5)))
    × ((c.reading ≡ reading_header ∷ []) ↔ (3 ≡ scramble (u64 5)))
    × ((c.reading ≡ []) ↔ (3 ≢ scramble (u64 5)))
answer_accepted_iff_example = answer_accepted_iff 1 5 10000 3 empty_msg

handshake_succeeds_example :
    let puzzle = (greeting 1 5 10000 empty_msg).handshake_out in
    let c = answering 2 puzzle empty_msg in
    let s = answered 1 5 10000 c.handshake_out empty_msg in
    (c.writing ≡ writing_validation ∷ [])
    × ((on_write_validation false (write_done c)).reading ≡ reading_header ∷ [])
    × (s.socket_open ≡ true)
    × (s.reading ≡ reading_header ∷ [])
    × (s.id ≡ 10000)
handshake_succeeds_example = handshake_succeeds 1 2 5 10000 empty_msg

foreign_answer_iff_example :
    ((answered 1 5 10000 (scramble 6) empty_msg).socket_open ≡ true) ↔ (6 % 2 ^ 56 ≡ 5 % 2 ^ 56)
foreign_answer_iff_example = foreign_answer_iff 1 5 6 10000 empty_msg

Reach-InOrder_example : InOrder sys_half
Reach-InOrder_example = Reach-InOrder (refl, refl, refl, refl) run_half

Reach-written_example : sys_done.wire ≡ frames (hello ∷ [])
Reach-written_example = Reach-written (refl, refl, refl, refl) run_done refl refl

Reach-handled_example :
    (m : Message NetMsgType) × (TsQueue.front sys_half.conn.messages_out ≡ some m)
    × (on_write_header false (record (sys_half.conn) { writing = [] }) ≢ none)
    × (on_write_body false (record (sys_half.conn) { writing = [] }) ≢ none)
Reach-handled_example = Reach-handled writing_body [] (refl, refl, refl, refl) run_half refl

abbrev inbox : TsQueue (OwnedMessage NetMsgType)
inbox = record { deq_queue = [] }

messages_delivered_example :
    (c' : Connection NetMsgType) × (q' : TsQueue (OwnedMessage NetMsgType)) × (read_frames
        sys_done.wire
        (peer, inbox)
      ≡ some (c', q'))
    × (q'.deq_queue ≡ record { remote = some 1; msg = hello } ∷ [])
messages_delivered_example =
    messages_delivered sys_fresh sys_done peer inbox (refl, refl, refl, refl) run_done refl refl
      (hello-IsSized, omega arith, tt) ((λ e. ground (arith, e)), tt) refl

stale_body_example :
    (c' : Connection NetMsgType) × (q' : TsQueue (OwnedMessage NetMsgType)) × (read_frames
        (frames (hello ∷ empty_msg ∷ []))
        (peer, inbox)
      ≡ some (c', q'))
    × (q'.deq_queue
        ≡ record { remote = some 1; msg = hello }
          ∷ record { remote = some 1; msg = record empty_msg { body = 7 ∷ 8 ∷ [] } }
          ∷ [])
stale_body_example =
    stale_body hello empty_msg.header peer inbox hello-IsSized (omega arith)
      (λ e. ground (arith, e)) refl refl

-- A client that fails to arrive, and two that arrive.
abbrev arrivals : List Arrival
arrivals = fails ∷ comes 4 ∷ comes 5 ∷ []

accept_all-listens_example :
    ((s : ServerInterface NetMsgType) × (serving on_client_connect empty_msg (λ h. peer) arrivals
        ≡ some s)
      × (has_gone on_client_connect empty_msg arrivals ≡ false)
      × (s.accepting ≡ 1)
      × IsNumbered on_client_connect empty_msg s.heap s.fresh 0 s.connections
      × (s.id_counter ≡ u32 (10000 + length s.connections)))
    ⊎ ((serving on_client_connect empty_msg (λ h. peer) arrivals ≡ none)
        × (has_gone on_client_connect empty_msg arrivals ≡ true))
accept_all-listens_example = accept_all-listens on_client_connect empty_msg (λ h. peer) arrivals

second_client :
    (serving on_client_connect empty_msg (λ h. peer) arrivals >>= λ s.
    some (get_elem? s.connections 1))
    ≡ some (some (some 1))
unfolding accept_all start new_server on_accept wait_for_client_connection on_client_connect new
    connect_to_client write_validation read_validation
second_client = refl

-- Two clients: one whose socket is open, and one whose socket is closed.
abbrev two_clients : ServerInterface NetMsgType
two_clients = record {
  messages_in = inbox;
  connections = some 1 ∷ some 2 ∷ [];
  heap = λ h. if h == 2 then dead_peer else peer;
  fresh = 3;
  id_counter = 10002;
  accepting = 1;
  running = true;
}

message_client_stays_example :
    (s' : ServerInterface NetMsgType) × (message_client on_client_disconnect
        (some 2)
        hello
        two_clients
      ≡ some s')
    × (s'.connections ≡ some 1 ∷ some 2 ∷ [])
    × ((s'.heap 2).posted ≡ [])
message_client_stays_example = message_client_stays 2 (1 ∷ 2 ∷ []) hello two_clients refl refl

message_all_clients_lem_example :
    (s' : ServerInterface NetMsgType) × (message_all_clients on_client_disconnect hello none
        two_clients
      ≡ some s')
    × (s'.connections ≡ some 1 ∷ [])
    × ((j : ℕ)
        → (s'.heap j).posted
          ≡ (two_clients.heap j).posted ++ replicate (times j none (1 ∷ [])) (posted_send hello))
    × ((j : ℕ) → (s'.heap j).socket_open ≡ (two_clients.heap j).socket_open)
message_all_clients_lem_example = message_all_clients_lem (1 ∷ 2 ∷ []) hello none two_clients refl
