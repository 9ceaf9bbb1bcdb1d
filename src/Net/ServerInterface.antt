-- ===== src/Net/ServerInterface.antt =====
-- `ServerInterface` of include/net/net_client_server.hpp: accepting clients, sending to one or to
-- all of them, and handing messages to the program. A shared pointer is a handle into `heap`, or
-- `none` for the null pointer; comparing pointers compares handles. The virtual methods are
-- parameters; `none` as the result of one is undefined behaviour, such as a call through null.
pub mod Accepting
pub mod Sending
pub mod Updating
pub mod Interleaving
use security_transmission_pl.Base.{
  ℕ, zero, suc, ◌+◌, Bool, true, false, Option, none, some, List, [], ◌∷◌, ◌++◌, u32, if◌then◌else◌,
  ◌>>=◌, ◌==◌,
}
use security_transmission_pl.Net.Message.{Message, OwnedMessage}
use security_transmission_pl.Net.TsQueue
use security_transmission_pl.Net.TsQueue.{TsQueue}
use security_transmission_pl.Net.Connection.{
  Connection, server, new, connect_to_client, is_open, send,
}

pub record ServerInterface (T : Type 0) : Type 0 where
  pub messages_in : TsQueue (OwnedMessage T)
  pub connections : List (Option ℕ)
  pub heap : ℕ → Connection T
  -- The handle that the next object gets.
  pub fresh : ℕ
  pub id_counter : ℕ
  -- How many `async_accept` calls wait for a client.
  pub accepting : ℕ
  -- The thread that runs the io service, while it can be joined.
  pub running : Bool

-- How an `async_accept` is completed: with an error; with a socket whose peer has no address any more,
-- since it has closed already, so that `remote_endpoint` throws; or with a socket, while the clock
-- reads a number.
pub data Arrival : Type 0 where
  fails gone : Arrival
  comes : ℕ → Arrival

abbrev pub assign {ℓ} : {A : Type ℓ} → (ℕ → A) → ℕ → A → ℕ → A
assign f h x j = if j == h then x else f j

-- `shared_ptr::operator==`
abbrev pub same_pointer : Option ℕ → Option ℕ → Bool
same_pointer none none = true
same_pointer none (some h) = false
same_pointer (some h) none = false
same_pointer (some h) (some j) = h == j

-- `std::remove` of the null pointer, and `erase`
pub erase_null : List (Option ℕ) → List (Option ℕ)
erase_null [] = []
erase_null (none ∷ cs) = erase_null cs
erase_null (some h ∷ cs) = some h ∷ erase_null cs

module _ {T : Type 0} where
  -- `ServerInterface(port)`
  unfoldable pub new_server : (ℕ → Connection T) → ServerInterface T
  new_server heap = record {
    messages_in = TsQueue.new;
    connections = [];
    heap = heap;
    fresh = 0;
    id_counter = 10000;
    accepting = 0;
    running = false;
  }

  unfoldable pub wait_for_client_connection : ServerInterface T → ServerInterface T
  wait_for_client_connection s = record s { accepting = s.accepting + 1 }

  -- `throws` says whether asio threw while it was asked to listen.
  unfoldable pub start : Bool → ServerInterface T → ServerInterface T × Bool
  unfolding wait_for_client_connection
  start true s = (s, false)
  start false s = (record (wait_for_client_connection s) { running = true }, true)

  unfoldable pub stop : ServerInterface T → ServerInterface T
  stop s = record s { running = false }

  -- The handler of `async_accept`, which has taken one waiting call. `blank` is the empty message,
  -- and `on_client_connect` may turn the client away. `none` is the end of the program: nothing
  -- catches what `remote_endpoint` throws, neither the handler nor the thread that runs it.
  unfoldable pub on_accept :
      (Connection T → Bool) → Arrival → Message T → ServerInterface T → Option (ServerInterface T)
  unfolding wait_for_client_connection
  on_accept on_client_connect fails blank s = some (wait_for_client_connection s)
  on_accept on_client_connect gone blank s = none
  on_accept on_client_connect (comes now) blank s =
      let conn = new s.fresh server now true blank in
      let s' = record s { fresh = s.fresh + 1; heap = assign s.heap s.fresh conn } in
      some (
        wait_for_client_connection (
          if on_client_connect conn
          then record s' {
            connections = s.connections ++ some s.fresh ∷ [];
            heap = assign s.heap s.fresh (connect_to_client s.id_counter conn);
            id_counter = u32 (s.id_counter + 1);
          }
          else s'))

  -- `client && client->IsOpen()`
  unfoldable pub is_live : (ℕ → Connection T) → Option ℕ → Bool
  is_live heap none = false
  is_live heap (some h) = is_open (heap h)

  -- `client->Send(msg)`
  unfoldable pub send_to : Option ℕ → Message T → (ℕ → Connection T) → (ℕ → Connection T)
  send_to none msg heap = heap
  send_to (some h) msg heap = assign heap h (send msg (heap h))

  -- `MessageClient`. The pointer is a copy, and it is reset before it is looked for.
  unfoldable pub message_client :
      (Option ℕ → (ℕ → Connection T) → Option (ℕ → Connection T))
      → Option ℕ
      → Message T
      → ServerInterface T
      → Option (ServerInterface T)
  unfolding is_live send_to
  message_client on_client_disconnect client msg s =
      if is_live s.heap client then some (record s { heap = send_to client msg s.heap }) else (do
        heap ← on_client_disconnect client s.heap
        some (record s { heap = heap; connections = erase_null s.connections }))

  -- The loop of `MessageAllClients` over the container, whose pointers it may reset; the Boolean is
  -- `bInvalidClientExists`.
  pub message_all_loop :
      (Option ℕ → (ℕ → Connection T) → Option (ℕ → Connection T))
      → Message T
      → Option ℕ
      → List (Option ℕ)
      → (ℕ → Connection T)
      → Option (List (Option ℕ) × Bool × (ℕ → Connection T))
  unfolding is_live send_to
  message_all_loop on_client_disconnect msg ignore [] heap = some ([], false, heap)
  message_all_loop on_client_disconnect msg ignore (c ∷ cs) heap =
      let alive =
        (let heap' = if same_pointer c ignore then heap else send_to c msg heap in
          message_all_loop on_client_disconnect msg ignore cs heap' >>= λ (cs', invalid, heap'').
          some (c ∷ cs', invalid, heap'')) in
      let dead =
        (on_client_disconnect c heap >>= λ heap'.
        message_all_loop on_client_disconnect msg ignore cs heap' >>= λ (cs', invalid, heap'').
        some (none ∷ cs', true, heap'')) in
      if is_live heap c then alive else dead

  unfoldable pub message_all_clients :
      (Option ℕ → (ℕ → Connection T) → Option (ℕ → Connection T))
      → Message T
      → Option ℕ
      → ServerInterface T
      → Option (ServerInterface T)
  unfolding message_all_loop
  message_all_clients on_client_disconnect msg ignore s = do
    (cs, invalid, heap) ← message_all_loop on_client_disconnect msg ignore s.connections s.heap
    some (record s { connections = if invalid then erase_null cs else cs; heap = heap })

  -- The loop of `Update`, with at most `n` rounds left. Another thread may add messages meanwhile;
  -- this is a run in which none does. `on_message` is the program's handler over its own state.
  unfoldable pub update_loop {ℓ} :
      {S : Type ℓ}
      → (Option ℕ → Message T → S → S)
      → ℕ
      → TsQueue (OwnedMessage T)
      → S
      → Option (TsQueue (OwnedMessage T) × S)
  update_loop on_message zero q s = some (q, s)
  update_loop on_message (suc n) q s =
      let round =
        (TsQueue.pop_front q >>= λ (m, q').
        update_loop on_message n q' (on_message m.remote m.msg s)) in
      if TsQueue.empty q then some (q, s) else round
