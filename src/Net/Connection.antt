-- ===== src/Net/Connection.antt =====
-- include/net/net_connection.hpp: one end of a connection. What a method asks of asio is recorded in
-- `writing`, `reading` and `posted`, each in the order of the calls; a handler runs when asio
-- completes the oldest of them, which the children model. A handler takes the error code as a
-- Boolean (`true` is a failure) and what asio left in the buffer that it read into.
-- `none` is undefined behaviour, a `front` or `pop_front` on an empty queue. Log lines are left out.
pub mod Handshake
pub mod Writing
pub mod Reading
use security_transmission_pl.Base.{
  ℕ, ◌≡◌, Bool, true, false, not, Option, none, some, List, [], ◌∷◌, ◌++◌, ◌-◌, length, take,
  replicate, ltb, ◌==◌, if◌then◌else◌, ◌>>=◌, u64,
}
use security_transmission_pl.Net.Message.{MessageHeader, Message, OwnedMessage}
use security_transmission_pl.Net.TsQueue
use security_transmission_pl.Net.TsQueue.{TsQueue}
use security_transmission_pl.Net.Scramble.{scramble}

pub data Owner : Type 0 where
  server client : Owner

-- An `async_write` that has been started.
pub data Write : Type 0 where
  writing_header writing_body writing_validation : Write

-- An `async_read` (or `async_connect`) that has been started; a body read knows its length.
pub data Read : Type 0 where
  connecting reading_header reading_validation : Read
  reading_body : ℕ → Read

-- A function that was posted to the io service.
pub data Posted (T : Type 0) : Type 0 where
  posted_send : Message T → Posted T
  posted_close : Posted T

pub record Connection (T : Type 0) : Type 0 where
  -- The handle by which shared pointers name this object.
  pub self : ℕ
  pub socket_open : Bool
  pub messages_out : TsQueue (Message T)
  pub temporary_in : Message T
  pub owner_type : Owner
  pub handshake_out : ℕ
  pub handshake_in : ℕ
  pub handshake_check : ℕ
  pub connection_flag : Bool
  pub id : ℕ
  pub writing : List Write
  pub reading : List Read
  pub posted : List (Posted T)

-- The constructor's choice of the puzzle; `now` is the count of the system clock. On a client the
-- puzzle is 0 until one arrives, and the check is the 0 that it is declared with.
abbrev puzzle : Owner → ℕ → ℕ
puzzle server now = u64 now
puzzle client now = 0

abbrev check_of : Owner → ℕ → ℕ
check_of server out = scramble out
check_of client out = 0

-- On the server's side a message carries its connection, on the client's side the null pointer.
abbrev pub remote_of : Owner → ℕ → Option ℕ
remote_of server self = some self
remote_of client self = none

-- `vector::resize`, which keeps what fits and fills up with zeros.
abbrev pub resize : List ℕ → ℕ → List ℕ
resize bytes n =
    if ltb (length bytes) n then bytes ++ replicate (n - length bytes) 0 else take n bytes

module _ {T : Type 0} where
  -- `Connection(parent, asioContext, socket, qIn)`, with `blank` for the empty message
  unfoldable pub new : ℕ → Owner → ℕ → Bool → Message T → Connection T
  new self parent now is_open blank = record {
    self = self;
    socket_open = is_open;
    messages_out = TsQueue.new;
    temporary_in = blank;
    owner_type = parent;
    handshake_out = puzzle parent now;
    handshake_in = 0;
    handshake_check = check_of parent (puzzle parent now);
    connection_flag = false;
    id = 0;
    writing = [];
    reading = [];
    posted = [];
  }

  -- `m_socket.close()`
  abbrev pub close : Connection T → Connection T
  close c = record c { socket_open = false }

  abbrev pub start_write : Write → Connection T → Connection T
  start_write w c = record c { writing = c.writing ++ w ∷ [] }

  abbrev pub start_read : Read → Connection T → Connection T
  start_read r c = record c { reading = c.reading ++ r ∷ [] }

  unfoldable pub get_id : Connection T → ℕ
  get_id c = c.id

  unfoldable pub is_open : Connection T → Bool
  is_open c = c.socket_open

  unfoldable pub is_connect : Connection T → Bool
  is_connect c = c.connection_flag

  unfoldable pub disconnect : Connection T → Connection T
  disconnect c = if c.socket_open then record c { posted = c.posted ++ posted_close ∷ [] } else c

  unfoldable pub send : Message T → Connection T → Connection T
  send m c = record c { posted = c.posted ++ posted_send m ∷ [] }

  unfoldable pub write_header : Connection T → Connection T
  write_header c = start_write writing_header c

  unfoldable pub write_body : Connection T → Connection T
  write_body c = start_write writing_body c

  unfoldable pub read_header : Connection T → Connection T
  read_header c = start_read reading_header c

  unfoldable pub read_body : Connection T → Connection T
  read_body c = start_read (reading_body (length c.temporary_in.body)) c

  unfoldable pub write_validation : Connection T → Connection T
  write_validation c = start_write writing_validation c

  unfoldable pub read_validation : Connection T → Connection T
  read_validation c = start_read reading_validation c

  -- The functions that `Send` and `Disconnect` post.
  unfoldable pub run_posted : Posted T → Connection T → Connection T
  unfolding write_header
  run_posted (posted_send m) c =
      let writing_message = not (TsQueue.empty c.messages_out) in
      let queued = record c { messages_out = TsQueue.push_back c.messages_out m } in
      if writing_message then queued else write_header queued
  run_posted posted_close c = close c

  -- The message at the front is done: drop it, and go on with the next one.
  unfoldable pub finish_message : Connection T → Option (Connection T)
  unfolding write_header
  finish_message c = do
    (_, rest) ← TsQueue.pop_front c.messages_out
    let c' = record c { messages_out = rest }
    some (if TsQueue.empty rest then c' else write_header c')

  -- The handler of `WriteHeader`
  unfoldable pub on_write_header : Bool → Connection T → Option (Connection T)
  unfolding write_body finish_message
  on_write_header true c = some (close c)
  on_write_header false c = do
    m ← TsQueue.front c.messages_out
    if ltb 0 (length m.body) then some (write_body c) else finish_message c

  -- The handler of `WriteBody`
  unfoldable pub on_write_body : Bool → Connection T → Option (Connection T)
  unfolding finish_message
  on_write_body true c = some (close c)
  on_write_body false c = finish_message c

  -- The queue of incoming messages is the owner's, and is passed in and out.
  unfoldable pub add_to_incoming :
      Connection T → TsQueue (OwnedMessage T) → Connection T × TsQueue (OwnedMessage T)
  unfolding read_header
  add_to_incoming c q = (
    read_header c,
    TsQueue.push_back q (record { remote = remote_of c.owner_type c.self; msg = c.temporary_in }),
  )

  -- The handler of `ReadHeader`; asio has read `h` into the header of the message being built.
  unfoldable pub on_read_header :
      Bool
      → MessageHeader T
      → Connection T
      → TsQueue (OwnedMessage T)
      → Connection T × TsQueue (OwnedMessage T)
  unfolding read_body add_to_incoming
  on_read_header true h c q =
      (close (record c { temporary_in = record (c.temporary_in) { header = h } }), q)
  on_read_header false h c q =
      let c' = record c { temporary_in = record (c.temporary_in) { header = h } } in
      if ltb 0 h.size
      then (
        read_body (record c {
          temporary_in = record { header = h; body = resize c.temporary_in.body h.size };
        }),
        q,
      )
      else add_to_incoming c' q

  -- The handler of `ReadBody`; asio has read `bytes` over the body.
  unfoldable pub on_read_body :
      Bool
      → List ℕ
      → Connection T
      → TsQueue (OwnedMessage T)
      → Connection T × TsQueue (OwnedMessage T)
  unfolding add_to_incoming
  on_read_body true bytes c q =
      (close (record c { temporary_in = record (c.temporary_in) { body = bytes } }), q)
  on_read_body false bytes c q =
      add_to_incoming (record c { temporary_in = record (c.temporary_in) { body = bytes } }) q

  -- The handler of `WriteValidation`
  unfoldable pub on_write_validation : Bool → Connection T → Connection T
  unfolding read_header
  on_write_validation true c = close c
  on_write_validation false c = elim (c.owner_type) [ client ↦ read_header c | server ↦ c ]

  -- The handler of `ReadValidation`; asio has read `answer` into `m_nHandshakeIn`. `validated` is
  -- the server's `OnClientValidated`, which is handed this connection.
  unfoldable pub on_read_validation :
      (Connection T → Connection T) → Bool → ℕ → Connection T → Connection T
  unfolding read_header write_validation
  on_read_validation validated true answer c = close (record c { handshake_in = answer })
  on_read_validation validated false answer c =
      let c' = record c { handshake_in = answer } in
      elim (c.owner_type) [
        | server ↦ if answer == c.handshake_check then read_header (validated c') else close c'
        | client ↦ write_validation (record c' { handshake_out = scramble answer })
      ]

  unfoldable pub connect_to_client : ℕ → Connection T → Connection T
  unfolding write_validation read_validation
  connect_to_client uid c = elim (c.owner_type) [
    | server ↦
        if c.socket_open then read_validation (write_validation (record c { id = uid })) else c
    | client ↦ c
  ]

  unfoldable pub connect_to_server : Connection T → Connection T
  connect_to_server c = elim (c.owner_type) [ client ↦ start_read connecting c | server ↦ c ]

  -- The handler of `async_connect`
  unfoldable pub on_connect : Bool → Connection T → Connection T
  unfolding read_validation
  on_connect true c = c
  on_connect false c = read_validation (record c { connection_flag = true })
