-- ===== src/Net/ClientInterface/Lifetime.antt =====
-- What a client is after `Connect`, `Disconnect`, and both.
use security_transmission_pl.Base.{
  ℕ, ◌≡◌, refl, Bool, true, false, Option, none, some, List, [], ◌∷◌, ◌++◌, arith,
}
use security_transmission_pl.Net.Message.{Message}
use security_transmission_pl.Net.Connection
use security_transmission_pl.Net.Connection.{Connection, Posted, posted_send, connecting}
use security_transmission_pl.Net.ClientInterface.{
  ClientInterface, connect, is_open, is_connect, disconnect, send, serves, new_client,
}

module _ {T : Type 0} where
  -- After `Disconnect` a client is neither open nor connected, its thread has ended, and a message
  -- that is sent goes nowhere.
  pub disconnect_lem :
      (c : ClientInterface T) (msg : Message T)
      → let d = (disconnect c).0 in
        (is_open d ≡ false) × (is_connect d ≡ false) × (serves d ≡ false) × (send msg d ≡ d)
  unfolding disconnect is_open is_connect send
  disconnect_lem c msg = (refl, refl, refl, refl)

  -- A new client that connects can send: the messages are posted in the order of the calls, behind
  -- the start of the connection, and its thread runs their handlers.
  pub connect-send :
      (self : ℕ) (blank first second : Message T)
      → let (c, done) = connect true true self blank new_client in
        (done ≡ true)
        × (serves c ≡ true)
        × ((conn : Connection T) × ((send second (send first c)).connection ≡ some conn)
            × (conn.posted ≡ posted_send first ∷ posted_send second ∷ [])
            × (conn.reading ≡ connecting ∷ []))
  unfolding connect new_client send Connection.send Connection.is_open Connection.new
      Connection.connect_to_server
  connect-send self blank first second = (refl, refl, (_, refl, refl, refl))

  -- A client that was disconnected and connects again is told that it has: there is a connection
  -- that waits for its first handler, but no handler runs, since the io service was stopped and
  -- nothing restarts it.
  pub reconnect_dead :
      (c : ClientInterface T) (opened : Bool) (self : ℕ) (blank : Message T)
      → let (again, done) = connect true opened self blank (disconnect c).0 in
        (done ≡ true)
        × (serves again ≡ false)
        × ((conn : Connection T) × (again.connection ≡ some conn)
            × (conn.reading ≡ connecting ∷ []))
  unfolding connect disconnect Connection.new Connection.connect_to_server
  reconnect_dead c opened self blank = (refl, refl, (_, refl, refl))

-- The calls of the program's interface that change a client.
pub data Call (T : Type 0) : Type 0 where
  connects : Bool → Bool → ℕ → Message T → Call T
  disconnects : Call T
  sends : Message T → Call T

module _ {T : Type 0} where
  abbrev pub call : Call T → ClientInterface T → ClientInterface T
  call (connects resolved opened self blank) c = (connect resolved opened self blank c).0
  call disconnects c = (disconnect c).0
  call (sends msg) c = send msg c

  abbrev pub calls : List (Call T) → ClientInterface T → ClientInterface T
  calls [] c = c
  calls (a ∷ xs) c = calls xs (call a c)

  -- Whether there is a connection.
  abbrev pub has : Option (Connection T) → Bool
  has none = false
  has (some conn) = true

  send-running :
      (msg : Message T) (c : ClientInterface T)
      → ((send msg c).running ≡ c.running)
        × ((send msg c).stopped ≡ c.stopped)
        × (has (send msg c).connection ≡ has c.connection)
  unfolding send
  send-running msg c = ground arith

  call-owns :
      (a : Call T) (c : ClientInterface T)
      → c.running ≡ has c.connection
      → (call a c).running ≡ has (call a c).connection
  unfolding connect disconnect
  call-owns (connects true opened self blank) c h = refl
  call-owns (connects false opened self blank) c h = h
  call-owns disconnects c h = refl
  call-owns (sends msg) c h = ground (arith, send-running msg c)

  calls-owns :
      (xs : List (Call T)) (c : ClientInterface T)
      → c.running ≡ has c.connection
      → (calls xs c).running ≡ has (calls xs c).connection
  calls-owns [] c h = h
  calls-owns (a ∷ xs) c h = calls-owns xs (call a c) (call-owns a c h)

  -- After any calls on a new client, its thread has been started exactly when it has a connection.
  pub calls-running :
      (xs : List (Call T)) → let c = calls xs new_client in c.running ≡ has c.connection
  unfolding new_client
  calls-running xs = calls-owns xs new_client refl

  call-stopped : (a : Call T) (c : ClientInterface T) → c.stopped ≡ true → (call a c).stopped ≡ true
  unfolding connect disconnect
  call-stopped (connects true opened self blank) c h = h
  call-stopped (connects false opened self blank) c h = h
  call-stopped disconnects c h = refl
  call-stopped (sends msg) c h = ground (arith, send-running msg c)

  calls-stopped :
      (xs : List (Call T)) (c : ClientInterface T) → c.stopped ≡ true → (calls xs c).stopped ≡ true
  calls-stopped [] c h = h
  calls-stopped (a ∷ xs) c h = calls-stopped xs (call a c) (call-stopped a c h)

  calls-append :
      (xs ys : List (Call T)) (c : ClientInterface T) → calls (xs ++ ys) c ≡ calls ys (calls xs c)
  calls-append [] ys c = refl
  calls-append (a ∷ xs) ys c = calls-append xs ys (call a c)

  -- Once `Disconnect` was called, no handler runs any more, whatever is called afterwards: a later
  -- `Connect` starts a thread whose `run` returns at once.
  pub calls-serves :
      (xs ys : List (Call T)) (c : ClientInterface T)
      → serves (calls (xs ++ disconnects ∷ ys) c) ≡ false
  unfolding disconnect
  calls-serves xs ys c =
      let d = (disconnect (calls xs c)).0 in
      rw (calls-append xs (disconnects ∷ ys) c) (ground (arith, calls-stopped ys d refl))
