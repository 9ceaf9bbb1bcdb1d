-- ===== src/Net/ClientInterface.antt =====
-- `ClientInterface` of include/net/net_client_server.hpp: a connection of its own, and the thread
-- that runs the io service.
pub mod Lifetime
use security_transmission_pl.Base.{
  ℕ, Bool, true, false, not, ◌&&◌, Option, none, some, if◌then◌else◌,
}
use security_transmission_pl.Net.Message.{Message, OwnedMessage}
use security_transmission_pl.Net.TsQueue
use security_transmission_pl.Net.TsQueue.{TsQueue}
use security_transmission_pl.Net.Connection
use security_transmission_pl.Net.Connection.{Connection, Owner, client, connect_to_server}

pub record ClientInterface (T : Type 0) : Type 0 where
  -- Whether `stop` was called on the io service: asio then lets `run` return at once, until it is
  -- restarted.
  pub stopped : Bool
  -- The thread that was started and can be joined.
  pub running : Bool
  pub connection : Option (Connection T)
  pub messages_in : TsQueue (OwnedMessage T)

module _ {T : Type 0} where
  unfoldable pub new_client : ClientInterface T
  new_client = record {
    stopped = false;
    running = false;
    connection = none;
    messages_in = TsQueue.new;
  }

  -- `Connect`: `resolved` says whether the resolver found the host, and threw otherwise; `opened`
  -- whether asio has opened the socket when `async_connect` returns. The Boolean is the result. The
  -- thread of an earlier `Connect` is joined where the new one is assigned; this is the state after.
  unfoldable pub connect :
      Bool → Bool → ℕ → Message T → ClientInterface T → ClientInterface T × Bool
  connect false opened self blank c = (c, false)
  connect true opened self blank c =
      let fresh = connect_to_server (Connection.new self client 0 false blank) in
      (record c { connection = some (record fresh { socket_open = opened }); running = true }, true)

  unfoldable pub is_open : ClientInterface T → Bool
  is_open c = elim (c.connection) [ none ↦ false | some conn ↦ Connection.is_open conn ]

  unfoldable pub is_connect : ClientInterface T → Bool
  is_connect c = elim (c.connection) [ none ↦ false | some conn ↦ Connection.is_connect conn ]

  -- The end of `Disconnect`, from the stop of the io service on.
  abbrev released : ClientInterface T → ClientInterface T
  released c = record c { stopped = true; running = false; connection = none }

  -- `Disconnect`: the close that is posted to the connection goes with it, so the last state of the
  -- connection is the second result.
  unfoldable pub disconnect : ClientInterface T → ClientInterface T × Option (Connection T)
  unfolding is_open
  disconnect c =
      let closing : Option (Connection T) = elim (c.connection) [
        | none ↦ none
        | some conn ↦ some (if Connection.is_open conn then Connection.disconnect conn else conn)
      ] in
      (released c, closing)

  unfoldable pub send : Message T → ClientInterface T → ClientInterface T
  unfolding is_open
  send msg c = elim (c.connection) [
    | none ↦ c
    | some conn ↦
        if Connection.is_open conn
        then record c { connection = some (Connection.send msg conn) }
        else c
  ]

  unfoldable pub incoming : ClientInterface T → TsQueue (OwnedMessage T)
  incoming c = c.messages_in

  -- `~ClientInterface`
  unfoldable pub destroy_client : ClientInterface T → ClientInterface T
  unfolding disconnect
  destroy_client c = (disconnect c).0

  -- Whether the thread runs handlers.
  abbrev pub serves : ClientInterface T → Bool
  serves c = c.running && not c.stopped
