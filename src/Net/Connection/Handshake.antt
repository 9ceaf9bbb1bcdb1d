-- ===== src/Net/Connection/Handshake.antt =====
-- The handshake: the server sends a puzzle, the client answers, the server compares.
use security_transmission_pl.Base.{ℕ, ◌%◌, ◌^◌, ◌≡◌, ◌≢◌, ◌↔◌, true, false, [], ◌∷◌, arith, u64}
use security_transmission_pl.Net.Message.{Message}
use security_transmission_pl.Net.Scramble.{scramble}
use security_transmission_pl.Net.Scramble.Laws.{scramble-eq_iff}
use security_transmission_pl.Net.Connection.{
  Connection, server, client, writing_validation, reading_header, new, on_read_validation,
  on_write_validation, connect_to_client, connect_to_server, on_connect,
}

module _ {T : Type 0} where
  -- The oldest read, or write, has been completed: its handler runs on what is left.
  abbrev pub read_done : Connection T → Connection T
  read_done c = record c { reading = elim (c.reading) [ [] ↦ [] | _ ∷ rest ↦ rest ] }

  abbrev pub write_done : Connection T → Connection T
  write_done c = record c { writing = elim (c.writing) [ [] ↦ [] | _ ∷ rest ↦ rest ] }

  -- The server's end after the accepted socket was handed to it.
  abbrev pub greeting : ℕ → ℕ → ℕ → Message T → Connection T
  greeting self now uid blank = connect_to_client uid (new self server now true blank)

  -- The server's end once an answer has been read.
  abbrev pub answered : ℕ → ℕ → ℕ → ℕ → Message T → Connection T
  answered self now uid answer blank =
      on_read_validation (λ c. c) false answer (read_done (greeting self now uid blank))

  -- A client's end that has connected and has read the puzzle.
  abbrev pub answering : ℕ → ℕ → Message T → Connection T
  answering self puzzle blank =
      on_read_validation (λ c. c) false puzzle
        (read_done
          (on_connect false (read_done (connect_to_server (new self client 0 true blank)))))

  -- An answer is taken up, by the start of a read, exactly when it is the puzzle scrambled;
  -- otherwise the socket is closed and no read is started.
  pub answer_accepted_iff :
      (self now uid answer : ℕ) (blank : Message T)
      → let c = answered self now uid answer blank in
        ((c.socket_open ≡ true) ↔ (answer ≡ scramble (u64 now)))
        × ((c.reading ≡ reading_header ∷ []) ↔ (answer ≡ scramble (u64 now)))
        × ((c.reading ≡ []) ↔ (answer ≢ scramble (u64 now)))
  unfolding new connect_to_client on_read_validation
  answer_accepted_iff self now uid answer blank = ground arith

  -- A client of this code always gets through. It writes its answer to the puzzle that the server
  -- wrote and nothing else, and then waits for a message; the server, which has read that answer,
  -- keeps the socket open, has the id that it was given, and waits for a message too.
  pub handshake_succeeds :
      (self peer now uid : ℕ) (blank : Message T)
      → let puzzle = (greeting self now uid blank).handshake_out in
        let c = answering peer puzzle blank in
        let s = answered self now uid c.handshake_out blank in
        (c.writing ≡ writing_validation ∷ [])
        × ((on_write_validation false (write_done c)).reading ≡ reading_header ∷ [])
        × (s.socket_open ≡ true)
        × (s.reading ≡ reading_header ∷ [])
        × (s.id ≡ uid)
  unfolding new connect_to_client connect_to_server on_connect on_read_validation
      on_write_validation
  handshake_succeeds self peer now uid blank = ground arith

  -- An answer to another puzzle is taken exactly when the puzzles agree on their low 56 bits: the
  -- top byte of the clock plays no part.
  pub foreign_answer_iff :
      (self now other uid : ℕ) (blank : Message T)
      → ((answered self now uid (scramble other) blank).socket_open ≡ true)
        ↔ (other % 2 ^ 56 ≡ now % 2 ^ 56)
  unfolding new connect_to_client on_read_validation
  foreign_answer_iff self now other uid blank = ground (arith, scramble-eq_iff other (u64 now))
