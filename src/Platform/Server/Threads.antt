-- ===== src/Platform/Server/Threads.antt =====
-- `SeckeyAgree` on the threads of `thread_pool_`: between two accesses to the world another thread
-- may run. A thread stands at the access that it does next. `SeckeyAgree` is here from the point
-- where the message is parsed, since the parse uses nothing that threads share.
pub mod Isolation
pub mod Posting
pub mod Progress
pub mod Races
use security_transmission_pl.Base.{ℕ, Bool, false, List, [], ◌∷◌, not, if◌then◌else◌}
use security_transmission_pl.Base.Result.{Result, ok, throws, undefined}
use security_transmission_pl.Proto.Msg.{RequestInfo}
use security_transmission_pl.Net.ServerInterface.{assign}
use security_transmission_pl.Platform.World.{Env, World, exists, write_file, remove, make_logger}
use security_transmission_pl.Platform.Server.{
  reply, check_sign, hash_of, logger_name, pubkey_file_name,
}

-- The next access: `exists`, the logger for a taken name, the write of the file, the check of the
-- signature, the logger for a wrong one, `remove`, and the answer.
pub data Pc : Type 0 where
  at_exists at_taken at_write at_check at_refuse at_remove at_reply : Pc
  finished : Result Bool → Pc

-- After an access, the thread goes on or ends with what was thrown.
abbrev pub goes_on : {L A : Type 0} → Result A × World L → (A → Pc) → Pc × World L
goes_on (ok a, w) f = (f a, w)
goes_on (throws x, w) f = (finished (throws x), w)
goes_on (undefined, w) f = (finished undefined, w)

-- A request that is handled, with the handle of its client.
pub record Job : Type 0 where
  pub client : ℕ
  pub info : RequestInfo

module _ {Key L : Type 0} (e : Env Key L) (server_id : List ℕ) where
  abbrev pub path_of : Job → List ℕ
  path_of j = pubkey_file_name j.info.client_id

  unfoldable pub step : Job → Pc → World L → Pc × World L
  step j at_exists w =
      goes_on (exists (path_of j) w) (λ there. if there then at_taken else at_write)
  step j at_taken w = goes_on (make_logger e logger_name w) (λ _. finished (ok false))
  step j at_write w = goes_on (write_file e (path_of j) j.info.content w) (λ _. at_check)
  step j at_check w =
      goes_on
        (check_sign e server_id (path_of j) (hash_of e server_id j.info.content) j.info.sign w)
        (λ valid. if not valid then at_refuse else at_reply)
  step j at_refuse w = goes_on (make_logger e logger_name w) (λ _. at_remove)
  step j at_remove w = goes_on (remove (path_of j) w) (λ _. finished (ok false))
  step j at_reply w =
      goes_on (reply e server_id j.client j.info (path_of j) w) (λ sent. finished (ok sent))
  step j (finished r) w = (finished r, w)

  -- The threads by number, and the world that they share.
  pub record System : Type 0 where
    pub pc : ℕ → Pc
    pub world : World L

  -- Thread `i` does its next access.
  unfoldable pub turn : (ℕ → Job) → ℕ → System → System
  unfolding step
  turn jobs i s =
      let (pc', world') = step (jobs i) (s.pc i) s.world in
      record { pc = assign s.pc i pc'; world = world' }

  -- The threads in the order of a schedule.
  unfoldable pub run : (ℕ → Job) → List ℕ → System → System
  unfolding turn
  run jobs [] s = s
  run jobs (i ∷ is) s = run jobs is (turn jobs i s)

  abbrev pub started : World L → System
  started w = record { pc = λ i. at_exists; world = w }
