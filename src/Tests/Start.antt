-- ===== src/Tests/Start.antt =====
-- The set-up of the program on an empty disk, and its loop while a message arrives.
use security_transmission_pl.Base.{
  ℕ, ◌+◌, ◌*◌, ◌≤◌, ◌≡◌, refl, Bool, true, false, Option, none, some, List, [], ◌∷◌, arith,
}
use security_transmission_pl.Base.Result.{ok}
use security_transmission_pl.Net.Message.{Message, OwnedMessage}
use security_transmission_pl.Net.TsQueue.{TsQueue, push_back}
use security_transmission_pl.Net.ServerInterface.Updating.{handle_all}
use security_transmission_pl.Net.ServerInterface.Interleaving.{
  System, handling, advance, Reach, here, next, turns, arrives, start, IsOrdered, Reach-IsOrdered,
}
use security_transmission_pl.Net.ServerInterface.Interleaving.Draining.{turns_of, Reach-empties}
use security_transmission_pl.Proto.Msg.{NetMsgType}
use security_transmission_pl.Net.ServerInterface.{ServerInterface}
use security_transmission_pl.Platform.Json.{Json}
use security_transmission_pl.Platform.Main.{Disk, Os, Outcome, main, read_settings, key_folder}
use security_transmission_pl.Platform.Main.Setup.{inside, KeysMade, main_starts}
use security_transmission_pl.Tests.Peers.{hello, peer}
use security_transmission_pl.Tests.Crypto.{toy_ssl}

abbrev pem : Option ℕ → List ℕ
pem none = []
pem (some k) = k ∷ []

abbrev os : Os ℕ
os = record {
  can_create = λ path. true;
  can_write = λ path. true;
  ssl = toy_ssl;
  public_key = 5;
  private_key = 6;
  pem_public = pem;
  pem_private = pem;
}

-- Settings with the name "A" and a port that does not fit 16 bits.
abbrev json : Json Bool
json = record {
  parse_file = λ path. ok true;
  as_string = λ root key. ok (65 ∷ []);
  as_uint = λ root key. ok 70000;
}

settings_read : read_settings json ≡ ok (65 ∷ [], 4464)
unfolding read_settings
settings_read = refl

main_starts_example :
    (server : ServerInterface NetMsgType) × (d : Disk) × (main json os
        (λ h. peer)
        true
        false
        (record { files = λ path. none; directories = λ path. false; folder = [] })
      ≡ Outcome.loops (65 ∷ []) 4464 server d)
    × (server.accepting ≡ 1)
    × (d.folder ≡ inside [])
    × (d.directories (inside key_folder) ≡ true)
    × KeysMade os (λ path. none) (λ path. false) d.files
main_starts_example =
    main_starts os json (λ h. peer) (65 ∷ []) 4464 (λ path. none) (λ path. false) settings_read refl
      refl refl refl refl refl

abbrev count : Option ℕ → Message NetMsgType → ℕ → ℕ
count client msg n = n + 1

abbrev from_one : OwnedMessage NetMsgType
from_one = record { remote = some 1; msg = hello }

abbrev from_two : OwnedMessage NetMsgType
from_two = record { remote = some 2; msg = hello }

-- One message was in the queue, and another arrives between the test and `pop_front`.
abbrev first_queue : TsQueue (OwnedMessage NetMsgType)
first_queue = record { deq_queue = from_one ∷ [] }

abbrev between : System NetMsgType ℕ
between = record {
  queue = record { deq_queue = from_two ∷ [] };
  updater = handling 0 from_one;
  state = 0;
  arrived = from_one ∷ from_two ∷ [];
  handled = [];
}

run_between : Reach count 1 (start count 1 first_queue 0) between
unfolding advance push_back
run_between =
    next (next (next (next here (turns refl)) (turns refl)) (arrives from_two refl)) (turns refl)

Reach-IsOrdered_example :
    IsOrdered count 1 0 between × ((t : System NetMsgType ℕ) × (advance count 1 between ≡ some t))
Reach-IsOrdered_example = Reach-IsOrdered count 1 first_queue 0 between run_between

Reach-empties_example :
    (n : ℕ) × (t : System NetMsgType ℕ) × (n ≤ 5 * 1 + 2)
    × (turns_of count 1 n between ≡ some t)
    × (t.queue.deq_queue ≡ [])
    × (t.handled ≡ from_one ∷ from_two ∷ [])
    × (t.state ≡ handle_all count (from_one ∷ from_two ∷ []) 0)
Reach-empties_example = Reach-empties count 1 first_queue 0 between run_between (omega arith)
