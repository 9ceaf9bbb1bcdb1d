-- ===== src/Tests/Client.antt =====
-- A client that disconnects and connects again.
use security_transmission_pl.Base.{◌≡◌, true, false, List, [], ◌∷◌, ◌++◌}
use security_transmission_pl.Net.ClientInterface.{new_client, serves}
use security_transmission_pl.Net.ClientInterface.Lifetime.{Call, calls, calls-serves}
use security_transmission_pl.Proto.Msg.{NetMsgType}
use security_transmission_pl.Tests.Peers.{empty_msg}

abbrev connecting : List (Call NetMsgType)
connecting = Call.connects true true 1 empty_msg ∷ []

calls-serves_example :
    serves (calls (connecting ++ Call.disconnects ∷ connecting) new_client) ≡ false
calls-serves_example = calls-serves connecting connecting new_client
