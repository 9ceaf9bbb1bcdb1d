-- ===== src/Tests/Tasks.antt =====
-- The theorems on tasks that are worked on one after another, each on one input.
use security_transmission_pl.Base.{
  ℕ, ◌≡◌, ◌≢◌, refl, ◌⊎◌, Bool, true, false, none, some, List, [], ◌∷◌, arith,
}
use security_transmission_pl.Base.Result.{ok, throws, spdlog_ex, logic_error}
use security_transmission_pl.Net.Message.{Message, with_id}
use security_transmission_pl.Net.ServerInterface.{send_to}
use security_transmission_pl.Proto.Msg.{NetMsgType, request_for_decode, decode_request}
use security_transmission_pl.Platform.World.{Env, World}
use security_transmission_pl.Platform.Server.{pubkey_file_name}
use security_transmission_pl.Proto.Wire.{parse_loop}
use security_transmission_pl.Proto.Wire.Request
use security_transmission_pl.Platform.Server.Agreement.{with_key, agree}
use security_transmission_pl.Platform.Server.Tasks.{work_all, work_all_ends, work_all_malformed}
use security_transmission_pl.Platform.Server.Tasks.Keys.{IsSigned, work_all-keys}
use security_transmission_pl.Tests.Peers.{peer}
use security_transmission_pl.Tests.Server.{env, world, info_of, request_msg}

-- Every client has a key on disk.
abbrev full_world : World Bool
full_world = record { files = λ path. some (1 ∷ []); loggers = false; heap = λ h. peer }

-- Two clients send a request in the name of client "A", the second with a wrong signature.
abbrev two_tasks : List (ℕ × Message NetMsgType)
two_tasks = (1, request_msg 9) ∷ (2, request_msg 8) ∷ []

work_all_ends_example : work_all env [] two_tasks full_world ≡ (
  throws spdlog_ex,
  record full_world {
    loggers = true;
    heap = send_to (some 1) (with_id NetMsgType.failed) full_world.heap;
  },
)
work_all_ends_example =
    work_all_ends env [] 1 2 (request_msg 9) (request_msg 8) (1 ∷ []) (1 ∷ []) [] full_world true
      (omega arith, refl, refl) (omega arith, refl, refl) refl refl

work_all-keys_example :
    let out = work_all env [] two_tasks world in
    let path = pubkey_file_name (65 ∷ []) in
    (out.1.files path ≡ world.files path)
    ⊎ ((world.files path ≡ none)
        × ((out.0 ≢ ok tt) ⊎ IsSigned env [] two_tasks path (out.1.files path)))
work_all-keys_example =
    work_all-keys env [] two_tasks world (pubkey_file_name (65 ∷ []))
      (omega arith, (omega arith, tt))

-- OpenSSL with a filter that cannot read.
abbrev deaf_env : Env ℕ Bool
deaf_env = record env {
  ssl = record (env.ssl) { filter = record (env.ssl.filter) { base64_read = λ text n. none } };
}

work_all_malformed_example :
    let path = pubkey_file_name (65 ∷ []) in
    let w' = with_key deaf_env [] 1 (info_of 9) path world in
    (work_all deaf_env [] two_tasks world ≡ (throws logic_error, w'))
    × (w'.files path ≡ some (9 ∷ []))
    × (w'.heap ≡ world.heap)
    × ((agree deaf_env [] 1 (info_of 8) w').0 ≢ ok true)
unfolding decode_request request_for_decode Request.parse Request.round parse_loop
work_all_malformed_example =
    work_all_malformed deaf_env [] 1 (request_msg 9) ((2, request_msg 8) ∷ []) (info_of 8) world
      (omega arith) refl refl refl refl refl
