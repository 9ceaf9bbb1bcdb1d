-- ===== src/Tests/Races.antt =====
-- Requests on several threads.
use security_transmission_pl.Base.{
  ℕ, ◌+◌, ◌≡◌, ◌≢◌, refl, ap, true, false, none, some, [], ◌∷◌, length, reverse, get_elem?, arith,
  ◌==◌, if◌then◌else◌,
}
use security_transmission_pl.Base.Result.{ok}
use security_transmission_pl.Base.Bytes.{same_bytes}
use security_transmission_pl.Net.Message.{Message, push, with_id}
use security_transmission_pl.Proto.Wire.Respond
use security_transmission_pl.Proto.Msg.{
  NetMsgType, create_respond, respond_factory_of_info, encode_respond, respond_for_encode,
}
use security_transmission_pl.Crypto.Base64
use security_transmission_pl.Crypto.Rsa
use security_transmission_pl.Platform.AesKey.{get_aes_rand_str}
use security_transmission_pl.Platform.Body.{fill}
use security_transmission_pl.Platform.World.{exists, is_there, write_file, read_file, send}
use security_transmission_pl.Platform.Server.{respond_msg, pubkey_file_name, check_sign, reply}
use security_transmission_pl.Platform.Server.Agreement.{signed}
use security_transmission_pl.Platform.Server.Answer.{answer_bytes}
use security_transmission_pl.Platform.Server.Threads.{
  Job, finished, path_of, run, started, turn, step,
}
use security_transmission_pl.Platform.Server.Threads.Isolation.{isolated}
use security_transmission_pl.Platform.Server.Threads.Posting.{IsPosted}
use security_transmission_pl.Platform.Server.Threads.Progress.{IsGood, run-succeeds}
use security_transmission_pl.Platform.Server.Threads.Races.{CanRace, accepted_key_lost}
use security_transmission_pl.Tests.Server.{env, world, info_of, cipher, good_signed, good_encrypted}

-- A good request, and one for the same client with a wrong signature.
abbrev robbed : ℕ → Job
robbed i = record { client = 1; info = info_of (if i == 0 then 9 else 8) }

wrong_signed : signed env [] 1 (info_of 8) ≡ ok false
unfolding Base64.from_base64 Rsa.verify Rsa.verify_impl Rsa.of_public_file Rsa.init_pub same_bytes
wrong_signed = refl

abbrev answer_msg : Message NetMsgType
answer_msg = record {
  header = record {
    id = NetMsgType.seckey_agree;
    size = length (answer_bytes env [] 1 (info_of 9) cipher);
  };
  body = reverse (answer_bytes env [] 1 (info_of 9) cipher);
}

responded : respond_msg env [] (info_of 9) cipher ≡ ok answer_msg
unfolding respond_msg create_respond respond_factory_of_info respond_for_encode encode_respond
    with_id fill push Respond.serialize
responded = refl

robbed-CanRace : CanRace env [] robbed world cipher answer_msg
robbed-CanRace = record {
  free = refl;
  same = refl;
  can = refl;
  good = good_signed;
  key_works = good_encrypted;
  responds = responded;
}

accepted_key_lost_example :
    let t = run env [] robbed (0 ∷ 1 ∷ 0 ∷ 0 ∷ 0 ∷ 1 ∷ 1 ∷ 1 ∷ 1 ∷ []) (started env [] world) in
    (t.pc 0 ≡ finished (ok true))
    × (t.pc 1 ≡ finished (ok false))
    × (t.world.files (pubkey_file_name (65 ∷ [])) ≡ none)
accepted_key_lost_example =
    accepted_key_lost env [] robbed world cipher answer_msg true robbed-CanRace wrong_signed refl

-- A client for every thread.
abbrev apart : ℕ → Job
apart i = record {
  client = i;
  info = record {
    info = record { client_id = (65 + i) ∷ []; server_id = []; content = 9 ∷ [] };
    sign = 9 ∷ [];
  };
}

apart_paths : (k : ℕ) → k ≢ 0 → path_of env [] (apart 0) ≢ path_of env [] (apart k)
unfolding pubkey_file_name
apart_paths k other e = other (ground (arith, ap (λ p. get_elem? p 7) e))

first_ends :
    (run env [] apart (0 ∷ 1 ∷ 0 ∷ 0 ∷ 0 ∷ 0 ∷ []) (started env [] world)).pc 0 ≡ finished (ok true)
unfolding run turn step exists is_there write_file check_sign read_file reply send Rsa.verify
    Rsa.verify_impl Rsa.of_public_file Rsa.init_pub Rsa.encrypt_pub_key Base64.from_base64
    Base64.to_base64 same_bytes get_aes_rand_str respond_msg create_respond respond_factory_of_info
    respond_for_encode encode_respond with_id fill push Respond.serialize pubkey_file_name
first_ends = refl

isolated_example :
    (world.files (path_of env [] (apart 0)) ≡ none)
    × (signed env [] 0 (apart 0).info ≡ ok true)
    × ((run env [] apart (0 ∷ 1 ∷ 0 ∷ 0 ∷ 0 ∷ 0 ∷ []) (started env [] world)).world.files
          (path_of env [] (apart 0))
        ≡ some (9 ∷ []))
isolated_example =
    isolated env [] apart 0 (0 ∷ 1 ∷ 0 ∷ 0 ∷ 0 ∷ 0 ∷ []) world refl apart_paths first_ends

apart-IsGood : IsGood env [] (apart 0) answer_msg world
apart-IsGood = record {
  cipher = cipher;
  free = refl;
  can = refl;
  good = good_signed;
  key_works = good_encrypted;
  responds = responded;
}

run-succeeds_example :
    let t = run env [] apart (0 ∷ 1 ∷ 0 ∷ 2 ∷ 1 ∷ 0 ∷ 0 ∷ []) (started env [] world) in
    (t.pc 0 ≡ finished (ok true))
    × (t.world.files (path_of env [] (apart 0)) ≡ some (9 ∷ []))
    × IsPosted answer_msg (t.world.heap 0).posted
run-succeeds_example =
    run-succeeds env [] apart 0 (0 ∷ 1 ∷ 0 ∷ 2 ∷ 1 ∷ 0 ∷ 0 ∷ []) world answer_msg apart-IsGood
      apart_paths (omega arith)
