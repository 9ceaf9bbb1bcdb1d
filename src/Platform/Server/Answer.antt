-- ===== src/Platform/Server/Answer.antt =====
-- The answer of `SeckeyAgree` to a client that is let in.
use security_transmission_pl.Base.{
  ℕ, ◌^◌, ◌<◌, ◌≡◌, refl, ap, ◌∙◌, true, some, List, [], length, reverse, arith, u32,
}
use security_transmission_pl.Base.Result.{Result, ok}
use security_transmission_pl.Net.Message.{Message, with_id, size}
use security_transmission_pl.Proto.Runtime.{IsWireFormat}
use security_transmission_pl.Proto.Wire.Respond
use security_transmission_pl.Proto.Msg.{
  NetMsgType, RequestInfo, RespondInfo, respond_for_decode, respond_for_encode, decode_respond,
  encode_respond, create_respond, respond_factory_of_info,
}
use security_transmission_pl.Crypto.Rsa
use security_transmission_pl.Platform.AesKey.{len16, get_aes_rand_str}
use security_transmission_pl.Platform.Body.{fill, drain, drain-fill, fill_lem}
use security_transmission_pl.Platform.World.{Env}
use security_transmission_pl.Platform.Server.{respond_msg, defined}

module _ {Key L : Type 0} (e : Env Key L) (server_id : List ℕ) (client : ℕ) where
  -- The key that the server draws, encrypted under the key in a request.
  abbrev pub encrypted : RequestInfo → Result (List ℕ)
  encrypted info =
      Rsa.encrypt_pub_key e.ssl (Rsa.of_public_file e.ssl (some info.content))
        (get_aes_rand_str e.rand e.draw len16) true

  -- The response with a ciphertext.
  abbrev pub answer : RequestInfo → List ℕ → RespondInfo
  answer info cipher = record {
    info = record { client_id = info.client_id; server_id = server_id; content = cipher };
    seckey_id = 12;
  }

  abbrev pub answer_bytes : RequestInfo → List ℕ → List ℕ
  answer_bytes info cipher = Respond.serialize e.runtime (record {
    seckey_id = 12;
    client_id = info.client_id;
    server_id = server_id;
    content = cipher;
    unknown = [];
  })

  -- The message with an answer that can be serialized: the bytes of the answer back to front,
  -- with their number in the header.
  pub respond_msg_lem :
      (info : RequestInfo) (cipher : List ℕ)
      → IsWireFormat e.runtime
      → length (answer_bytes info cipher) < 2 ^ 31
      → (msg : Message NetMsgType) × (m'' : Message NetMsgType) × (respond_msg e server_id info
            cipher
          ≡ ok msg)
        × (drain (size msg) msg [] ≡ some (answer_bytes info cipher, m''))
        × (msg.header.id ≡ NetMsgType.seckey_agree)
        × (msg.body ≡ reverse (answer_bytes info cipher))
        × (msg.header.size ≡ u32 (length msg.body))
  unfolding respond_msg create_respond respond_factory_of_info respond_for_encode encode_respond
      with_id
  respond_msg_lem info cipher wire h =
      let (m', m'', f, d, id, _) =
        drain-fill (answer_bytes info cipher) (with_id NetMsgType.seckey_agree) (omega (arith, h))
          refl refl in
      let str = wire.string_fits (answer_bytes info cipher) h in
      let filled =
        λ (str : List ℕ). defined (fill (length str) str (with_id NetMsgType.seckey_agree)) in
      let (b, _, sized) = fill_lem (answer_bytes info cipher) _ m' refl refl f in
      (m', m'', ap filled str ∙ ap defined f, d, id, b, sized)

  -- What a peer makes of these bytes.
  pub decode_answer :
      (info : RequestInfo) (cipher : List ℕ)
      → IsWireFormat e.runtime
      → (length info.client_id < 2 ^ 31) × (length server_id < 2 ^ 31) × (length cipher < 2 ^ 31)
      → decode_respond e.runtime (respond_for_decode (answer_bytes info cipher))
        ≡ answer info cipher
  unfolding decode_respond respond_for_decode
  decode_answer info cipher wire (c, s, d) =
      let m : Respond.RespondMsg = record {
        seckey_id = 12;
        client_id = info.client_id;
        server_id = server_id;
        content = cipher;
        unknown = [];
      } in
      rw (Respond.parse-serialize_respond e.runtime wire m (omega arith, c, s, d, refl)) refl
