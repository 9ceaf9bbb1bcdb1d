-- ===== src/Platform/Server/EndToEnd/Received.antt =====
-- What a client that holds its private key makes of the answer.
use security_transmission_pl.Base.{
  ℕ, ◌^◌, ◌<◌, ◌-◌, ◌≡◌, ap, ◌∙◌, true, false, none, some, List, [], ◌∷◌, ◌++◌, length, replicate,
  arith, map,
}
use security_transmission_pl.Base.Result.{ok}
use security_transmission_pl.Net.Message.{Message, OwnedMessage, size}
use security_transmission_pl.Net.TsQueue.{TsQueue}
use security_transmission_pl.Net.Connection.{Connection, posted_send, client, reading_header}
use security_transmission_pl.Net.Connection.Writing.{System, Reach, IsFresh}
use security_transmission_pl.Net.Connection.Reading.{read_frames}
use security_transmission_pl.Proto.Msg.{NetMsgType, RequestInfo, respond_for_decode, decode_respond}
use security_transmission_pl.Crypto.Rsa.{MyRsa, reads, of_public_file, init_pub, decrypt_pri_key}
use security_transmission_pl.Crypto.Rsa.Laws.{IsKeyPair, decrypt-encrypt_other}
use security_transmission_pl.Platform.AesKey.{len16, get_aes_rand_str}
use security_transmission_pl.Platform.Body.{drain}
use security_transmission_pl.Platform.World.{Env, World}
use security_transmission_pl.Platform.Server.Answer.{encrypted, answer_bytes, decode_answer}
use security_transmission_pl.Platform.Server.EndToEnd.{IsAcceptable}

module _ {Key L : Type 0} (e : Env Key L) (server_id : List ℕ) where
  -- The key that the server draws.
  abbrev pub drawn_key : List ℕ
  drawn_key = get_aes_rand_str e.rand e.draw len16

  -- A client with a key pair, whose public half OpenSSL reads from the data of its request, and
  -- what OpenSSL puts out for the drawn key under it.
  pub record IsHolder (info : RequestInfo) (holder : MyRsa Key) (public private : Key)
      (out : List ℕ) : Type 0 where
    pub pair : IsKeyPair e.ssl public private
    pub sent_public : e.ssl.read_public_key (some info.content) ≡ reads public
    pub has_private : holder.pri_key ≡ some private
    pub whole : holder.only_pubkey ≡ false
    pub out_of_key : e.ssl.public_encrypt public drawn_key ≡ some out
    pub text_fits : length (e.ssl.filter.base64_write out) < 2 ^ 64

  -- A run of the server's end, which sends what is posted on the connection `conn` and has written
  -- everything, and a client's end that waits.
  pub record IsCarriedBack (conn : Connection NetMsgType) (s t : System NetMsgType)
      (d : Connection NetMsgType) : Type 0 where
    pub fresh : IsFresh s
    pub run : Reach s t
    pub sent : conn.posted ≡ map posted_send t.accepted
    pub idle : t.conn.writing ≡ []
    pub alive : t.conn.socket_open ≡ true
    pub waits : d.reading ≡ reading_header ∷ []
    pub asks : d.owner_type ≡ client

  -- The client's side after the run back: one message is in its queue, without an origin, and what
  -- is taken out of it and decoded are the names, the number 12, and a text that its private key
  -- decrypts to the key that the server drew, with zero bytes behind it.
  abbrev pub IsReceived :
      RequestInfo → MyRsa Key → Key → System NetMsgType → Connection NetMsgType → Type 0
  IsReceived info holder public t d =
      (sent : Message NetMsgType) × (d' : Connection NetMsgType) × (q : TsQueue
        (OwnedMessage NetMsgType))
      × (str : List ℕ) × (m'' : Message NetMsgType) × (read_frames t.wire
            (d, record { deq_queue = [] })
          ≡ some (d', q))
      × (q.deq_queue ≡ record { remote = none; msg = sent } ∷ [])
      × (sent.header.id ≡ NetMsgType.seckey_agree)
      × (drain (size sent) sent [] ≡ some (str, m''))
      × (let r = decode_respond e.runtime (respond_for_decode str) in
          (r.info.client_id ≡ info.client_id)
          × (r.info.server_id ≡ server_id)
          × (r.seckey_id ≡ 12)
          × (decrypt_pri_key e.ssl holder r.info.content true
              ≡ ok (drawn_key ++ replicate (e.ssl.rsa_size public - length drawn_key) 0)))

  -- The client's half of the pair undoes what the server encrypts under the key of the request.
  key_decrypted :
      (info : RequestInfo) (holder : MyRsa Key) (public private : Key) (out cipher : List ℕ)
      (conn : ℕ)
      → IsHolder info holder public private out
      → encrypted e server_id conn info ≡ ok cipher
      → decrypt_pri_key e.ssl holder cipher true
        ≡ ok (drawn_key ++ replicate (e.ssl.rsa_size public - length drawn_key) 0)
  unfolding of_public_file init_pub
  key_decrypted info holder public private out cipher conn h enc =
      let (cipher', there, back) =
        decrypt-encrypt_other e.ssl public private (of_public_file e.ssl (some info.content)) holder
          drawn_key out true h.pair (rw h.sent_public) h.has_private h.whole h.out_of_key
          h.text_fits in
      let same : cipher' ≡ cipher = ground (arith, there, enc) in rw same at back

  -- What the client reads from the bytes of the answer.
  pub answer_read :
      (info : RequestInfo) (holder : MyRsa Key) (public private : Key) (out cipher : List ℕ)
      (conn : ℕ) (w : World L)
      → IsAcceptable e server_id info w conn cipher
      → IsHolder info holder public private out
      → let r =
          decode_respond e.runtime
            (respond_for_decode (answer_bytes e server_id conn info cipher)) in
        (r.info.client_id ≡ info.client_id)
        × (r.info.server_id ≡ server_id)
        × (r.seckey_id ≡ 12)
        × (decrypt_pri_key e.ssl holder r.info.content true
            ≡ ok (drawn_key ++ replicate (e.ssl.rsa_size public - length drawn_key) 0))
  answer_read info holder public private out cipher conn w a h =
      let read =
        decode_answer e server_id conn info cipher a.wire_format
          (a.short.0, a.server_short, a.cipher_short) in
      (
        ap (λ r. r.info.client_id) read,
        ap (λ r. r.info.server_id) read,
        ap (λ r. r.seckey_id) read,
        ap (λ r. decrypt_pri_key e.ssl holder r.info.content true) read
            ∙ key_decrypted info holder public private out cipher conn h a.key_works,
      )
