-- ===== src/Platform/Server/Requests.antt =====
-- What the handlers read from a message.
use security_transmission_pl.Base.{ℕ, ◌^◌, ◌<◌, ◌≡◌, refl, ap, ◌∙◌, some, List, [], length, reverse}
use security_transmission_pl.Base.Result.{ok}
use security_transmission_pl.Net.Message.{Message, size}
use security_transmission_pl.Proto.Runtime.{Runtime, IsWireFormat}
use security_transmission_pl.Proto.Wire.Request
use security_transmission_pl.Proto.Msg.{
  NetMsgType, RequestInfo, create_request, request_for_decode, request_factory_of_enc,
  decode_request,
}
use security_transmission_pl.Platform.Body.{fill, drain, drain_lem, drain-fill}
use security_transmission_pl.Platform.World.{Env}
use security_transmission_pl.Platform.Server.{parse_msg_impl, parse_net_str, pubkey_file_name}

-- Strings that fit the wire format.
abbrev pub IsShort : RequestInfo → Type 0
IsShort info =
    (length info.client_id < 2 ^ 31)
    × (length info.server_id < 2 ^ 31)
    × (length info.sign < 2 ^ 31)
    × (length info.content < 2 ^ 31)

-- A request as protobuf puts it on the wire.
abbrev pub request_bytes : Runtime → RequestInfo → List ℕ
request_bytes r info = Request.serialize r (record {
  client_id = info.client_id;
  server_id = info.server_id;
  sign = info.sign;
  content = info.content;
  unknown = [];
})

module _ {Key L : Type 0} (e : Env Key L) (server_id : List ℕ) where
  parse_drained :
      (msg m' : Message NetMsgType) (str : List ℕ)
      → drain (size msg) msg [] ≡ some (str, m')
      → let info = decode_request e.runtime (request_for_decode str) in
        parse_msg_impl e server_id msg ≡ ok (info, pubkey_file_name info.client_id)
  unfolding parse_msg_impl create_request request_factory_of_enc
  parse_drained msg m' str d = ap (parse_net_str e server_id) d

  pub decode_request_bytes :
      (info : RequestInfo)
      → IsWireFormat e.runtime
      → IsShort info
      → decode_request e.runtime (request_for_decode (request_bytes e.runtime info)) ≡ info
  unfolding decode_request request_for_decode
  decode_request_bytes info wire (c, s, g, d) =
      rw (Request.parse-serialize e.runtime wire _ (c, s, g, d, refl)) refl

  -- Parsing is defined for every message whose body fits the address space: no byte is read outside
  -- the body, and the result is the request that protobuf makes of the body read backwards, with
  -- the file name for its client.
  pub parse_msg_impl-defined :
      (msg : Message NetMsgType)
      → length msg.body < 2 ^ 64
      → let info = decode_request e.runtime (request_for_decode (reverse msg.body)) in
        parse_msg_impl e server_id msg ≡ ok (info, pubkey_file_name info.client_id)
  parse_msg_impl-defined msg small =
      let (m', d) = drain_lem msg small in parse_drained msg m' (reverse msg.body) d

  -- Over a wire format that can be read back, a request with strings below 2 ^ 31 bytes, whose
  -- serialization fits the address space, that was put into an empty message byte by byte from its
  -- end is what the server parses, and the message keeps its id.
  pub parse_msg_impl-fill :
      (info : RequestInfo) (m : Message NetMsgType)
      → IsWireFormat e.runtime
      → IsShort info
      → length (request_bytes e.runtime info) < 2 ^ 64
      → m.body ≡ []
      → m.header.size ≡ 0
      → (m' : Message NetMsgType) × (fill
            (length (request_bytes e.runtime info))
            (request_bytes e.runtime info)
            m
          ≡ some m')
        × (parse_msg_impl e server_id m' ≡ ok (info, pubkey_file_name info.client_id))
        × (m'.header.id ≡ m.header.id)
  parse_msg_impl-fill info m wire short small b z =
      let (m', m'', f, d, id, _) = drain-fill (request_bytes e.runtime info) m small b z in
      (
        m',
        f,
        parse_drained m' m'' (request_bytes e.runtime info) d
            ∙ ap (λ i. ok (i, pubkey_file_name i.client_id)) (decode_request_bytes info wire short),
        id,
      )
