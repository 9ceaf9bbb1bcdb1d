-- ===== src/Proto/Msg/Laws.antt =====
-- From an info to bytes and back, through the factories.
use security_transmission_pl.Base.{
  ℕ, ◌^◌, ◌<◌, ◌≡◌, refl, Option, some, List, [], length, ◌>>=◌, ltb, if◌then◌else◌, arith,
  Bool-cases, inl, inr,
}
use security_transmission_pl.Proto.Runtime.{Runtime, IsWireFormat}
use security_transmission_pl.Proto.Wire.{parse_loop}
use security_transmission_pl.Proto.Wire.Request
use security_transmission_pl.Proto.Wire.Respond
use security_transmission_pl.Proto.Msg.{
  RequestInfo, RespondInfo, request_for_decode, request_for_encode, respond_for_decode,
  respond_for_encode, encode_request, decode_request, encode_respond, decode_respond,
  create_request, create_respond, request_factory_of_enc, request_factory_of_info,
  respond_factory_of_enc, respond_factory_of_info,
}

-- What a parse without input leaves.
abbrev pub blank_request : RequestInfo
blank_request = record { info = record { client_id = []; server_id = []; content = [] }; sign = [] }

abbrev pub blank_respond : RespondInfo
blank_respond = record {
  info = record { client_id = []; server_id = []; content = [] };
  seckey_id = 0;
}

module _ (r : Runtime) where
  -- What a peer makes of the bytes that come from an info.
  abbrev pub request_over : RequestInfo → Option RequestInfo
  request_over info = do
    m ← create_request (request_factory_of_info (some info))
    m' ← create_request (request_factory_of_enc (encode_request r m))
    some (decode_request r m')

  abbrev pub respond_over : RespondInfo → Option RespondInfo
  respond_over info = do
    m ← create_respond (respond_factory_of_info (some info))
    m' ← create_respond (respond_factory_of_enc (encode_respond r m))
    some (decode_respond r m')

  -- The fields of a request and of a response on the wire.
  abbrev pub request_wire : RequestInfo → List ℕ
  request_wire info = Request.serialize r (record {
    client_id = info.client_id;
    server_id = info.server_id;
    sign = info.sign;
    content = info.content;
    unknown = [];
  })

  abbrev pub respond_wire : RespondInfo → List ℕ
  respond_wire info = Respond.serialize r (record {
    seckey_id = info.seckey_id;
    client_id = info.client_id;
    server_id = info.server_id;
    content = info.content;
    unknown = [];
  })

  -- Over a wire format that can be read back, a request whose strings are shorter than 2 ^ 31 bytes
  -- comes from a factory and EncodeMsg, another factory and DecodeMsg whole, if it has less than
  -- 2 ^ 31 bytes on the wire, and with every string empty if it has more.
  pub request_over_lem :
      IsWireFormat r
      → (info : RequestInfo) → length info.client_id < 2 ^ 31
      → length info.server_id < 2 ^ 31
      → length info.sign < 2 ^ 31
      → length info.content < 2 ^ 31
      → request_over info
        ≡ some (if ltb (length (request_wire info)) (2 ^ 31) then info else blank_request)
  unfolding create_request request_for_encode request_for_decode request_factory_of_info
      request_factory_of_enc encode_request decode_request Request.parse parse_loop
  request_over_lem w info c s g d = elim (Bool-cases (ltb (length (request_wire info)) (2 ^ 31))) [
    | inl fits ↦ rw fits (
        rw (w.string_fits (request_wire info) (ground (arith, fits)))
          (rw (Request.parse-serialize r w _ (c, s, g, d, refl)) refl))
    | inr long ↦ rw long (rw (w.string_fails (request_wire info) (ground (arith, long))) refl)
  ]

  -- Over a wire format that can be read back, a response whose strings are shorter than 2 ^ 31
  -- bytes and whose number is below 2 ^ 32 comes from a factory and EncodeMsg, another factory and
  -- DecodeMsg whole, if it has less than 2 ^ 31 bytes on the wire, and else with every string empty
  -- and the number 0.
  pub respond_over_lem :
      IsWireFormat r
      → (info : RespondInfo) → info.seckey_id < 2 ^ 32
      → length info.client_id < 2 ^ 31
      → length info.server_id < 2 ^ 31
      → length info.content < 2 ^ 31
      → respond_over info
        ≡ some (if ltb (length (respond_wire info)) (2 ^ 31) then info else blank_respond)
  unfolding create_respond respond_for_encode respond_for_decode respond_factory_of_info
      respond_factory_of_enc encode_respond decode_respond Respond.parse parse_loop
  respond_over_lem w info k c s d = elim (Bool-cases (ltb (length (respond_wire info)) (2 ^ 31))) [
    | inl fits ↦ rw fits (
        rw (w.string_fits (respond_wire info) (ground (arith, fits)))
          (rw (Respond.parse-serialize_respond r w _ (k, c, s, d, refl)) refl))
    | inr long ↦ rw long (rw (w.string_fails (respond_wire info) (ground (arith, long))) refl)
  ]
