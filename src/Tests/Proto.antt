-- ===== src/Tests/Proto.antt =====
-- The theorems on the two protobuf messages, each on one input.
use security_transmission_pl.Base.{
  ℕ, List, ◌≡◌, some, [], ◌∷◌, ◌+◌, ◌^◌, length, refl, arith, ltb, if◌then◌else◌,
}
use security_transmission_pl.Proto.Wire.{parse_loop}
use security_transmission_pl.Proto.Wire.Fuel.{parse_loop-ends}
use security_transmission_pl.Proto.Wire.Request
use security_transmission_pl.Proto.Wire.Respond
use security_transmission_pl.Proto.Wire.Copying.{
  WireSizes, IsSizeOf, request_byte_size, respond_byte_size, length-serialize,
}
use security_transmission_pl.Proto.Msg.{RequestInfo, RespondInfo}
use security_transmission_pl.Proto.Msg.Laws.{
  request_over, request_wire, blank_request, request_over_lem,
}
use security_transmission_pl.Tests.Peers.{plain_runtime, plain_runtime-IsWireFormat}

abbrev request : Request.RequestMsg
request = record {
  client_id = 65 ∷ [];
  server_id = [];
  sign = 9 ∷ [];
  content = 9 ∷ 9 ∷ [];
  unknown = [];
}

abbrev respond : Respond.RespondMsg
respond = record {
  seckey_id = 12;
  client_id = 65 ∷ [];
  server_id = 83 ∷ [];
  content = [];
  unknown = [];
}

abbrev request_info : RequestInfo
request_info = record {
  info = record { client_id = 65 ∷ []; server_id = []; content = 9 ∷ 9 ∷ [] };
  sign = 9 ∷ [];
}

abbrev respond_info : RespondInfo
respond_info = record {
  info = record { client_id = 65 ∷ []; server_id = 83 ∷ []; content = [] };
  seckey_id = 12;
}

request_over_lem_example :
    request_over plain_runtime request_info
    ≡ some (
        if ltb (length (request_wire plain_runtime request_info)) (2 ^ 31)
        then request_info
        else blank_request)
request_over_lem_example =
    request_over_lem plain_runtime plain_runtime-IsWireFormat request_info (omega arith)
      (omega arith) (omega arith) (omega arith)

-- A request whose last field is cut off.
abbrev cut : List ℕ
cut = 10 ∷ 1 ∷ 65 ∷ 34 ∷ []

parse_loop-ends_example :
    (parse_loop plain_runtime.read_tag (Request.round plain_runtime) 9 cut Request.cleared
      ≡ some (Request.parse plain_runtime cut))
    × (parse_loop plain_runtime.read_tag (Respond.round plain_runtime) 9 cut Respond.cleared
        ≡ some (Respond.parse plain_runtime cut))
parse_loop-ends_example =
    parse_loop-ends plain_runtime plain_runtime-IsWireFormat 9 cut (omega arith)

abbrev plain_sizes : WireSizes
plain_sizes = record { bytes_size = λ bytes. 1 + length bytes; uint32_size_plus_one = λ value. 2 }

plain_sizes-IsSizeOf : IsSizeOf plain_sizes plain_runtime
plain_sizes-IsSizeOf = record {
  bytes_sized = λ field bytes low high short. omega arith;
  uint32_sized = λ field value low high short. refl;
}

length-serialize_example :
    (length (Request.serialize plain_runtime request) ≡ request_byte_size plain_sizes request)
    × (length (Respond.serialize plain_runtime respond) ≡ respond_byte_size plain_sizes respond)
length-serialize_example =
    length-serialize plain_sizes plain_runtime plain_sizes-IsSizeOf request respond
      (omega arith, omega arith, omega arith, omega arith)
      (omega arith, omega arith, omega arith, omega arith)
