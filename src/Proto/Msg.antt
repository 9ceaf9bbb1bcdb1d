-- ===== src/Proto/Msg.antt =====
-- include/msg.h and include/factory.h: the program's view of the two protobuf messages. An `int32_t`
-- is its bit pattern, a number below 2 ^ 32, so that its conversions to and from `uint32_t` change
-- nothing. A pointer to an info is an `Option`; `none` as a result is a read through null.
pub mod Laws
use security_transmission_pl.Base.{ℕ, Bool, true, false, Option, none, some, List, [], ◌>>=◌}
use security_transmission_pl.Proto.Runtime.{Runtime}
use security_transmission_pl.Proto.Wire.Request
use security_transmission_pl.Proto.Wire.Respond

-- `transmission_msg::NetMsgType`
pub data NetMsgType : Type 0 where
  seckey_agree seckey_verify seckey_logout failed : NetMsgType

pub record Info : Type 0 where
  pub client_id : List ℕ
  pub server_id : List ℕ
  pub content : List ℕ

pub record RequestInfo : Type 0 where
  pub info : Info
  pub open info use *
  pub sign : List ℕ

pub record RespondInfo : Type 0 where
  pub info : Info
  pub open info use *
  pub seckey_id : ℕ

pub record RequestMsg : Type 0 where
  pub enc_str : List ℕ
  pub msg : Request.RequestMsg

pub record RespondMsg : Type 0 where
  pub enc_str : List ℕ
  pub msg : Respond.RespondMsg

-- `RequestMsg(enc_str)`: for decoding
unfoldable pub request_for_decode : List ℕ → RequestMsg
request_for_decode enc_str = record { enc_str = enc_str; msg = Request.cleared }

-- `RequestMsg(info)`: for encoding
unfoldable pub request_for_encode : Option RequestInfo → Option RequestMsg
request_for_encode none = none
request_for_encode (some info) = some (record {
  enc_str = [];
  msg = record {
    client_id = info.client_id;
    server_id = info.server_id;
    sign = info.sign;
    content = info.content;
    unknown = [];
  };
})

unfoldable pub respond_for_decode : List ℕ → RespondMsg
respond_for_decode enc_str = record { enc_str = enc_str; msg = Respond.cleared }

unfoldable pub respond_for_encode : Option RespondInfo → Option RespondMsg
respond_for_encode none = none
respond_for_encode (some info) = some (record {
  enc_str = [];
  msg = record {
    seckey_id = info.seckey_id;
    client_id = info.client_id;
    server_id = info.server_id;
    content = info.content;
    unknown = [];
  };
})

module _ (r : Runtime) where
  -- `RequestMsg::EncodeMsg`, which does not look whether the message was serialized
  unfoldable pub encode_request : RequestMsg → List ℕ
  encode_request m = r.serialize_as_string (Request.serialize r m.msg)

  -- `RequestMsg::DecodeMsg`, which does not look at the result of the parse
  unfoldable pub decode_request : RequestMsg → RequestInfo
  decode_request m =
      let parsed = (Request.parse r m.enc_str).0 in
      record {
        info = record {
          client_id = parsed.client_id;
          server_id = parsed.server_id;
          content = parsed.content;
        };
        sign = parsed.sign;
      }

  unfoldable pub encode_respond : RespondMsg → List ℕ
  encode_respond m = r.serialize_as_string (Respond.serialize r m.msg)

  unfoldable pub decode_respond : RespondMsg → RespondInfo
  decode_respond m =
      let parsed = (Respond.parse r m.enc_str).0 in
      record {
        info = record {
          client_id = parsed.client_id;
          server_id = parsed.server_id;
          content = parsed.content;
        };
        seckey_id = parsed.seckey_id;
      }

-- `RequestFactory` and `RespondFactory`; `flag` says that the message is to be encoded.
pub record RequestFactory : Type 0 where
  pub flag : Bool
  pub enc_str : List ℕ
  pub info : Option RequestInfo

pub record RespondFactory : Type 0 where
  pub flag : Bool
  pub enc_str : List ℕ
  pub info : Option RespondInfo

-- `RequestFactory(enc)` and `RequestFactory(info)`
unfoldable pub request_factory_of_enc : List ℕ → RequestFactory
request_factory_of_enc enc = record { flag = false; enc_str = enc; info = none }

unfoldable pub request_factory_of_info : Option RequestInfo → RequestFactory
request_factory_of_info info = record { flag = true; enc_str = []; info = info }

unfoldable pub respond_factory_of_enc : List ℕ → RespondFactory
respond_factory_of_enc enc = record { flag = false; enc_str = enc; info = none }

unfoldable pub respond_factory_of_info : Option RespondInfo → RespondFactory
respond_factory_of_info info = record { flag = true; enc_str = []; info = info }

-- `CreateMsg`
abbrev create_request_by : Bool → RequestFactory → Option RequestMsg
create_request_by true f = request_for_encode f.info
create_request_by false f = some (request_for_decode f.enc_str)

unfoldable pub create_request : RequestFactory → Option RequestMsg
create_request f = create_request_by f.flag f

abbrev create_respond_by : Bool → RespondFactory → Option RespondMsg
create_respond_by true f = respond_for_encode f.info
create_respond_by false f = some (respond_for_decode f.enc_str)

unfoldable pub create_respond : RespondFactory → Option RespondMsg
create_respond f = create_respond_by f.flag f
