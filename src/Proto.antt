-- ===== src/Proto.antt =====
-- resources/protobuf/WineingCtrlProto.proto and WineingMarketDataProto.proto: the messages.
-- The code that protobuf generates from them is a parameter, `Codec`.
use wineing.Prelude.{ℤ, ◌≤◌, ◌≡◌, Option, some, length}
use wineing.Prelude.Memory.{Bytes}

-- `Request::Type`
pub data RequestType : Type 0 where
  market_start market_stop shutdown : RequestType

pub record Request : Type 0 where
  pub request_id : ℤ
  pub type : RequestType
  pub tape_file : Option Bytes

-- `Response::Type`
pub data ResponseType : Type 0 where
  market_start_ok market_stop_ok shutdown_ok err market_start_err_running : ResponseType

pub record Response : Type 0 where
  pub request_id : ℤ
  pub type : ResponseType
  pub err_text : Option Bytes

-- `MarketData::Type`
pub data MarketDataType : Type 0 where
  status quote_ex quote_mm trage category symbol : MarketDataType

-- The generated methods: `ParseFromZeroCopyStream` of a request, which fails or gives the message,
-- and `SerializeToZeroCopyStream`, whose output has `ByteSize()` bytes.
pub record Codec : Type 0 where
  pub parse_request : Bytes → Option Request
  pub serialize_response : Response → Bytes
  pub serialize_market : MarketDataType → Bytes

-- A serialised message contains the bytes of its string field.
pub record HoldsText (c : Codec) : Type 0 where
  pub text_inside :
      (r : Response) (t : Bytes) → r.err_text ≡ some t → length t ≤ length (c.serialize_response r)
