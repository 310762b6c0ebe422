-- ===== src/Tests/Data.antt =====
-- An environment, requests and states for the tests. Real messages are protobuf's; here the first
-- byte of a request tells its type.
use wineing.Prelude.{
  refl, ℕ, pos, negsuc, ◌≡◌, [], ◌∷◌, Option, none, some, ◌==◌, if◌then◌else◌, length, replicate,
  length-replicate, arith, ◌≤◌,
}
use wineing.Prelude.Memory.{Bytes, codes}
use wineing.Nx.Linux.{wininf_file_exists}
use wineing.Proto.{
  Request, RequestType, market_start, market_stop, shutdown, Response, ResponseType, Codec,
  HoldsText,
}
use wineing.Control.{Env, InState, Turn, in_start}
use wineing.Control.Owner.{IsOwner}
use wineing.Control.Start.{in_start-IsOwner}
use wineing.Reader.{Reader, reader_init}
use wineing.Reader.Behind.{Later, Behind, reader_init-Behind}
use wineing.Market.{NxCore, NxTape}
use wineing.Program.Safety.{IsAllocated}

abbrev pub request : RequestType → Option Bytes → Request
request t file = record { request_id = pos 7; type = t; tape_file = file }

abbrev pub parse : Bytes → Option Request
parse [] = none
parse (b ∷ bs) =
    if b == 0
    then some (request market_start none)
    else if b == 1
    then some (request market_stop none)
    else if b == 2
    then some (request shutdown none)
    else if b == 3
    then some (request market_start (some bs))
    else none

abbrev pub text_of : Option Bytes → Bytes
text_of none = []
text_of (some t) = t

abbrev type_code : ResponseType → ℕ
type_code ResponseType.market_start_ok = 0
type_code ResponseType.market_stop_ok = 1
type_code ResponseType.shutdown_ok = 2
type_code ResponseType.err = 3
type_code ResponseType.market_start_err_running = 4

abbrev pub codec : Codec
codec = record {
  parse_request = parse;
  serialize_response = λ r. type_code r.type ∷ text_of r.err_text;
  serialize_market = λ t. 0 ∷ [];
}

codec-text :
    (r : Response) (t : Bytes)
    → r.err_text ≡ some t
    → length t ≤ length (codec.serialize_response r)
codec-text r t e = ground arith

pub codec-HoldsText : HoldsText codec
codec-HoldsText = record { text_inside = codec-text }

-- Every file is there, as the stub for Linux says, or none is.
abbrev pub env : Env
env = record { tape_basedir = codes "C:\\"; file_exists = wininf_file_exists; codec = codec }

abbrev pub empty_disk : Env
empty_disk = record { tape_basedir = codes "C:\\"; file_exists = λ _. negsuc 0; codec = codec }

abbrev pub memory : Bytes
memory = replicate 1024 0

pub length-memory : length memory ≡ 1024
length-memory = length-replicate {A = ℕ} 1024 0

abbrev pub s₀ : InState
s₀ = in_start memory memory

pub s₀-IsOwner : IsOwner s₀
s₀-IsOwner = in_start-IsOwner memory memory length-memory length-memory

abbrev pub reader : Reader
reader = reader_init memory

pub reader-Behind : Behind 1 s₀.shared reader
unfolding in_start
reader-Behind = reader_init-Behind memory _ length-memory

pub s₀-Later : Later s₀.shared s₀.shared
unfolding in_start
s₀-Later = record {
  updates = 0;
  small = omega arith;
  word = omega arith;
  distance = refl;
  same = λ _. refl;
}

abbrev pub nx : NxCore
nx = record { msg_status = 0; callback_stop = pos 0; callback_continue = pos 1 }

abbrev pub nx_tape : NxTape
nx_tape = record { reader = reader; sent = [] }

abbrev pub turn : Bytes → Turn
turn m = record { received = record { rc = pos 0; message = m }; send_rc = pos 0 }

pub memory-IsAllocated : IsAllocated memory memory memory memory memory
memory-IsAllocated = record {
  of_g = length-memory;
  of_in = length-memory;
  of_out = length-memory;
  of_market = length-memory;
  of_tape = length-memory;
}
