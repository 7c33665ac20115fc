-- ===== src/Tests/Samples.antt =====
-- The runtime, the clients and the data of the tests.
use sandstorm_ios_driver.Prelude.{
  ℕ, ◌+◌, ◌*◌, ◌-◌, ◌/◌, true, false, Option, none, some, List, [], ◌∷◌, ltb, leb, if◌then◌else◌,
}
use sandstorm_ios_driver.Prelude.Int.{ℤ, pos, negsuc}
use sandstorm_ios_driver.Prelude.Text.{codes, text_eq}
use sandstorm_ios_driver.Python.Json.{Json, null, bool, int, str, obj, end, field}
use sandstorm_ios_driver.Python.Runtime.{Runtime}
use sandstorm_ios_driver.Protocol.Framing.{chunk}
use sandstorm_ios_driver.Transport.Net.{refused, accepted}
use sandstorm_ios_driver.Transport.Client.{Client}

abbrev natural : ℤ → ℕ
natural (pos n) = n
natural (negsuc n) = 0

abbrev reply : Json ℕ
reply = obj (field "id" (int (pos 1)) (field "success" (bool true) (field "result" null end)))

abbrev greeting : Json ℕ
greeting = obj (
    field "success" (bool true) (
      field "protocolVersion" (int (pos 1)) (
        field "sessionId" (str (codes "s"))
          (field "agentVersion" (str (codes "1.0")) (field "device" (obj end) end)))))

abbrev pub failure_error : Json ℕ
failure_error =
    obj (field "code" (str (codes "TIMEOUT")) (field "message" (str (codes "late")) end))

abbrev failed : Json ℕ
failed =
    obj (field "id" (int (pos 1)) (field "success" (bool false) (field "error" failure_error end)))

abbrev decoded : List ℕ → Option (Json ℕ)
decoded bytes =
    if text_eq bytes (codes "r")
    then some reply
    else if text_eq bytes (codes "h")
    then some greeting
    else if text_eq bytes (codes "f")
    then some failed
    else none

abbrev pub plain : Runtime ℕ
plain = record {
  zero_float = 0;
  one_float = 1;
  inf = 1000000;
  of_ℤ = natural;
  add = λ a b. a + b;
  sub = λ a b. a - b;
  mul = λ a b. a * b;
  max = λ a b. a + (b - a);
  half = λ a. a / 2;
  lt = ltb;
  le = leb;
  truncate = λ a. some (pos a);
  int_of_text = λ t. none;
  float_of_text = λ t. none;
  show = λ j. [];
  fixed = λ n x. [];
  repr = λ t. t;
  dumps = λ j. 123 ∷ 125 ∷ [];
  loads = decoded;
}

abbrev pub reply_bytes : List ℕ
reply_bytes = 1 ∷ 0 ∷ 0 ∷ 0 ∷ 1 ∷ 114 ∷ []

abbrev pub hello : List ℕ
hello = 1 ∷ 0 ∷ 0 ∷ 0 ∷ 1 ∷ 104 ∷ []

-- A client whose first dial is refused and whose second is answered.
abbrev pub client : Client ℕ
client = record {
  token = none;
  client_version = codes "1.0";
  command_timeout = 30;
  max_retries = 2;
  socket = none;
  next_id = 0;
  handshake = none;
  dials =
      refused ∷ accepted (record { incoming = chunk hello ∷ []; deliveries = []; sent = [] }) ∷ [];
  clock = λ n. n;
  ticks = 0;
}

-- A client whose socket holds the reply in two chunks.
abbrev pub replying : Client ℕ
replying = record {
  token = none;
  client_version = codes "1.0";
  command_timeout = 30;
  max_retries = 2;
  socket = some (record {
    incoming = chunk (1 ∷ 0 ∷ 0 ∷ []) ∷ chunk (0 ∷ 1 ∷ 114 ∷ []) ∷ [];
    deliveries = [];
    sent = [];
  });
  next_id = 0;
  handshake = none;
  dials = [];
  clock = λ n. n;
  ticks = 0;
}

-- A client without a socket whose dial is answered, with a reply behind the handshake.
abbrev pub redialling : Client ℕ
redialling = record client {
  dials =
      accepted
        (record { incoming = chunk hello ∷ chunk reply_bytes ∷ []; deliveries = []; sent = [] })
      ∷ [];
}

-- A client whose socket holds a reply that reports a failure.
abbrev pub refused_client : Client ℕ
refused_client = record {
  token = none;
  client_version = codes "1.0";
  command_timeout = 30;
  max_retries = 2;
  socket = some (record {
    incoming = chunk (1 ∷ 0 ∷ 0 ∷ []) ∷ chunk (0 ∷ 1 ∷ 102 ∷ []) ∷ [];
    deliveries = [];
    sent = [];
  });
  next_id = 0;
  handshake = none;
  dials = [];
  clock = λ n. n;
  ticks = 0;
}
