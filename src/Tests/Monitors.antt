-- ===== src/Tests/Monitors.antt =====
-- tools/linux/shinogi-monitor.c, run on small sockets.
use shinogi.Base.{
  c_string, ◌<◌, ◌≢◌, All, length, ◌≡◌, refl, inl, arith, true, List, [], ◌∷◌, codes, Bytes, equal,
  starts_with,
}
use shinogi.Win.Network.Hook.{line_contains}
use shinogi.Win.Resolution.{strtol, after_sign, read_sign, skip_space, read_digits}
use shinogi.Linux.Shot.Crop.{atoi, scan_int}
use shinogi.Linux.Monitor.Text.{idle, hung_up}
use shinogi.Linux.Monitor.Text.Prompt.{is_once, is_once_lem, joined, arriving}
use shinogi.Linux.Monitor.Text.Printed.{IsTrimmed, ends_in}
use shinogi.Linux.Monitor.Qmp.{
  wrote, paused, read_line, await_answer, bytes_then, refused, send_all_json, qmp_send,
}
use shinogi.Linux.Monitor.Qmp.Answers.{Exchange, IsExchange, expected}
use shinogi.Linux.Monitor.{Socket, connect_unix, join_args, monitor}
use shinogi.Linux.Monitor.Replied.{IsAnswering, monitor-answer}
use shinogi.Linux.Monitor.Sequence.{IsTalking, monitor-expected}

abbrev banner : List Bytes
banner = codes "QEMU 8.2\n(qe" ∷ codes "mu) " ∷ []

abbrev pieces : List Bytes
pieces = codes "info sta" ∷ codes "tus\nrunning\n(qem" ∷ codes "u) " ∷ []

abbrev guest : Socket
guest = record {
  reaches = λ path. true;
  takes = λ t text. true;
  incoming = arriving banner (arriving pieces (idle ∷ []));
}

banner_once : is_once (joined banner) ≡ true
unfolding is_once starts_with
banner_once = refl

pieces_once : is_once (joined pieces) ≡ true
unfolding is_once starts_with
pieces_once = refl

banner_whole : All (λ b. 0 < length b) banner
banner_whole = ground arith

pieces_whole : All (λ b. 0 < length b) pieces
pieces_whole = ground arith

abbrev echoed : Bytes
echoed = codes "info status"

echoed_line : All (λ c. c ≢ 10) echoed
echoed_line = ground arith

abbrev answering : IsAnswering guest (codes "running")
answering = record {
  banner = banner;
  pieces = pieces;
  more = idle ∷ [];
  echo = echoed;
  ends = 10 ∷ [];
  arrivals = refl;
  banner_pieces = banner_whole;
  reply_pieces = pieces_whole;
  reply = refl;
  banner_prompt = record {
    before = codes "QEMU 8.2\n";
    shape = refl;
    once = λ xs ys. is_once_lem (joined banner) xs ys banner_once;
  };
  reply_prompt = record {
    before = codes "info status\nrunning\n";
    shape = refl;
    once = λ xs ys. is_once_lem (joined pieces) xs ys pieces_once;
  };
  one_line = echoed_line;
  line_ends = (inl refl, tt);
}

trimmed : IsTrimmed (codes "running")
trimmed = ends_in (codes "runnin") 103 (omega arith) (omega arith)

monitor-answer_example :
    monitor guest (codes "mon.sock" ∷ codes "info" ∷ codes "status" ∷ [])
    ≡ (0, codes "running\n", wrote (codes "info status\n") ∷ [])
unfolding connect_unix join_args equal
monitor-answer_example =
    monitor-answer guest (codes "mon.sock") (codes "info") (codes "info status") (codes "running")
      (codes "status" ∷ []) refl refl refl refl refl trimmed answering (omega arith)

abbrev query : Exchange
query = record { json = codes "{1}"; events = codes "{E}" ∷ []; reply = codes "{\"return\": 3}" }

abbrev move : Exchange
move = record { json = codes "{2}"; events = []; reply = codes "{\"return\": {}}" }

abbrev wrong : Exchange
wrong = record { json = codes "{3}"; events = []; reply = codes "{\"error\": 1}" }

abbrev unsent : Exchange
unsent = record { json = codes "{4}"; events = []; reply = codes "{\"return\": 4}" }

abbrev conversation : List Bytes
conversation =
    codes "{\"QMP\": 1}\n{\"ret"
    ∷ codes "urn\": {}}\n{E}\n{\"return\": 3}\n{"
    ∷ codes "\"return\": {}}\n{\"error\": 1}\n{\"return\": 4}\n"
    ∷ []

abbrev talker : Socket
talker = record {
  reaches = λ path. true;
  takes = λ t text. true;
  incoming = arriving conversation (hung_up ∷ []);
}

abbrev commands : List Exchange
commands = query ∷ move ∷ wrong ∷ unsent ∷ []

query-IsExchange : IsExchange query
unfolding line_contains starts_with c_string
query-IsExchange = record {
  event_lines = (record { unbroken = ground arith; short = omega arith }, tt);
  event_keys = (refl, tt);
  reply_line = record { unbroken = ground arith; short = omega arith };
  reply_key = refl;
}

move-IsExchange : IsExchange move
unfolding line_contains starts_with c_string
move-IsExchange = record {
  event_lines = tt;
  event_keys = tt;
  reply_line = record { unbroken = ground arith; short = omega arith };
  reply_key = refl;
}

wrong-IsExchange : IsExchange wrong
unfolding line_contains starts_with c_string
wrong-IsExchange = record {
  event_lines = tt;
  event_keys = tt;
  reply_line = record { unbroken = ground arith; short = omega arith };
  reply_key = refl;
}

unsent-IsExchange : IsExchange unsent
unfolding line_contains starts_with c_string
unsent-IsExchange = record {
  event_lines = tt;
  event_keys = tt;
  reply_line = record { unbroken = ground arith; short = omega arith };
  reply_key = refl;
}

talking : IsTalking talker commands
unfolding line_contains starts_with c_string
talking = record {
  pieces = conversation;
  more = hung_up ∷ [];
  greeting = codes "{\"QMP\": 1}";
  events = [];
  reply = codes "{\"return\": {}}";
  arrivals = refl;
  whole_pieces = ground arith;
  text = refl;
  greeting_line = record { unbroken = ground arith; short = omega arith };
  handshake = record {
    event_lines = tt;
    event_keys = tt;
    reply_line = record { unbroken = ground arith; short = omega arith };
    reply_key = refl;
  };
  accepted = refl;
  exchanges = (query-IsExchange, (move-IsExchange, (wrong-IsExchange, (unsent-IsExchange, tt))));
}

monitor-expected_example :
    monitor talker (
      codes "--qmp-seq"
      ∷ codes "qmp.sock"
      ∷ codes "40"
      ∷ codes "{1}"
      ∷ codes "{2}"
      ∷ codes "{3}"
      ∷ codes "{4}"
      ∷ [])
    ≡ (
      1,
      codes "{\"return\": 3}\n",
      wrote (codes "\n")
          ∷ wrote (codes "{3}")
          ∷ paused 40
          ∷ wrote (codes "\n")
          ∷ wrote (codes "{2}")
          ∷ paused 40
          ∷ wrote (codes "\n")
          ∷ wrote (codes "{1}")
          ∷ wrote (codes "\n")
          ∷ wrote (codes "{\"execute\":\"qmp_capabilities\"}")
          ∷ [],
    )
unfolding connect_unix expected atoi scan_int strtol after_sign read_sign skip_space read_digits
    c_string line_contains starts_with equal
monitor-expected_example =
    monitor-expected talker (codes "qmp.sock") (codes "40") query (move ∷ wrong ∷ unsent ∷ []) refl
      (λ t text. refl) talking

-- An event that carries one of the two keys is taken for the reply.
event_taken :
    await_answer 100 (bytes_then (codes "{\"event\": 1, \"error\": 2}\n{\"return\": 3}\n") [])
    ≡ refused (codes "{\"event\": 1, \"error\": 2}")
unfolding await_answer read_line bytes_then c_string line_contains starts_with
event_taken = refl

-- A bare success that ends in a carriage return and a newline is printed.
return_printed :
    (send_all_json
      (λ t text. true)
      0
      0
      (codes "{1}" ∷ [])
      (bytes_then (codes "{\"return\": {}}\r\n") [])
      []
      []).1
    ≡ codes "{\"return\": {}}\r\n"
unfolding send_all_json qmp_send await_answer read_line bytes_then c_string line_contains
    starts_with equal
return_printed = refl
