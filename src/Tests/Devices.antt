-- ===== src/Tests/Devices.antt =====
-- Tests of the device sessions: MqttServer.cpp, MqttPacket.cpp, MqttSessionHandler.cpp.
use pushserver.Prelude.{
  Bytes, replicate, ◌≡◌, ◌≢◌, refl, List, [], ◌∷◌, ◌++◌, true, false, none, codes, arith, ok, pos,
  length,
}
use pushserver.Mqtt.Packet.Code
use pushserver.Mqtt.Packet.{MqttPacket, init_new, read_string}
use pushserver.Mqtt.Packet.Reads.{IsPacket, Agrees, parse_string, unread, read_string-Agrees}
use pushserver.Mqtt.Registry.{find_mqtt_session}
use pushserver.Mqtt.Session.{send_publish, send_or_queue, Session, handle_connect}
use pushserver.Mqtt.Session.Connect.{connect_packet, handle_connect_evicts}
use pushserver.Mqtt.Session.Verdict.{Verdict, handle_connect-Verdict}
use pushserver.Mqtt.Framing.{decode_remaining, decoded, process_loop}
use pushserver.Mqtt.Framing.Remaining.{encode_remaining, decode-encode}
use pushserver.Mqtt.Framing.Frames.{Frame, frame_bytes, stream, run_frames}
use pushserver.Mqtt.Framing.Loop.{process_loop-run_frames}
use pushserver.Mqtt.Run.{Turn, Events, again, no_error, run, IsQuiet, SameWire, run_sends_nothing}
use pushserver.Mqtt.Publish.{publish_frame, send_publish_misframed}
use pushserver.Tests.Data.{toy, name, token, new_session}

-- A CONNECT and a PINGREQ that arrive together.
abbrev packet : MqttPacket
packet = connect_packet 16 3 2 60 name

abbrev frames : List Frame
frames = record { command = 16; body = codes "body" } ∷ record { command = 192; body = [] } ∷ []

process_loop-run_frames_example :
    process_loop 8 toy (stream frames ++ (0 ∷ [])) (pos 8) new_session
    ≡ run_frames toy frames new_session
unfolding encode_remaining
process_loop-run_frames_example =
    process_loop-run_frames toy 8 frames (0 ∷ []) new_session
      ((omega arith, omega arith), ((omega arith, omega arith), tt)) (omega arith) (omega arith)

decode-encode_example :
    decode_remaining 10 (encode_remaining 300 ++ (1 ∷ [])) 0 1 0
    ≡ decoded 300 (length (encode_remaining 300)) (1 ∷ [])
unfolding encode_remaining
decode-encode_example = decode-encode 10 300 (1 ∷ []) (omega arith) (omega arith)

long : length token ≢ 16
long = omega arith

-- The user name is another device's token.
handle_connect_evicts_example :
    (s' : Session) × (handle_connect toy (connect_packet 16 3 2 60 token) new_session
      ≡ ok (s', Code.protocol))
    × (s'.status ≡ init_new)
    × (find_mqtt_session token s'.registry ≡ none)
handle_connect_evicts_example =
    handle_connect_evicts toy 16 3 2 60 token new_session token token token refl (omega arith)
      (omega arith) refl refl refl long

handle_connect-Verdict_example :
    Verdict 7 new_session.registry (handle_connect toy packet new_session)
handle_connect-Verdict_example = handle_connect-Verdict toy packet new_session refl

-- A turn in which nothing is read, with a message waiting, and one in which the client is gone.
abbrev turn : Turn
turn = record {
  live = true;
  read = no_error;
  buffer = [];
  n_len = 0;
  flush = no_error;
  unsent = none;
}

abbrev gone : Turn
gone = record turn { read = again }

abbrev events : Events
events = record { timeout = false; kill = false; reads = true; writes = true; zmq = false }

abbrev waiting : Session
waiting = record new_session { msg_list = codes "a" ∷ codes "b" ∷ [] }

quiet : IsQuiet (turn ∷ turn ∷ gone ∷ [])
quiet = ((λ e. cc), ((λ e. cc), ((λ e. cc), tt)))

run_sends_nothing_example : SameWire waiting (run toy 0 (turn ∷ turn ∷ gone ∷ []) events waiting)
run_sends_nothing_example = run_sends_nothing toy 0 (turn ∷ turn ∷ gone ∷ []) events waiting quiet

packet-IsPacket : IsPacket packet
packet-IsPacket = record { counted = refl; cursor = omega arith; small = omega arith }

read_string-Agrees_example : Agrees [] (parse_string (unread packet)) (read_string packet [])
read_string-Agrees_example = read_string-Agrees packet [] packet-IsPacket

-- A message one byte too long.
abbrev long_message : Bytes
long_message = replicate 126 65

send_publish_misframed_example :
    (bytes : Bytes) × (send_publish 1 long_message 0 false false new_session
      ≡ ok (send_or_queue bytes new_session))
    × (bytes ≢ frame_bytes (publish_frame 1 long_message))
send_publish_misframed_example =
    send_publish_misframed 1 long_message new_session (omega arith) (omega arith) (omega arith)
