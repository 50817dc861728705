-- ===== src/Provider/C2dm.antt =====
-- PushC2DMClientSocket.cpp: the client that hands the messages for Android devices to the TLS
-- listener of SslSvrSession.cpp. The message passed in is never NULL.
pub mod Delivery
pub mod Arrival
pub mod Broadcast
use pushserver.Prelude.{
  ℕ, ◌+◌, ◌/◌, ◌%◌, ◌^◌, List, [], ◌∷◌, ◌++◌, Bool, true, false, Bytes, codes, Result, ok, overrun,
  stuck, thrown, ◌>>=◌, length, take, drop, ltb, leb, ◌&&◌, if◌then◌else◌,
}

-- `m_data`: `szToken` of 35 bytes and, behind it, `szPayload` of 258.
pub record Data : Type 0 where
  pub sz_token : Bytes
  pub sz_payload : Bytes

pub data Effect : Type 0 where
  -- A `Send` of these bytes.
  sends : Bytes → Effect
  -- The kill event for the socket, and a new one.
  restarts : Effect

pub record Client : Type 0 where
  pub data_ : Data
  pub log : List Effect

abbrev pub payload_text : Bytes → Bytes
payload_text msg = codes "{\"aps\":" ++ (msg ++ codes "}")

-- `strcpy` and `strcat` write the text and a NUL behind the two bytes of the length.
unfoldable pub gen_payload_data : Bytes → Client → Result (Client × ℕ)
gen_payload_data msg c =
    let len = length (payload_text msg) in
    if ltb 255 len
    then overrun
    else ok (
      record c {
        data_ = record {
          sz_token = c.data_.sz_token;
          sz_payload =
              (len / 2 ^ 8)
              ∷ (len % 2 ^ 8)
              ∷ (payload_text msg ++ (0 ∷ drop (len + 3) c.data_.sz_payload));
        };
      },
      len + 2,
    )

-- `memcpy` of 32 bytes from the C string `pToken`, its NUL included.
unfoldable pub gen_push_data : Bytes → Client → Result Client
gen_push_data token c =
    if ltb (length token + 1) 32
    then overrun
    else ok (record c {
      data_ = record {
        sz_token = 0 ∷ 0 ∷ 32 ∷ take 32 (token ++ (0 ∷ []));
        sz_payload = c.data_.sz_payload;
      };
    })

abbrev pub send_data : ℕ → Client → Client
send_data n c = record c { log = sends (take n (c.data_.sz_token ++ c.data_.sz_payload)) ∷ c.log }

-- `failed` is what the first `Send` says; a second one is sent on the new socket.
unfoldable pub push_notification : Bool → Bytes → Bytes → Client → Result Client
unfolding gen_payload_data gen_push_data
push_notification failed token msg c = do
  done ← gen_payload_data msg c
  c' ← gen_push_data token done.0
  let sent = send_data (35 + done.1) c'
  ok (if failed then send_data (35 + done.1) (record sent { log = restarts ∷ sent.log }) else sent)
