-- ===== src/Apns/Client/Order.antt =====
-- The order of a client's list of messages, whatever happens to its connection: SslTcpClient.cpp.
use pushserver.Prelude.{
  ◌≡◌, refl, sym, ap, ◌∙◌, List, [], ◌∷◌, ◌++◌, Bool, true, false, Bytes, append_assoc, append-nil,
  Bool-cases, inl, inr,
}
use pushserver.Apns.Client.{
  Client, Event, sent, is_connecting, online_, offline_, ssl_on_timeout, on_timeout,
  on_net_connecting, on_net_connectted, on_send_message, try_messages, on_try_send_msg,
}

-- What can happen to a client.
pub data Act : Type 0 where
  sends : Bytes → Act
  tries : Bool → Act
  times_out : Act
  comes_online : Act
  starts_connecting : Act
  connected : Act
  -- A failed attempt or a lost connection.
  disconnected : Act

unfoldable pub act : Act → Client → Client
act (sends bytes) c = on_send_message bytes c
act (tries accepted) c = (on_try_send_msg accepted c).0
act times_out c = on_timeout c
act comes_online c = online_ c
act starts_connecting c = on_net_connecting c
act connected c = on_net_connectted c
act disconnected c = offline_ c

unfoldable pub run : List Act → Client → Client
run [] c = c
run (a ∷ acts) c = run acts (act a c)

-- The messages given to a client, and those that a `SendData` that succeeded took from it, oldest
-- first.
unfoldable pub given : List Act → List Bytes
given [] = []
given (sends bytes ∷ acts) = bytes ∷ given acts
given (_ ∷ acts) = given acts

unfoldable pub handed_over : List Event → List Bytes
handed_over [] = []
handed_over (sent m ∷ log) = handed_over log ++ (m ∷ [])
handed_over (_ ∷ log) = handed_over log

-- What was handed over, and then what waits.
abbrev pub all_messages : Client → List Bytes
all_messages c = handed_over c.log ++ c.messages

try_messages_keeps :
    (accepted : Bool) (ms : List Bytes) (c : Client)
    → c.messages ≡ ms
    → all_messages (try_messages accepted ms c).0 ≡ all_messages c
unfolding try_messages handed_over
try_messages_keeps accepted [] c h = refl
try_messages_keeps true (m ∷ []) c h = append_assoc (handed_over c.log) (m ∷ []) [] ∙ rw h refl
try_messages_keeps true (m ∷ k ∷ ms) c h =
    append_assoc (handed_over c.log) (m ∷ []) (k ∷ ms) ∙ rw h refl
try_messages_keeps false (m ∷ ms) c h = refl

try_keeps :
    (accepted : Bool) (c : Client) → all_messages (on_try_send_msg accepted c).0 ≡ all_messages c
unfolding on_try_send_msg
try_keeps accepted c = try_messages_keeps accepted c.messages c refl

connecting_keeps : (c : Client) → all_messages (on_net_connecting c) ≡ all_messages c
unfolding on_net_connecting handed_over
connecting_keeps c = elim (Bool-cases (is_connecting c.status)) [
  | inl e ↦ rw e refl
  | inr e ↦ rw e refl
]

act_keeps : (a : Act) (c : Client) → all_messages (act a c) ≡ all_messages c ++ given (a ∷ [])
unfolding act given handed_over on_send_message on_timeout ssl_on_timeout online_ on_net_connectted
    offline_
act_keeps (sends bytes) c = sym (append_assoc (handed_over c.log) c.messages (bytes ∷ []))
act_keeps (tries accepted) c = try_keeps accepted c ∙ sym (append-nil _)
act_keeps times_out c = sym (append-nil _)
act_keeps comes_online c = sym (append-nil _)
act_keeps starts_connecting c = connecting_keeps c ∙ sym (append-nil _)
act_keeps connected c = sym (append-nil _)
act_keeps disconnected c = sym (append-nil _)

given_step : (a : Act) (acts : List Act) → given (a ∷ acts) ≡ given (a ∷ []) ++ given acts
unfolding given
given_step (sends bytes) acts = refl
given_step (tries accepted) acts = refl
given_step times_out acts = refl
given_step comes_online acts = refl
given_step starts_connecting acts = refl
given_step connected acts = refl
given_step disconnected acts = refl

-- Whatever happens to a client, in whatever order: the messages that were handed over to a
-- `SendData` that succeeded, and then those that wait, are the ones there were and those given to
-- it since, in this order. So its list loses, doubles and reorders none, be it by failed attempts,
-- timeouts or lost connections. What the socket does with a message that it accepted is not part of
-- this.
pub run-all_messages :
    (acts : List Act) (c : Client) → all_messages (run acts c) ≡ all_messages c ++ given acts
unfolding run given
run-all_messages [] c = sym (append-nil _)
run-all_messages (a ∷ acts) c =
    run-all_messages acts (act a c)
    ∙ ap (λ ms. ms ++ given acts) (act_keeps a c)
    ∙ append_assoc (all_messages c) (given (a ∷ [])) (given acts)
    ∙ ap (λ ms. all_messages c ++ ms) (sym (given_step a acts))
