-- ===== src/Lib.antt =====
-- The push server: it takes notifications from providers and hands them to devices.
--
-- Its parts, each with its module here:
--   * Devices that speak MQTT connect to `MqttServer` (MqttServer.h, MqttServer.cpp). Mqtt.Packet
--     is a received packet and its cursor (MqttPacket.cpp), Mqtt.Session the members and the
--     handlers of a connection, Mqtt.Framing `ProcessRecvMsg` and the receive loop, Mqtt.Run the
--     run loop, and Mqtt.Registry the map from device tokens to connections
--     (MqttSessionHandler.cpp).
--   * Push messages for these devices come over TLS to `SslSvrSession` (SslSvrSession.cpp,
--     ProviderPacket.cpp): Provider.Packet and Provider.Session, which looks a token up in the
--     registry and publishes on the device's connection; Provider.Run is its `Run`,
--     Provider.Life the sessions with their TLS objects and holders (TCPSslSessionInterface.cpp), and
--     Mqtt.Publish what the device should get. Provider.C2dm is the client that sends them
--     (PushC2DMClientSocket.cpp).
--   * Providers send requests in JSON over HTTP to `ApsAppSrvSession`: App.Request, App.Response
--     and App.Session (ApsAppRequestMessage.cpp, ApsAppResponseMessage.cpp,
--     ApsAppServerSession.cpp). A publish request looks the devices up (Redis:
--     ApsRedisLocation.cpp, ApsTokenRedisLocation.cpp) and pushes to Apple or to the C2DM client.
--   * Apns is the way to Apple: Apns.Hex and Apns.Message (ApsApnsPrimeryRequestMessage.cpp),
--     Apns.Client (SslTcpClient.cpp, ApsApnsAdvanceClient.cpp, ApsApnsPrimeryClient.cpp) and
--     Apns.Pool (ApsApnsClientPool.cpp): it has `PushNotification`, and Apns.Pool.Run is the pool's
--     parameters, the queue of the clients to connect, and its `Run`. Apns.User is the user of a
--     client (`SetUserInfo`).
--   * Tls is the socket to Apple over OpenSSL (SslTcpSocket.cpp), Tls.Android that of the C2DM
--     client (SslAndroidTcpSocket.cpp), and Provider.Stream what a TLS session reads
--     (TCPSslRequestStream.cpp, SslTcpClientSocket.cpp).
--   * Records is the task that performs the queries to MongoDB (ApsLcs.cpp), Records.Life its start,
--     its requests and its events, Records.Documents how they are written (ApsStatusSave.cpp), and
--     Records.Results the results that wait for the task that asked (ApsLcsUtil.cpp).
--   * Config is what is read of the preference file (`Initialize` and `InitializeParam` of several
--     classes).
--   * Listeners is how the three listeners are created and what they do with a connection
--     (AvconPushServer.cpp, MqttListenerSocket.cpp, ApsAppTcpListenerSocket.cpp,
--     PushListenerSslSocket.cpp), and Server the processes: the daemon, the parent, which starts the
--     server again (ApsMain.cpp), the signals, and the start and the loop of the server (RunServer.cpp,
--     ApsConfigParser.cpp). Apns.Feedback reads what Apple's feedback service reports
--     (ApsApnsFeedbackClient.cpp, ApsApnsFeedbackMessage.cpp).
--   * System puts the sessions together: devices that connect (`GetSessionTask` of
--     MqttListenerSocket.cpp) and run, each with its object and all with one registry, and the push
--     messages that look the registry up, as a relation of steps. A call is one step, and an object
--     is deleted where `Run` returns -1. App.Session.Clients performs the pushes that a provider's
--     session logs on the clients of both platforms, System.Connect follows a device from its
--     connection to its first push message, and System.Publish a publish request to the connections
--     of the devices.
--
-- A class is a record of the members that its functions use, and a function takes the object and
-- returns it. A C or C++ name is written in lower case with underscores: `OnTrySendMsg` is
-- `on_try_send_msg`. Numbers are natural numbers, reduced modulo 2^w where the source's type wraps.
-- `std::string`s and buffers are lists of byte values; what reads a C string goes through `c_str`.
-- `std::map` is Prelude.Dict. Prelude.Outcome has the result of a call: a value, an exception that
-- nothing catches, or `overrun`, a read or write outside a buffer, at which a run ends.
--
-- Code outside the repository is a parameter or a log. The jsoncpp library is the record `Json`, an
-- argument of what uses it, and RedisClient the record `Redis`; so are the MongoDB driver, the
-- preference file and the queue of the library (`Driver`, `Prefs`, `OsQueue`). What a theorem needs
-- of them is its hypothesis (`HasMembers`, `QueueLaws`). The answers of OpenSSL are passed in. What
-- is asked of sockets, timers, databases and other tasks is a list of effects, newest first, and
-- what they answer is given to the functions: the error codes of `Send`, the turns of the run loop.
--
-- The receive loops run on fuel, and end in `stuck` without it. The number of received bytes is
-- enough fuel for both, since a successful call takes at least one; the number of queries, and of
-- results and one more, is enough for the loops of Records. The theorems on the loops have this as
-- their hypothesis. Every other function is structurally recursive.
--
-- Not modelled: logging; the calls of the MongoDB driver in ApsMongodbLocation.cpp, which are the
-- log of Records; the send buffer of TcpSslClientSocket.cpp, which a class of the libraries flushes;
-- functions that nothing calls and whose last call, to the database, is commented out
-- (`UpdateDisconnMessge` and `AddErrorMessage` of ApsAppServerSession.cpp). Functions that only log,
-- set one member or create a singleton are left out, and so are the locks: a call is one step.
pub mod Prelude
pub mod Json
pub mod Config
pub mod Mqtt
pub mod Tls
pub mod Provider
pub mod Redis
pub mod Records
pub mod App
pub mod Apns
pub mod Listeners
pub mod Server
pub mod System
pub mod Tests
