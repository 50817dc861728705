-- ===== src/Tests/Clients.antt =====
-- Tests of what a publish request leaves at the clients of both platforms.
use pushserver.Prelude.{◌≡◌, refl, Bool, [], ◌∷◌, true, codes, arith, replicate, List, ok, map}
use pushserver.App.Session.{Session, publish_all}
use pushserver.App.Session.Clients.{Clients, perform}
use pushserver.App.Session.Clients.Device.{Device, apple, other, entry, Delivered}
use pushserver.App.Session.Clients.Delivered.{publish_all-perform}
use pushserver.Tests.Data.{toy, redis, request, open_session, token, message, client}

-- Both of Apple's devices have the same token. The first `Send` to the TLS listener fails.
abbrev pub devices : List Device
devices =
    apple token ∷ other token (codes "android") ∷ apple token ∷ other token (codes "android") ∷ []

abbrev pub clients : Clients
clients = record {
  pool = record { message_id = 4294967295; advance = client };
  c2dm = record {
    data_ = record { sz_token = replicate 35 0; sz_payload = replicate 258 0 };
    log = [];
  };
  outcomes = true ∷ [];
}

nothing_yet : perform {J = toy} message (replicate 32 0) [] clients ≡ ok clients
unfolding perform
nothing_yet = refl

publish_all-perform_example :
    (s' : Session toy) × (flag : Bool) × (c1 : Clients) × (publish_all toy redis request
        (map entry devices)
        open_session
      ≡ ok (s', flag))
    × (perform message (replicate 32 0) s'.log clients ≡ ok c1)
    × Delivered redis (codes "hello") (codes "hello") devices clients c1
publish_all-perform_example =
    publish_all-perform redis request message (replicate 32 0) (codes "hello") (codes "hello") refl
      refl (omega arith) (omega arith) clients devices open_session clients
      (
        (refl, ground arith),
        (
          (refl, ground arith, refl, omega arith),
          ((refl, ground arith), ((refl, ground arith, refl, omega arith), tt)),
        ),
      )
      nothing_yet
