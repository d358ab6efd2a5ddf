-- ===== src/Tests/Rooms.antt =====
-- Bob joins a room.
use go_chat_x.Common.{◌≡◌, refl}
use go_chat_x.Go.{done}
use go_chat_x.Protocol.{WsPayload}
use go_chat_x.Hub.{Hub}
use go_chat_x.Hub.Lemmas.{sent}
use go_chat_x.Ws.Chat.{on_join}
use go_chat_x.Ws.Rooms.{HasJoined, history_of, on_join-HasJoined}
use go_chat_x.Tests.Memory.{memory}
use go_chat_x.Tests.Scene.{dev, no_service, bob, lobby, world_of}

on_join-HasJoined_example :
    (g : Hub) × HasJoined "attic" bob lobby g
    × (on_join memory dev no_service 1 "attic" bob (world_of lobby) ≡ (
      done tt,
      record (world_of lobby) {
        hub =
            sent 1
              (WsPayload.joined "attic"
                (history_of memory dev no_service 1 "attic" (world_of lobby)))
              g;
      },
    ))
on_join-HasJoined_example =
    on_join-HasJoined memory dev no_service 1 "attic" bob (world_of lobby) refl
