-- ===== src/System/Sound.antt =====
-- Whatever the connections do, the maps and the channels stay sound.
use go_chat_x.Common.{List}
use go_chat_x.Hub.Sound.{IsSound, init-IsSound, IsSound-HubRules}
use go_chat_x.Storage.Documents.{Collection}
use go_chat_x.World.{Server}
use go_chat_x.Ws.Sound.{write_next-IsSound}
use go_chat_x.System.{Event, start, run}
use go_chat_x.System.Holds.{run-OnHub}

module _ (C : Collection) (srv : Server) where
  open C use {State}

  -- Whatever the connections send and the services answer, in every order of events: each client
  -- stands under its own user ID among the users online and in every room, each room of the table
  -- stands under its own ID, and no send channel holds more than 256 payloads.
  pub run-IsSound :
      (store : State) (es : List Event) → IsSound (run C srv es (start store)).world.hub
  unfolding start
  run-IsSound store es =
      (run-OnHub C srv IsSound-HubRules write_next-IsSound es (start store)
        (record { hub_holds = init-IsSound })).hub_holds
