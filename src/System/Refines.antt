-- ===== src/System/Refines.antt =====
-- The connections, in whatever order they act, keep who is online and who is in which room as
-- their frames say: the maps, the room pointers and the locks of clients.go and room.go implement
-- that much simpler state.
use go_chat_x.Common.{List, [], ◌∷◌}
use go_chat_x.Hub.View.{Chat}
use go_chat_x.Storage.Documents.{Collection}
use go_chat_x.World.{Server}
use go_chat_x.Ws.Acts.{gone, frame_action}
use go_chat_x.System.{Phase, reading, Event, frame, hang_up, System, step, connection}

module _ (C : Collection) (srv : Server) where
  open C use {State}

  -- What an event means: only a frame in the read loop, and the end of it, say who is where.
  unfoldable pub event_action : Event → Phase → System State → Chat → Chat
  event_action (frame k env f) reading s c = frame_action srv env k f (s.session k) c
  event_action (hang_up k env) reading s c = gone (s.session k).me c
  event_action _ _ s c = c

  -- What the events of a run mean, one after the other.
  unfoldable pub perform : List Event → System State → Chat → Chat
  perform [] s c = c
  perform (e ∷ es) s c =
      perform es (step C srv e s) (event_action e (s.phase (connection C srv e)) s c)
