-- ===== src/Tests/Runs.antt =====
-- The gateway's theorems for ann and bob.
use go_chat_x.Common.{String, ◌≡◌, ◌≢◌, refl, inl, inr, arith, none, []}
use go_chat_x.Go.{done}
use go_chat_x.Protocol.{message, kind, auth}
use go_chat_x.Hub.Sound.{IsSound}
use go_chat_x.System.{start, run}
use go_chat_x.System.Sound.{run-IsSound}
use go_chat_x.World.{Session, no_session}
use go_chat_x.Ws.Gate.{answer, answered, on_frame_unauthenticated}
use go_chat_x.Ws.Limits.{one_more, turned_away, on_frame-too_many}
use go_chat_x.Ws.Loop.{on_frame}
use go_chat_x.Ws.Auth.{accepted}
use go_chat_x.Ws.Frames.{LogsInAs}
use go_chat_x.Tests.Memory.{memory}
use go_chat_x.Tests.Scene.{dev, service, no_service, strict, msg, lobby, world_of, evening}

pub LogsInAs-dev : (u : String) → LogsInAs dev no_service u u
unfolding accepted
LogsInAs-dev u = record { in_dev = λ _. inr refl; by_service = λ v e. absurd (ground arith) }

pub LogsInAs-none : (u : String) → LogsInAs dev no_service u ""
unfolding accepted
LogsInAs-none u = record { in_dev = λ _. inl refl; by_service = λ v e. absurd (ground arith) }

auth-kind : kind "auth" ≡ auth
unfolding kind
auth-kind = refl

join-IsOther : kind "join" ≢ auth
unfolding kind
join-IsOther e = absurd (ground arith)

abbrev tired : Session
tired = record { me = none; auth_attempts = 3; last_seen = 0 }

run-IsSound_example : IsSound (run memory dev evening (start [])).world.hub
run-IsSound_example = run-IsSound memory dev [] evening

on_frame_unauthenticated_example :
    on_frame memory service strict 0
      (message (msg "join" "" "lobby" "" ""))
      no_session
      (world_of lobby)
    ≡ (
      done no_session,
      answered 0 (answer strict (message (msg "join" "" "lobby" "" ""))) (world_of lobby),
    )
on_frame_unauthenticated_example =
    on_frame_unauthenticated memory service strict 0 no_session (world_of lobby) refl refl
      (message (msg "join" "" "lobby" "" "")) join-IsOther

on_frame-too_many_example :
    on_frame memory service strict 0 (message (msg "auth" "ann" "" "" "")) tired (world_of lobby)
    ≡ (done (one_more tired), turned_away 0 "too many auth attempts" (world_of lobby))
on_frame-too_many_example =
    on_frame-too_many memory service strict 0 (msg "auth" "ann" "" "" "") tired (world_of lobby)
      refl auth-kind (omega arith) refl
