-- ===== src/Tests/Order.antt =====
-- What ann and bob see of a whole run.
use go_chat_x.Common.{
  ℕ, zero, suc, ◌≡◌, refl, arith, true, false, length, some, List, [], ◌∷◌, ◌++◌, All,
}
use go_chat_x.GoMap.{lookup, insert}
use go_chat_x.Go.{done, ◌>>=◌, when, if_some, pure, gets, modify, for_each, panics}
use go_chat_x.Protocol.{WsMsg, WsPayload, Kind, message, kind, send}
use go_chat_x.Hub.{
  Hub, members, register_online, init, try_send, offer, get_or_create_room, peek_room, create_room,
  broadcast, get_online_client, allocate_room, add_client, new_room, set_clients,
}
use go_chat_x.Storage.Documents.{Document, select, hold, holds}
use go_chat_x.World.{World, on_hub, redis_do, send_json, spawn_save}
use go_chat_x.Storage.{
  pull_undelivered_for_user, after_read, read_cursor, decode_all, mark_delivered, query_history,
}
use go_chat_x.Ws.Auth.{on_auth, auth_dev, log_in, push_undelivered, pull_undelivered, push_all}
use go_chat_x.Ws.Loop.{write_next, take_oldest, on_frame, dispatch, with_user}
use go_chat_x.Ws.Chat.{
  private_message, on_private, room_message, on_send, on_join, load_history, found_or_empty,
}
use go_chat_x.System.{
  Event, reading, connect, frame, write, System, start, run, step, step_at, connection, settle,
  write_turn, goes_on,
}
use go_chat_x.System.Fifo.{turns, serves, writes_to, queue, written}
use mathlib.Core.List.{Mem}
use go_chat_x.System.Arrives.{send-written, private-written}
use go_chat_x.System.Once.{has_conn, told, run-on_send}
use go_chat_x.Tests.Memory.{memory, find_in, take, arrange}
use go_chat_x.Tests.Scene.{dev, no_service, msg, user, bob}
use go_chat_x.Tests.Runs.{LogsInAs-dev, LogsInAs-none}
use go_chat_x.System.Safe.{IsEventOf}

abbrev fresh_start : System (List Document)
fresh_start = start []

-- The write goroutine of the connection `k` runs `n` times, and no write fails.
writing : ℕ → ℕ → List Event
writing k zero = []
writing k (suc n) = write k false ∷ writing k n

-- The write goroutine of `k` runs, and its connection is open.
record CanWrite (k : ℕ) (s : System (List Document)) : Type 0 where
  runs : s.writing k ≡ true
  not_shut : s.world.hub.shut k ≡ false
  is_open : (s.world.hub.chan k).closed ≡ false

write-CanWrite :
    (k : ℕ) (s : System (List Document))
    → CanWrite k s
    → CanWrite k (step memory dev (write k false) s)
unfolding step step_at connection write_turn goes_on on_hub write_next take_oldest modify
write-CanWrite k s v = rw v.runs (record {
  runs = ground (arith, v.not_shut, v.is_open);
  not_shut = v.not_shut;
  is_open = ground (arith, v.is_open);
})

turns-writing :
    (k n : ℕ) (s : System (List Document)) → CanWrite k s → turns memory dev k (writing k n) s ≡ n
unfolding turns serves writes_to writing
turns-writing k zero s v = refl
turns-writing k (suc n) s v =
    ground (arith, turns-writing k n _ (write-CanWrite k s v), v.runs, v.not_shut)

abbrev gathering : List Event
gathering =
    connect 1
    ∷ frame 1 no_service (message (msg "auth" "bob" "" "" ""))
    ∷ frame 1 no_service (message (msg "join" "" "lobby" "" ""))
    ∷ []

abbrev gathered_state : System (List Document)
gathered_state = run memory dev gathering fresh_start

-- Bob is served, signed in and in the lobby, and has two payloads in his channel.
gathered_lem :
    (lookup "lobby" gathered_state.world.hub.rooms ≡ some 0)
    × (gathered_state.phase 1 ≡ reading)
    × ((gathered_state.session 1).me ≡ some bob)
    × (has_conn 1 (members 0 gathered_state.world.hub) ≡ true)
    × (length (queue memory dev 1 gathered_state) ≡ 2)
    × (lookup "bob" gathered_state.world.hub.online ≡ some bob)
unfolding lookup insert run step step_at start connection settle on_frame dispatch kind on_auth
    auth_dev log_in ◌>>=◌ on_hub register_online push_undelivered when pull_undelivered
    pull_undelivered_for_user after_read read_cursor decode_all mark_delivered if_some pure gets
    modify init redis_do send_json try_send offer with_user on_join get_or_create_room peek_room
    create_room allocate_room add_client load_history new_room set_clients found_or_empty
    query_history push_all find_in take arrange select hold holds has_conn members
gathered_lem = (refl, refl, refl, refl, refl, refl)

gathering-IsEventOf : All (IsEventOf memory dev user) gathering
gathering-IsEventOf = (tt, (λ _. LogsInAs-dev "bob", (λ _. LogsInAs-none "bob", tt)))

abbrev gathered : World (List Document)
gathered = gathered_state.world

run-on_send_example : on_send memory dev no_service 1 "lobby" "hi" bob gathered ≡ (
  done tt,
  record gathered {
    hub = told (members 0 gathered.hub) (WsPayload.chat "bob" "lobby" 1000 "hi") gathered.hub;
    pending = gathered.pending ++ room_message no_service bob "lobby" "hi" ∷ [];
  },
)
run-on_send_example =
    run-on_send memory dev user [] gathering refl gathering-IsEventOf no_service 1 "lobby" "hi" bob
      0 gathered_lem.0

send-IsKind : kind "send" ≡ send
unfolding kind
send-IsKind = refl

abbrev greeting : WsMsg
greeting = msg "send" "" "lobby" "" "hi"

greeted-CanWrite :
    CanWrite 1 (step memory dev (frame 1 no_service (message greeting)) gathered_state)
unfolding lookup insert run step step_at start connection settle on_frame dispatch kind on_auth
    auth_dev log_in ◌>>=◌ on_hub register_online push_undelivered when pull_undelivered
    pull_undelivered_for_user after_read read_cursor decode_all mark_delivered if_some pure gets
    modify init redis_do send_json try_send offer with_user on_join get_or_create_room peek_room
    create_room allocate_room add_client load_history new_room set_clients found_or_empty
    query_history push_all find_in take arrange select hold holds has_conn members on_send broadcast
    on_private get_online_client spawn_save room_message private_message for_each panics
greeted-CanWrite = record { runs = refl; not_shut = refl; is_open = refl }

send-written_example :
    Mem
      (WsPayload.chat "bob" "lobby" 1000 "hi")
      (written memory dev 1 (frame 1 no_service (message greeting) ∷ writing 1 256) gathered_state)
send-written_example =
    let (found, reads, signed, member, two, _) = gathered_lem in
    send-written memory dev user [] gathering (writing 1 256) 1 1 0 no_service greeting bob refl
      gathering-IsEventOf reads signed send-IsKind found member (omega (arith, two))
      (omega (arith, turns-writing 1 256 _ greeted-CanWrite))

private-IsKind : kind "private" ≡ Kind.private
unfolding kind
private-IsKind = refl

abbrev note : WsMsg
note = msg "private" "" "" "bob" "note"

noted-CanWrite : CanWrite 1 (step memory dev (frame 1 no_service (message note)) gathered_state)
unfolding lookup insert run step step_at start connection settle on_frame dispatch kind on_auth
    auth_dev log_in ◌>>=◌ on_hub register_online push_undelivered when pull_undelivered
    pull_undelivered_for_user after_read read_cursor decode_all mark_delivered if_some pure gets
    modify init redis_do send_json try_send offer with_user on_join get_or_create_room peek_room
    create_room allocate_room add_client load_history new_room set_clients found_or_empty
    query_history push_all find_in take arrange select hold holds has_conn members on_send broadcast
    on_private get_online_client spawn_save room_message private_message for_each panics
noted-CanWrite = record { runs = refl; not_shut = refl; is_open = refl }

-- Bob writes to himself.
private-written_example :
    Mem
      (WsPayload.private "bob" "bob" 1000 "note")
      (written memory dev 1 (frame 1 no_service (message note) ∷ writing 1 256) gathered_state)
private-written_example =
    let (_, reads, signed, _, two, online) = gathered_lem in
    private-written memory dev user [] gathering (writing 1 256) 1 no_service note bob bob refl
      gathering-IsEventOf reads signed private-IsKind online (omega (arith, two))
      (omega (arith, turns-writing 1 256 _ noted-CanWrite))
