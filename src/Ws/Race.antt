-- ===== src/Ws/Race.antt =====
-- What may come between the lookup of a private message's target and the send to it.
use go_chat_x.Go.{Result, ◌>>◌}
use go_chat_x.Protocol.{WsPayload}
use go_chat_x.Hub.{Client, Hub, close_chan, try_send}
use go_chat_x.Ws.Loop.{leave_all}

-- The handler of `c` cleans up and runs its deferred close of the channel, before another
-- handler, which has `c` from getOnlineClient, sends to it. Only the wait for the write goroutine,
-- which a write that has failed cuts short, stands between.
unfoldable pub overtaken : Client → WsPayload → Hub → Result (Unit {0}) × Hub
overtaken c b = leave_all c >> (close_chan c.conn >> try_send c.conn b)
