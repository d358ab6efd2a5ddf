-- ===== src/Site.antt =====
-- What the handlers of the gateway share: the chat, the table of users, the sorted sets of the rate
-- limiter, and the names of the files that Upload has created.
use go_chat_x.Common.{String, List}
use go_chat_x.Go.{Go}
use go_chat_x.Hub.{Hub}
use go_chat_x.World.{World, on_hub}

pub record Site (S T R : Type 0) : Type 0 where
  pub world : World S
  pub table : T
  pub limits : R
  pub files : List String

module _ {S T R A : Type 0} where
  unfoldable pub on_chat : Go Hub A → Go (Site S T R) A
  on_chat m s = let (r, w) = on_hub m s.world in (r, record s { world = w })
