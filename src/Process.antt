-- ===== src/Process.antt =====
-- The process of cmd/gateway: its connections, and between their events the requests to its other
-- handlers. A request for /ws is the event `connect`, so that here it changes nothing.
pub mod Shuts
pub mod Safe
use Prim.Native.Char.{Char}
use go_chat_x.Common.{String, Option, List, [], ◌∷◌}
use go_chat_x.Go.{Go, done}
use go_chat_x.Storage.Documents.{Collection}
use go_chat_x.World.{Server}
use go_chat_x.System.{Event, System, start, step}
use go_chat_x.Http.{Request, Response, switched}
use go_chat_x.Site.{Site}
use go_chat_x.Auth.Backend.{Tokens}
use go_chat_x.Middleware.Limiter.{SortedSets}
use go_chat_x.Api.Backend.{AuthClient, Roles}
use go_chat_x.Gateway.{Deps, Reading, serve}

pub record Process (S T R : Type 0) : Type 0 where
  pub system : System S
  pub table : T
  pub limits : R
  pub files : List String

pub data Action : Type 0 where
  socket : Event → Action
  request : Reading → Request → Action

module _ {S T R : Type 0} where
  unfoldable pub site_of : Process S T R → Site S T R
  site_of p = record { world = p.system.world; table = p.table; limits = p.limits; files = p.files }

  unfoldable pub back : Process S T R → Site S T R → Process S T R
  back p s = record {
    system = record p.system { world = s.world };
    table = s.table;
    limits = s.limits;
    files = s.files;
  }

  unfoldable pub handed_over : Request → Go (Site S T R) Response
  handed_over r s = (done (record { status = 101; body = switched }), s)

  unfoldable pub boot : S → T → R → Process S T R
  boot store table limits = record {
    system = start store;
    table = table;
    limits = limits;
    files = [];
  }

-- HandleWS hands its connection over to System.
abbrev pub in_process : {S T R : Type 0} → Deps S T R → Deps S T R
in_process D = record D { handle_ws = handed_over }

module _ {T : Type 0} (C : Collection) (R : SortedSets) (D : Deps C.State T R.State) where
  unfoldable pub act : Action → Process C.State T R.State → Process C.State T R.State
  act (socket e) p = record p { system = step C D.srv e p.system }
  act (request x r) p = back p (serve R (in_process D) x r (site_of p)).1

  unfoldable pub act_all : List Action → Process C.State T R.State → Process C.State T R.State
  act_all [] p = p
  act_all (a ∷ rest) p = act_all rest (act a p)
