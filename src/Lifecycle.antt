-- ===== src/Lifecycle.antt =====
-- node/controller.go and node/node.go: the start and the end of the nodes of a server, with the
-- limiters, the certificates, the inbounds, the users and the tasks. xray-core, the certificate
-- authority and the system are parameters; the answers of the panel are arguments.
pub mod Started
pub mod Running
pub mod Closing
pub mod Closed
use kknode.Base.{
  ℕ, String, Bool, true, false, not, List, [], ◌∷◌, Option, none, some, map, if◌then◌else◌,
}
use kknode.Base.Eq.{string_eq, ◌==◌}
use kknode.Base.Result.{Result, ok, err}
use kknode.Panel.{UserInfo, NodeInfo, Protocol}
use kknode.Panel.Client.{Reply, ClientError, get_user_list, get_user_alive}
use kknode.Limiter.{Registry, Limiter, add_limiter, delete_limiter}
use kknode.Users
use kknode.Users.{Core, CoreError, InboundManager}
use kknode.Node.{build_node_tag, renews_cert}
use kknode.Inbounds.{NodeError, HandlerManager, add_node, del_node}
use kknode.Inbounds.Data.{InboundDetour}
use kknode.Certs.{System, Refusals, CertError}
use kknode.Certs.Lego.{Resource, Acme}
use kknode.Certs.Request.{request_cert}
use kknode.Task.{Task, new_task, start, safe_stop}

pub data StartError : Type 0 where
  user_list_error : ClientError → StartError
  no_users : StartError
  cert_error : CertError → StartError
  add_node_error : NodeError → StartError
  add_users_error : CoreError → StartError

-- `Controller`: a pointer that is nil is `none`.
pub record Service : Type 0 where
  pub api_host : String
  pub user_etag : String
  pub tag : String
  pub limiter : Option Limiter
  pub user_list : List UserInfo
  pub info : NodeInfo
  pub user_list_monitor_periodic : Option Task
  pub user_report_periodic : Option Task
  pub renew_cert_periodic : Option Task

-- `NewController`
unfoldable pub new_controller : String → NodeInfo → Service
new_controller api_host info = record {
  api_host = api_host;
  user_etag = "";
  tag = "";
  limiter = none;
  user_list = [];
  info = info;
  user_list_monitor_periodic = none;
  user_report_periodic = none;
  renew_cert_periodic = none;
}

-- What the controllers of a server share.
pub record World (H : Type 0) : Type 0 where
  pub registry : Registry
  pub core : Core H
  pub system : System

-- `startTasks`
unfoldable pub start_tasks : Service → Service
start_tasks c = record c {
  user_list_monitor_periodic = some (start false new_task);
  user_report_periodic = some (start false new_task);
  renew_cert_periodic =
      if renews_cert c.info then some (start true new_task) else c.renew_cert_periodic;
}

-- the call of `Close` of a task, if there is one
abbrev pub close_task : Option Task → Option Task
close_task none = none
close_task (some t) = some (safe_stop t)

-- What the start of one controller depends on: the answer to `GetUserList` and the random bytes.
pub record Answers : Type 0 where
  pub reply : Option Reply
  pub random : Option String

abbrev pub users_of : Option (List UserInfo) → List UserInfo
users_of none = []
users_of (some us) = us

-- The outcome of a start: the controller and what it shares, and the error, which leaves what was
-- done before it.
abbrev pub StartOutcome : Type 0 → Type 0
StartOutcome H = (Service × World H) × Result StartError (Unit {0})

-- the last part of `Start`, behind `AddUsers`
pub start_added : {H : Type 0} → Service → World H → Result CoreError ℕ → StartOutcome H
start_added c w (err e) = ((c, w), err (add_users_error e))
start_added c w (ok added) = ((start_tasks c, w), ok tt)

module _ {C : Type 0} (users : InboundManager) (io : HandlerManager C users.Handlers)
    (build : InboundDetour → Option C) (acme : Acme) (os : Refusals)
    (self_signed : String → Option Resource) (api_dir : String) where
  open users use {Handlers}

  -- the part behind `AddNode`
  pub start_users : Service → World Handlers → Result NodeError Handlers → StartOutcome Handlers
  unfolding start_added
  start_users c w (err e) = ((c, w), err (add_node_error e))
  start_users c w (ok hs) =
      let core' : Core Handlers = record w.core { handlers = hs } in
      let (core'', added) = Users.add_users users c.tag c.info c.user_list core' in
      start_added c (record w { core = core'' }) added

  -- the part behind the certificate
  pub start_inbound :
      Answers → Service → World Handlers → Result CertError (Unit {0}) → StartOutcome Handlers
  unfolding start_users
  start_inbound a c w (err e) = ((c, w), err (cert_error e))
  start_inbound a c w (ok _) =
      let (info, r) = add_node io build a.random c.tag c.info api_dir w.core.handlers in
      start_users (record c { info = info }) w r

  -- The part behind `GetUserList`: the limiter, and a certificate only with TLS.
  pub start_listed : Answers → Service → World Handlers → List UserInfo → StartOutcome Handlers
  unfolding start_inbound
  start_listed a c w [] = ((c, w), err no_users)
  start_listed a c w (u ∷ us) =
      let tag = build_node_tag c.api_host c.info in
      let (registry', l) = add_limiter tag (u ∷ us) get_user_alive w.registry in
      let c' : Service = record c { user_list = u ∷ us; tag = tag; limiter = some l } in
      let (system', r) = request_cert acme os self_signed c.info api_dir w.system in
      if c.info.protocol.security == "tls"
      then start_inbound a c' (record w { registry = registry'; system = system' }) r
      else start_inbound a c' (record w { registry = registry' }) (ok tt)

  -- `Start` of a controller
  unfoldable pub start_controller : Answers → Service → World Handlers → StartOutcome Handlers
  unfolding start_listed
  start_controller a c w =
      let (etag, r) = get_user_list a.reply c.user_etag in
      let c' : Service = record c { user_etag = etag; user_list = [] } in
      elim r [
        | err e ↦ ((c', w), err (user_list_error e))
        | ok list ↦ start_listed a c' w (users_of list)
      ]

  -- `Close` of a controller: `false` is the error of `DelNode`
  unfoldable pub close_controller : Service → World Handlers → (Service × World Handlers) × Bool
  close_controller c w =
      let c' : Service = record c {
        user_list_monitor_periodic = close_task c.user_list_monitor_periodic;
        user_report_periodic = close_task c.user_report_periodic;
        renew_cert_periodic = close_task c.renew_cert_periodic;
      } in
      let w' : World Handlers = record w { registry = delete_limiter c.tag w.registry } in
      elim (del_node io c.tag w.core.handlers) [
        | err _ ↦ ((c', w'), false)
        | ok hs ↦ ((c', record w' { core = record w.core { handlers = hs } }), true)
      ]

  -- `Start` of a `Node`: the enabled controllers, up to the first that fails.
  unfoldable pub start_node :
      List (Answers × Service)
      → World Handlers
      → (List Service × World Handlers) × Result StartError (Unit {0})
  start_node [] w = (([], w), ok tt)
  start_node ((a, c) ∷ cs) w =
      let off = start_node cs w in
      let ((c', w'), r) = start_controller a c w in
      let rest = start_node cs w' in
      if not c.info.protocol.enable then ((c ∷ off.0.0, off.0.1), off.1) else elim r [
        | err e ↦ ((c' ∷ map (λ x. x.1) cs, w'), err e)
        | ok _ ↦ ((c' ∷ rest.0.0, rest.0.1), rest.1)
      ]

  -- `Close` of a `Node`; `none` is the panic for an error of a controller
  unfoldable pub close_node : List Service → World Handlers → Option (World Handlers)
  close_node [] w = some w
  close_node (c ∷ cs) w =
      let rest = close_node cs (close_controller c w).0.1 in
      if (close_controller c w).1 then rest else none
