-- ===== src/Tests/Serving.antt =====
-- Runs of core/inbound.go, node/cert.go, node/lego.go, node/controller.go and node/node.go.
use kknode.Base.{
  String, ◌≡◌, refl, true, false, List, [], ◌∷◌, Option, none, some, is_some, inl, inr,
  if◌then◌else◌,
}
use kknode.Base.Int.{pos}
use kknode.Base.Eq.{string_eq, ◌==◌}
use kknode.Base.Map.{load, store}
use kknode.Base.Result.{ok, ◌>>=◌}
use kknode.Base.Text.Paths.{join_path, hex_of, dir_of}
use kknode.Base.Text.Base64.{encode}
use kknode.Limiter.{new_limiter}
use kknode.Panel.{NodeInfo}
use kknode.Panel.Client.{get_user_list}
use kknode.Base.Text.{has_prefix, itoa, join, split}
use kknode.Users.{add_users}
use kknode.Users.Accounts.{build_users}
use kknode.Node.{build_node_tag}
use kknode.Inbounds.{HandlerManager, complete, build_inbound, add_node, del_node, cert_path}
use kknode.Inbounds.Data.{InboundDetour, InboundStream, with_stream, trojan, tcp, tls}
use kknode.Inbounds.Protocols.{build_trojan, build_shadowsocks}
use kknode.Inbounds.Accepted.{is_ok, accepts, built_of, build_inbound-is_ok}
use kknode.Certs.{System, Refusals, is_exist, check_path, write_file, read_file}
use kknode.Certs.Lego.{Resource, Acme, new_lego, create_cert, renew_cert}
use kknode.Certs.Request.{request_cert, renew_cert_task}
use kknode.Certs.Served.{request_cert-build_inbound}
use kknode.Lifecycle.{
  Answers, Service, World, new_controller, start_controller, start_node, close_node,
  close_controller, start_tasks,
}
use kknode.Lifecycle.Started.{IsServing, start_controller-IsServing}
use kknode.Lifecycle.Closing.{close_node-start_node}
use kknode.Tests.Accounting.{blank_protocol, alice, core, open_manager}

program : Unit {0}
unfolding load store join_path hex_of dir_of encode new_limiter build_node_tag complete
    build_inbound build_shadowsocks cert_path is_exist request_cert renew_cert_task new_controller
    start_controller start_node close_node get_user_list has_prefix itoa join split add_users
    build_users add_node del_node build_trojan check_path write_file read_file new_lego create_cert
    renew_cert close_controller start_tasks
program = tt

paths :
    (join_path "/etc//kknode/./x/.." "a.cer" ≡ "/etc/kknode/a.cer") × (dir_of "/etc/a.cer" ≡ "/etc")
unfolding program
paths = (refl, refl)

abbrev pub trojan_node : NodeInfo
trojan_node = record {
  id = pos 7;
  node_type = "trojan";
  push_interval = pos 60;
  pull_interval = pos 60;
  traffic_report_threshold = pos 0;
  protocol = record blank_protocol {
    node_type = "trojan";
    enable = true;
    port = pos 443;
    security = "tls";
    sni = "example.org";
    transport = "tcp";
    cert_mode = "http";
  };
}

abbrev trojan_detour : InboundDetour
trojan_detour =
    complete "/etc/kknode" trojan_node "n" (with_stream "trojan" trojan "tcp" (tcp none))

trojan_inbound : (build_inbound some none trojan_node "n" "/etc/kknode").1 ≡ ok trojan_detour
unfolding program
trojan_inbound = refl

build_inbound-is_ok_example :
    (is_ok (build_inbound some none trojan_node "n" "/etc/kknode").1
      ≡ accepts false "trojan" trojan_node.protocol)
    × ((build_inbound (λ d. some d.tag) none trojan_node "n" "/etc/kknode").1 ≡ (
        (build_inbound some none trojan_node "n" "/etc/kknode").1
        >>= built_of (λ (d : InboundDetour). some d.tag)))
build_inbound-is_ok_example =
    build_inbound-is_ok (λ (d : InboundDetour). some d.tag) none trojan_node "n" "/etc/kknode"

-- An authority that grants every certificate.
abbrev pub authority : Acme
authority = record {
  Key = Unit {0};
  Registration = Unit {0};
  Provider = Unit {0};
  Client = Unit {0};
  generate_key = some tt;
  encode_private = λ k. "key";
  pem_decode = λ text. some text;
  parse_key = λ text. some tt;
  encode_user = λ u. some u.email;
  decode_user =
      λ text. some (record { email = text; registration = none; key = none; key_encoded = "key" });
  new_client = λ u. some tt;
  register = λ c. some tt;
  set_http01 = λ c. some c;
  dns_provider = λ name env. some tt;
  set_dns01 = λ p c. some c;
  obtain = λ domains c. some (record { certificate = "cert"; private_key = "secret" });
  renew = λ domain old c. some (record { certificate = "new"; private_key = "secret" });
  days_left = λ text. some (pos 10);
}

abbrev pub permissive : Refusals
permissive = record { refuses = λ path. false; hides = λ path. false }

abbrev pub no_self_signed : String → Option Resource
no_self_signed domain = none

abbrev pub empty_system : System
empty_system = record { files = []; dirs = []; env = [] }

abbrev after_request : System
after_request =
    (request_cert authority permissive no_self_signed trojan_node "/etc/kknode" empty_system).0

requested :
    (load "/etc/kknode/trojan7.cer" after_request.files ≡ some "cert")
    × (load "/etc/kknode/trojan7.cer"
          (renew_cert_task authority permissive trojan_node "/etc/kknode" after_request).files
        ≡ some "new")
unfolding program
requested = (refl, refl)

request_cert-build_inbound_example :
    (stream : InboundStream) × (alpn : List String) × (cert : String) × (key : String)
    × (trojan_detour.stream ≡ some stream)
    × (stream.security ≡ tls alpn cert key)
    × (is_exist permissive cert after_request ≡ true)
    × (is_exist permissive key after_request ≡ true)
unfolding program
request_cert-build_inbound_example =
    request_cert-build_inbound authority permissive no_self_signed none trojan_node "n"
      "/etc/kknode" empty_system {d = trojan_detour} refl refl refl refl

-- Handlers that are known by their tags.
abbrev pub tag_manager : HandlerManager InboundDetour (List String)
tag_manager = record {
  Object = InboundDetour;
  Handler = InboundDetour;
  create_object = λ c. some c;
  as_handler = λ o. some o;
  add_handler = λ h hs. some (h.tag ∷ hs);
  remove_handler = λ tag hs. if tag == "" then none else some [];
}

abbrev pub answers : Answers
answers = record {
  reply = some (record { status = 200; failed = false; etag = "e"; users = some (alice ∷ []) });
  random = none;
}

abbrev world : World (List String)
world = record { registry = []; core = core; system = empty_system }

abbrev controller : Service
controller = new_controller "https://panel" trojan_node

start_controller-IsServing_example :
    IsServing open_manager tag_manager some authority permissive no_self_signed "/etc/kknode"
      answers controller
      (start_controller open_manager tag_manager some authority permissive no_self_signed
        "/etc/kknode" answers controller world)
unfolding program
start_controller-IsServing_example =
    start_controller-IsServing open_manager tag_manager some authority permissive no_self_signed
      "/etc/kknode" answers controller world refl

abbrev disabled_node : NodeInfo
disabled_node = record trojan_node { protocol = record blank_protocol { node_type = "vless" } }

abbrev services : List (Answers × Service)
services = (answers, controller) ∷ (answers, new_controller "https://panel" disabled_node) ∷ []

abbrev started : List Service × World (List String)
started =
    (start_node open_manager tag_manager some authority permissive no_self_signed "/etc/kknode"
      services world).0

-- Without the disabled protocol the node closes.
closes :
    is_some (
      close_node open_manager tag_manager some authority permissive no_self_signed "/etc/kknode"
        (start_node open_manager tag_manager some authority permissive no_self_signed "/etc/kknode"
          ((answers, controller) ∷ [])
          world).0.0
        started.1)
    ≡ true
unfolding program
closes = refl

close_node-start_node_example :
    close_node open_manager tag_manager some authority permissive no_self_signed "/etc/kknode"
      started.0 started.1
    ≡ none
unfolding program
close_node-start_node_example =
    close_node-start_node open_manager tag_manager some authority permissive no_self_signed
      "/etc/kknode" (λ hs. refl) services answers "https://panel" disabled_node world started.1 refl
      (inr (inl refl))
