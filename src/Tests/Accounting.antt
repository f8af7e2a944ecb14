-- ===== src/Tests/Accounting.antt =====
-- Runs of the counters, the links and core/user.go.
use kknode.Base.{ℕ, String, ◌≡◌, refl, true, false, List, [], ◌∷◌, none, some, All}
use kknode.Base.Int.{pos, wrap64, ◌+ℤ◌, ◌*ℤ◌, ◌≤ℤ◌}
use kknode.Base.Eq.{string_eq, nat_eq}
use kknode.Base.Map.{load, load_or, store, delete}
use kknode.Counter.{TrafficCounter, get_up_count, get_down_count, rx, tx, reset, delete_counter}
use kknode.Limiter.{user_tag}
use kknode.Links.{LinkManager, Closed, close_all, has, close_all_lem}
use kknode.Panel.{UserInfo, NodeInfo, Protocol}
use kknode.Users.{
  HandlerKind, InboundManager, Core, get_user_traffic_slice, del_users, add_users, get_user_manager,
}
use kknode.Users.Accounts.{User, vless, build_users}
use kknode.Users.Accounts.Emails.{user_tags, emails, build_users-emails}
use kknode.Users.Removal.{record_of, del_users-record_of}
use kknode.Users.Traffic.{
  up_total, down_total, upload_sum, download_sum, counters_of, IsReport, get_user_traffic_slice_lem,
}

program : Unit {0}
unfolding load load_or store delete get_up_count get_down_count rx tx reset delete_counter user_tag
    close_all get_user_traffic_slice del_users add_users get_user_manager build_users record_of
    counters_of
program = tt

abbrev counters : TrafficCounter
counters =
    ("n|a", record { up_counter = pos 7000; down_counter = pos 5000 })
    ∷ ("n|b", record { up_counter = pos 10; down_counter = pos 0 })
    ∷ []

abbrev two_links : LinkManager
two_links = record { links = (1, 11) ∷ (2, 12) ∷ [] }

abbrev nothing_closed : Closed
nothing_closed = record { writers = []; readers = [] }

close_all_lem_example :
    (load 2 (close_all two_links nothing_closed).0.links ≡ none)
    × ((r : ℕ)
        → load 2 two_links.links ≡ some r
        → (has 2 (close_all two_links nothing_closed).1.writers ≡ true)
          × (has r (close_all two_links nothing_closed).1.readers ≡ true))
close_all_lem_example = close_all_lem two_links nothing_closed 2

-- Handlers that take every user.
abbrev pub open_manager : InboundManager
open_manager = record {
  Handlers = List String;
  get_handler = λ tag h. HandlerKind.managed;
  remove_user = λ tag email h. some h;
  to_memory_user = λ u. true;
  add_user = λ tag u h. some (u.email ∷ h);
}

abbrev pub core : Core (List String)
core = record {
  uid_map = ("n|a", pos 1) ∷ ("n|b", pos 2) ∷ [];
  counter = ("n", counters) ∷ [];
  link_managers = ("n|a", two_links) ∷ [];
  closed = nothing_closed;
  handlers = [];
}

abbrev pub alice : UserInfo
alice = record { id = pos 1; uuid = "a"; speed_limit = pos 10; device_limit = pos 1 }

abbrev pub bob : UserInfo
bob = record { id = pos 2; uuid = "b"; speed_limit = pos 0; device_limit = pos 0 }

del_users-record_of_example :
    record_of "n" "n|b" (del_users open_manager (alice ∷ []) "n" core).0 ≡ record_of "n" "n|b" core
unfolding program
del_users-record_of_example = del_users-record_of open_manager "n" "n|b" (alice ∷ []) core refl

get_user_traffic_slice_lem_example :
    let (v', out) = get_user_traffic_slice "n" (pos 10) core in
    (up_total core.uid_map (counters_of "n" core)
      ≡ up_total core.uid_map (counters_of "n" v') +ℤ upload_sum out)
    × (down_total core.uid_map (counters_of "n" core)
        ≡ down_total core.uid_map (counters_of "n" v') +ℤ download_sum out)
    × All (IsReport (pos 10)) out
    × (pos 0 ≤ℤ wrap64 (pos 10 *ℤ pos 1000) → (get_user_traffic_slice "n" (pos 10) v').1 ≡ [])
get_user_traffic_slice_lem_example = get_user_traffic_slice_lem "n" (pos 10) core

abbrev pub blank_protocol : Protocol
blank_protocol = record {
  node_type = "";
  port = pos 0;
  enable = false;
  security = "";
  sni = "";
  allow_insecure = false;
  fingerprint = "";
  reality_server_addr = "";
  reality_server_port = pos 0;
  reality_private_key = "";
  reality_public_key = "";
  reality_short_id = "";
  transport = "";
  host = "";
  path = "";
  service_name = "";
  cipher = "";
  server_key = "";
  flow = "";
  hop_ports = "";
  hop_interval = pos 0;
  obfs_password = "";
  disable_sni = false;
  reduce_rtt = false;
  udp_relay_mode = "";
  congestion_controller = "";
  multiplex = "";
  padding_scheme = "";
  up_mbps = pos 0;
  down_mbps = pos 0;
  obfs = "";
  obfs_host = "";
  obfs_path = "";
  xhttp_mode = "";
  xhttp_extra = "";
  encryption = "";
  encryption_mode = "";
  encryption_rtt = "";
  encryption_ticket = "";
  encryption_server_padding = "";
  encryption_private_key = "";
  encryption_client_padding = "";
  encryption_password = "";
  cert_mode = "";
  cert_dns_provider = "";
  cert_dns_env = "";
}

abbrev pub vless_node : NodeInfo
vless_node = record {
  id = pos 1;
  node_type = "vless";
  push_interval = pos 60;
  pull_interval = pos 60;
  traffic_report_threshold = pos 10;
  protocol = blank_protocol;
}

abbrev accounts : List User
accounts =
    record { level = 0; email = "n|a"; account = vless "a" "" }
    ∷ record { level = 0; email = "n|b"; account = vless "b" "" }
    ∷ []

build_users-emails_example : emails accounts ≡ user_tags "n" (alice ∷ bob ∷ [])
unfolding program
build_users-emails_example = build_users-emails "n" vless_node (alice ∷ bob ∷ []) accounts refl
