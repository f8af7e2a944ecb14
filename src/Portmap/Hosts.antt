-- ===== src/Portmap/Hosts.antt =====
-- The report of a conflict: every host of the group once, with the labels of all its records.
use kknode.Base.{
  String, ◌≡◌, refl, sym, Bool, false, ◌||◌, List, [], ◌∷◌, ◌++◌, append_assoc, append-nil, map,
  if◌then◌else◌, filter, arith,
}
use kknode.Base.Eq.{string_eq, ◌==◌}
use kknode.Portmap.{PortRangeRecord, shown_label, add_label, group_hosts}

-- the labels of a host in the table, none if it is not there
abbrev pub labels_of : String → List (String × List String) → List String
labels_of h [] = []
labels_of h ((k, ls) ∷ hosts) = if k == h then ls else labels_of h hosts

abbrev pub of_host : String → List PortRangeRecord → List PortRangeRecord
of_host h = filter (λ r. r.host == h)

abbrev pub has_host : String → List (String × List String) → Bool
has_host h [] = false
has_host h ((k, ls) ∷ hosts) = k == h || has_host h hosts

-- No host stands twice.
abbrev pub Once : List (String × List String) → Type 0
Once [] = Unit
Once ((k, ls) ∷ hosts) = (has_host k hosts ≡ false) × Once hosts

labels_of-add_label :
    (h host label : String) (hosts : List (String × List String))
    → labels_of h (add_label host label hosts)
      ≡ (if host == h then labels_of h hosts ++ label ∷ [] else labels_of h hosts)
unfolding add_label
labels_of-add_label h host label [] = ground arith
labels_of-add_label h host label ((k, ls) ∷ hosts) = ground (
  arith,
  labels_of-add_label h host label hosts,
  string_eq.beq_iff k h,
  string_eq.beq_iff host h,
  string_eq.beq_iff k host,
)

has_host-add_label :
    (h host label : String) (hosts : List (String × List String))
    → has_host h (add_label host label hosts) ≡ (host == h || has_host h hosts)
unfolding add_label
has_host-add_label h host label [] = ground arith
has_host-add_label h host label ((k, ls) ∷ hosts) = ground (
  arith,
  has_host-add_label h host label hosts,
  string_eq.beq_iff k h,
  string_eq.beq_iff host h,
  string_eq.beq_iff k host,
)

add_label-Once :
    (host label : String) (hosts : List (String × List String))
    → Once hosts
    → Once (add_label host label hosts)
unfolding add_label
add_label-Once host label [] o = (refl, tt)
add_label-Once host label ((k, ls) ∷ hosts) o = ground (
  arith,
  add_label-Once host label hosts o.1,
  has_host-add_label k host label hosts,
  string_eq.beq_iff k host,
  string_eq.beq_iff host k,
)

group_hosts-labels :
    (h : String) (b : Bool) (rs : List PortRangeRecord) (hosts : List (String × List String))
    → labels_of h (group_hosts b rs hosts) ≡ labels_of h hosts ++ map (shown_label b) (of_host h rs)
unfolding group_hosts
group_hosts-labels h b [] hosts = sym (append-nil _)
group_hosts-labels h b (r ∷ rs) hosts = ground (
  arith,
  group_hosts-labels h b rs (add_label r.host (shown_label b r) hosts),
  labels_of-add_label h r.host (shown_label b r) hosts,
  append_assoc (labels_of h hosts) (shown_label b r ∷ []) (map (shown_label b) (of_host h rs)),
)

group_hosts-Once :
    (b : Bool) (rs : List PortRangeRecord) (hosts : List (String × List String))
    → Once hosts
    → Once (group_hosts b rs hosts)
unfolding group_hosts
group_hosts-Once b [] hosts o = o
group_hosts-Once b (r ∷ rs) hosts o =
    group_hosts-Once b rs _ (add_label-Once r.host (shown_label b r) hosts o)

-- In the report of a group each host stands once, with the labels of its records in their order.
pub group_hosts_lem :
    (b : Bool) (rs : List PortRangeRecord)
    → Once (group_hosts b rs [])
      × ((h : String) → labels_of h (group_hosts b rs []) ≡ map (shown_label b) (of_host h rs))
group_hosts_lem b rs = (group_hosts-Once b rs [] tt, λ h. group_hosts-labels h b rs [])
