-- ===== src/Portmap.antt =====
-- common/portmap/portmap.go: the ranges of hop ports, the conflicts among the ports of all
-- backends, and their report.
pub mod Parse
pub mod Ports
pub mod Overlap
pub mod Groups
pub mod Hosts
pub mod Mapping
use kknode.Base.{
  String, Bool, true, false, not, ◌&&◌, ◌||◌, List, [], ◌∷◌, ◌++◌, Option, none, some, map,
  if◌then◌else◌, length, filter, leb,
}
use kknode.Base.Int.{ℤ, pos, ltb_ℤ, leb_ℤ, eqb_ℤ}
use kknode.Base.Eq.{string_eq, ◌==◌}
use kknode.Base.Result.{Result, ok, err, ◌>>=◌, ◌>>◌}
use kknode.Base.Text.{concat, join, itoa, atoi, trim_space, cut}

-- the errors of `ParseHopPorts`
pub data HopError : Type 0 where
  bad_format bad_start bad_end out_of_range inverted : HopError

abbrev pub or_fail {ℓ} : {A : Type ℓ} → Option A → HopError → Result HopError A
or_fail none e = err e
or_fail (some a) e = ok a

-- the tests on the two ports of a range
unfoldable pub check_range : ℤ → ℤ → Result HopError (ℤ × ℤ)
check_range start end =
    if ltb_ℤ start (pos 1) || ltb_ℤ end (pos 1) || ltb_ℤ (pos 65535) start || ltb_ℤ (pos 65535) end
    then err out_of_range
    else if ltb_ℤ end start
    then err inverted
    else ok (start, end)

unfoldable pub parse_hop_ports : String → Result HopError (ℤ × ℤ)
parse_hop_ports hop_ports =
    let s = trim_space hop_ports in
    if s == "" then ok (pos 0, pos 0) else do
      (left, right) ← or_fail (cut b'-' s) bad_format
      start ← or_fail (atoi (trim_space left)) bad_start
      end ← or_fail (atoi (trim_space right)) bad_end
      check_range start end

-- a port or a range of ports that a protocol of a backend uses
pub record PortRangeRecord : Type 0 where
  pub start : ℤ
  pub end : ℤ
  pub host : String
  pub label : String

-- records that overlap, and the range that covers them
pub record PortConflictGroup : Type 0 where
  pub start : ℤ
  pub end : ℤ
  pub records : List PortRangeRecord

abbrev pub overlaps : ℤ → ℤ → ℤ → ℤ → Bool
overlaps a_start a_end b_start b_end = leb_ℤ a_start b_end && leb_ℤ b_start a_end

-- The record meets the group's range.
abbrev pub meets : PortRangeRecord → PortConflictGroup → Bool
meets r g = overlaps r.start r.end g.start g.end

-- the smaller start and the larger end, as the two `if` statements leave them
unfoldable pub cover : PortConflictGroup → ℤ → ℤ → List PortRangeRecord → PortConflictGroup
cover g start end rs = record {
  start = if ltb_ℤ start g.start then start else g.start;
  end = if ltb_ℤ g.end end then end else g.end;
  records = g.records ++ rs;
}

-- The loop over `mergeIndices` after the first: from the last group to the first, those that the
-- record meets are merged into the target and removed.
unfoldable pub merge_rest :
    PortRangeRecord
    → PortConflictGroup
    → List PortConflictGroup
    → PortConflictGroup × List PortConflictGroup
merge_rest r target [] = (target, [])
merge_rest r target (g ∷ gs) =
    let (t, rest) = merge_rest r target gs in
    if meets r g then (cover t g.start g.end g.records, rest) else (t, g ∷ rest)

-- The group takes the record, and the groups behind it that the record meets.
unfoldable pub merge_groups :
    PortRangeRecord → PortConflictGroup → List PortConflictGroup → List PortConflictGroup
unfolding cover
merge_groups r g gs =
    let (target, others) = merge_rest r (cover g r.start r.end (r ∷ [])) gs in target ∷ others

-- One round of the loop over the records: a new group at the end, or the first group that the
-- record meets takes the record and the other groups that it meets.
unfoldable pub place : PortRangeRecord → List PortConflictGroup → List PortConflictGroup
place r [] = record { start = r.start; end = r.end; records = r ∷ [] } ∷ []
place r (g ∷ gs) = let rest = place r gs in if meets r g then merge_groups r g gs else g ∷ rest

unfoldable pub group_ranges : List PortRangeRecord → List PortConflictGroup → List PortConflictGroup
group_ranges [] groups = groups
group_ranges (r ∷ rs) groups = group_ranges rs (place r groups)

unfoldable pub find_all_conflicts : List PortRangeRecord → List PortConflictGroup
find_all_conflicts ranges = filter (λ g. leb 2 (length g.records)) (group_ranges ranges [])

-- `String` of a record
unfoldable pub record_text : PortRangeRecord → String
record_text r =
    if eqb_ℤ r.start r.end
    then concat (r.label ∷ " [" ∷ itoa r.start ∷ "] (" ∷ r.host ∷ ")" ∷ [])
    else concat (r.label ∷ " [" ∷ itoa r.start ∷ "-" ∷ itoa r.end ∷ "] (" ∷ r.host ∷ ")" ∷ [])

-- the label of a record in the report of its group
unfoldable pub shown_label : Bool → PortRangeRecord → String
shown_label is_group_range r =
    if not (eqb_ℤ r.start r.end)
    then concat (r.label ∷ " " ∷ itoa r.start ∷ "-" ∷ itoa r.end ∷ [])
    else if is_group_range
    then concat (r.label ∷ " " ∷ itoa r.start ∷ [])
    else r.label

-- `hostMap` and `hostOrder` as one list: a host stands where it first appeared.
pub add_label : String → String → List (String × List String) → List (String × List String)
add_label host label [] = (host, label ∷ []) ∷ []
add_label host label ((h, ls) ∷ hosts) =
    if h == host then (h, ls ++ label ∷ []) ∷ hosts else (h, ls) ∷ add_label host label hosts

pub group_hosts :
    Bool → List PortRangeRecord → List (String × List String) → List (String × List String)
unfolding shown_label add_label
group_hosts is_group_range [] hosts = hosts
group_hosts is_group_range (r ∷ rs) hosts =
    group_hosts is_group_range rs (add_label r.host (shown_label is_group_range r) hosts)

pub host_part : String × List String → String
host_part (host, labels) = concat (host ∷ " (" ∷ join ", " labels ∷ ")" ∷ [])

pub format_conflict : PortConflictGroup → String
unfolding group_hosts host_part
format_conflict g =
    let is_group_range = not (eqb_ℤ g.start g.end) in
    let port_display : String =
      if is_group_range
      then concat ("端口范围 " ∷ itoa g.start ∷ "-" ∷ itoa g.end ∷ [])
      else concat ("端口 " ∷ itoa g.start ∷ []) in
    concat (
      "检测到"
      ∷ port_display
      ∷ "冲突: "
      ∷ join ", " (map host_part (group_hosts is_group_range g.records []))
      ∷ [])

unfoldable pub format_conflicts : List PortConflictGroup → List String
unfolding format_conflict
format_conflicts conflicts = map format_conflict conflicts
