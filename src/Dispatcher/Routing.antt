-- ===== src/Dispatcher/Routing.antt =====
-- core/app/dispatcher/default.go: `routedDispatch`, which hands a connection to an outbound. The
-- handlers and the router of xray-core are parameters.
use kknode.Base.{String, Bool, not, Option, none, some, if◌then◌else◌, [], ◌∷◌}
use kknode.Base.Eq.{string_eq, ◌==◌}
use kknode.Base.Text.{concat}

-- `routing.Route`
pub record Route : Type 0 where
  pub outbound_tag : String
  pub rule_tag : String

-- The outbound manager: the handler of a tag, and the default one.
pub record OutboundManager : Type 1 where
  pub Handler : Type 0
  pub get_handler : String → Option Handler
  pub get_default_handler : Option Handler
  pub tag_of : Handler → String
  -- `Dispatch` of the handler panics
  pub panics : Handler → Bool

-- What the router does: there is none, it picks no route, or it picks one.
pub data Router : Type 0 where
  no_router no_route : Router
  picks : Route → Router

-- `isPickRoute`
pub data Pick : Type 0 where
  by_default by_force by_route : Pick

-- the tag of the log's access message
unfoldable pub detour_text : String → Pick → String → String
detour_text in_tag pick tag =
    let arrow : String = elim pick [
      | by_force ↦ " ==> "
      | by_route ↦ " -> "
      | by_default ↦ " >> "
    ] in
    if in_tag == "" then tag else concat (in_tag ∷ arrow ∷ tag ∷ [])

module _ (ohm : OutboundManager) where
  open ohm use {Handler, get_handler, get_default_handler, tag_of, panics}

  -- How the connection ends up: both ends closed, or at a handler, with the text of the log, `none`
  -- for a handler with no tag. `true` tells that the handler panicked and the ends were closed then.
  pub data Routed : Type 0 where
    closed : Routed
    dispatched : Handler → Option String → Bool → Routed

  pub pick_named : String → Pick → Option (Option Handler × Pick)
  pick_named tag pick = elim (get_handler tag) [ none ↦ none | some h ↦ some (some h, pick) ]

  -- the handler, and how it was picked; `none` where the connection is closed instead
  pub pick_handler : String → Router → Option (Option Handler × Pick)
  unfolding pick_named
  pick_handler forced router =
      if not (forced == "") then pick_named forced by_force else (elim router [
        | no_router ↦ some (none, by_default)
        | no_route ↦ some (none, by_default)
        | picks route ↦ pick_named route.outbound_tag by_route
      ])

  pub or_default : Option Handler → Option Handler
  or_default none = get_default_handler
  or_default (some h) = some h

  -- `routedDispatch`
  unfoldable pub routed_dispatch : String → Router → String → Routed
  unfolding pick_handler or_default detour_text
  routed_dispatch forced router in_tag = elim (pick_handler forced router) [
    | none ↦ closed
    | some (picked, pick) ↦ elim (or_default picked) [
      | none ↦ closed
      | some h ↦
          dispatched h
            (if not (tag_of h == "") then some (detour_text in_tag pick (tag_of h)) else none)
            (panics h)
    ]
  ]
