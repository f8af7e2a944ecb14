-- ===== src/Server/Reload.antt =====
-- What a reload of the server comes to.
use kknode.Base.{Member, ◌≡◌, Bool, true, false, ◌⊎◌, List, [], Option, none, some}
use kknode.Base.Eq.{string_eq}
use kknode.Server.{Shared, Running}
use kknode.Server.Loading.{ServerApiConfig, Conf, Platform}
use kknode.Server.Running.{Breaks}
use kknode.Server.Closing.{AllClosed, ClosePanics}
use kknode.Server.Rounds.{Rounds}

module _ {C D R S : Type 0} (io : Platform C D R S) where
  -- What follows the closing: nothing where the configuration is not read, or the rounds.
  abbrev pub Restarted : Option Conf → Shared S → List (Running io) → Shared S → Bool → Type 0
  Restarted none v bs w' done = (w' ≡ v) × (bs ≡ []) × (done ≡ false)
  Restarted (some c) v bs w' done = Rounds io c.log_config c.nodes v bs w' × (done ≡ true)

  -- The reload of a server: a panic, for one of the reasons that there are, or the backends are closed
  -- and started again.
  abbrev pub Reloaded :
      Option Conf
      → List (Running io)
      → Shared S
      → Option (Shared S × List (Running io) × Bool)
      → Type 0
  Reloaded new_conf old w none =
      ClosePanics io old
      ⊎ ((c : Conf) × (a : ServerApiConfig) × (new_conf ≡ some c)
          × Member a c.nodes
          × Breaks io c.log_config a)
  Reloaded new_conf old w (some (w', bs, done)) =
      (v : Shared S) × AllClosed io old w v × Restarted new_conf v bs w' done
