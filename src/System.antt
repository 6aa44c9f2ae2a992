-- ===== src/System.antt =====
-- The daemon as a whole: its server, its host, its engine, and the moves that its goroutines, its
-- clients and a restart make in any order (src/control_plane/main.go: main, startAutoMitigation
-- and the handlers).
pub mod Requests
pub mod Restarts
pub mod Keyless
use shield_core.Prelude.{ℕ, ◌≡◌, ◌⊎◌, inl, none, true, Option, [], Text}
use shield_core.Float.{Float64}
use shield_core.Kernel.{Kernel}
use shield_core.Maps.Config.{set_geoip_policy}
use shield_core.Geoip.{Disk}
use shield_core.Gate.{Config}
use shield_core.Logs.{LogFile}
use shield_core.Server.{RulesState, saved}
use shield_core.Cluster.{Cluster}
use shield_core.Engine.{Machine, Engine, CpuStats, start_engine, tick}
use shield_core.Startup.{Found, first_manager, start}
use shield_core.Startup.Loader.{Mode, attached_in}
use shield_core.Routes.{Incoming, RoutingCalls}
use shield_core.Routes.Serve.{World, serve}

pub record System (K : Kernel) : Type 0 where
  pub world : World K
  pub engine : Engine

module _ (F : Float64) (K : Kernel) (info : Text → Option ℕ) (parse_ipv6 : Text → Option ℕ)
    (calls : RoutingCalls K) where
  unfoldable pub served : Disk → LogFile → Text → Incoming → System K → System K
  served disk log api_key r s = record s {
    world = (serve K parse_ipv6 calls disk log api_key s.world r).0;
  }

  unfoldable pub ticked : ℕ → Machine F → System K → System K
  ticked now machine s =
      let (e, w) = tick F K info parse_ipv6 now machine (s.engine, s.world.server) in
      record { world = record s.world { server = w }; engine = e }

  -- A daemon that ended at some point and is started again, with the program: nothing of its
  -- memory is left, the host and the files are.
  unfoldable pub restarted :
      ℕ → Config → Mode → Found K → Cluster → Option CpuStats → Option (ℕ × ℕ) → System K → System K
  restarted now config mode found c cpu queue s = record {
    world = record {
      server = (start K parse_ipv6 now config (attached_in mode) found c).0;
      host = s.world.host;
      rates = [];
    };
    engine = start_engine cpu queue;
  }

  -- A restart finds the state file that the daemon has left, can write it, and a configuration map
  -- that takes the policy of the file.
  pub record Finds (now : ℕ) (s : System K) (found : Found K) : Type 0 where
    pub same_file : found.state_file ≡ s.world.server.state_file
    pub writable : found.can_save ≡ true
    pub takes_policy :
        (state : RulesState)
        → found.state_file ≡ saved state
        → (set_geoip_policy K (first_manager K parse_ipv6 now found) state.geoip_policy).1 ≡ none

  -- A request with its answer is one move, and so is a tick of the engine.
  pub data Step (s : System K) : System K → Type 0 where
    request :
        (disk : Disk) (log : LogFile) (api_key : Text) (r : Incoming)
        → Step s (served disk log api_key r s)
    second : (now : ℕ) (machine : Machine F) → Step s (ticked now machine s)
    restart :
        (now : ℕ) (config : Config) (mode : Mode) (found : Found K) (c : Cluster)
        (cpu : Option CpuStats) (queue : Option (ℕ × ℕ))
        → Finds now s found
        → Step s (restarted now config mode found c cpu queue s)

  pub data Reach (s : System K) : System K → Type 0 where
    here : Reach s s
    later : {t u : System K} → Reach s t → Step t u → Reach s u
