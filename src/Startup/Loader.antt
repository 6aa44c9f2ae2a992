-- ===== src/Startup/Loader.antt =====
-- Loading the XDP program, attaching it to the interface and letting go of it
-- (src/control_plane/loader.go: LoadXDPProgram, Close, UnpinMaps).
use shield_core.Prelude.{Bool, Option, none, some, List, [], ◌∷◌, Text, bytes, if◌then◌else◌}

pub data Mode : Type 0 where
  driver generic : Mode

pub data LoadError : Type 0 where
  no_interface bad_object load_failed attach_failed : LoadError

pub data Loaded : Type 0 where
  attached_in : Mode → Loaded
  failed : LoadError → Loaded

-- What is attached to the interface: this program or another one.
pub data Program : Type 0 where
  shield : Mode → Program
  other : Program

pub record Datapath : Type 0 where
  pub attached : Option Program
  pub pinned : List Text

-- How the machine answers: netlink, package ebpf and the file system.
pub record Machinery : Type 0 where
  pub finds_link : Bool  -- netlink.LinkByName
  pub reads_object : Bool  -- ebpf.LoadCollectionSpec
  pub loads : Bool  -- LoadAndAssign
  pub detaches : Bool  -- LinkSetXdpFd with -1
  pub attaches : Mode → Bool
  pub pins : Text → Bool
  pub removes : Bool  -- os.RemoveAll

-- The maps that are shared with the fast path.
abbrev pub pin_paths : List Text
pin_paths =
    bytes "/sys/fs/bpf/shield_core/xsks_map"
    ∷ bytes "/sys/fs/bpf/shield_core/a2s_info"
    ∷ bytes "/sys/fs/bpf/shield_core/cidr_blacklist_map"
    ∷ bytes "/sys/fs/bpf/shield_core/cidr_whitelist_map"
    ∷ bytes "/sys/fs/bpf/shield_core/ring_stats_map"
    ∷ []

-- The error of a pin is dropped.
unfoldable pub pin : Machinery → Text → Datapath → Datapath
pin e p d = if e.pins p then record d { pinned = p ∷ d.pinned } else d

unfoldable pub pin_all : Machinery → List Text → Datapath → Datapath
unfolding pin
pin_all e [] d = d
pin_all e (p ∷ ps) d = pin_all e ps (pin e p d)

-- So is that of detaching.
unfoldable pub detach : Machinery → Datapath → Datapath
detach e d = if e.detaches then record d { attached = none } else d

unfoldable pub attach : Machinery → Datapath → Datapath × Loaded
attach e d =
    if e.attaches driver
    then (record d { attached = some (shield driver) }, attached_in driver)
    else if e.attaches generic
    then (record d { attached = some (shield generic) }, attached_in generic)
    else (d, failed attach_failed)

unfoldable pub load_xdp_program : Machinery → Datapath → Datapath × Loaded
unfolding pin_all detach attach
load_xdp_program e d =
    if e.finds_link
    then (if e.reads_object
        then (if e.loads
            then attach e (detach e (pin_all e pin_paths (detach e (detach e d))))
            else (d, failed load_failed))
        else (d, failed bad_object))
    else (d, failed no_interface)

-- `Close`, where the name of the interface is not empty.
unfoldable pub close_program : Machinery → Datapath → Datapath
unfolding detach
close_program e d = if e.finds_link then detach e d else d

unfoldable pub unpin_maps : Machinery → Datapath → Datapath
unpin_maps e d = if e.removes then record d { pinned = [] } else d

-- The end of `main`: the maps are unpinned, and the deferred `Close` runs.
unfoldable pub shutdown : Machinery → Datapath → Datapath
unfolding close_program unpin_maps
shutdown e d = close_program e (unpin_maps e d)
