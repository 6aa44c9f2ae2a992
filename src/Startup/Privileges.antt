-- ===== src/Startup/Privileges.antt =====
-- Dropping privileges, and what is left of the program at the end (src/control_plane/main.go,
-- main, from the listener on; src/control_plane/loader.go: Close, UnpinMaps).
use shield_core.Prelude.{
  ℕ, ◌≡◌, Bool, true, ◌&&◌, none, some, List, [], ◌∷◌, Text, bytes, ◌==◌, if◌then◌else◌, arith,
}
use shield_core.Startup.Loader.{
  Mode, attached_in, failed, Loaded, shield, Datapath, Machinery, load_xdp_program, detach,
  close_program, unpin_maps, shutdown,
}
use shield_core.Startup.Attach.{load_xdp_program_attached}

pub record Process : Type 0 where
  pub uid : ℕ
  pub gid : ℕ

abbrev pub nobody : ℕ
nobody = 65534

-- The paths that are given to nobody before.
abbrev pub chown_paths : (Text → Text) → List Text
chown_paths resolve_path =
    resolve_path (bytes "logs")
    ∷ resolve_path (bytes "logs/mitigation.log")
    ∷ bytes "/sys/fs/bpf/shield_core"
    ∷ bytes "/sys/fs/bpf/shield_core/xsks_map"
    ∷ bytes "/sys/fs/bpf/shield_core/a2s_info"
    ∷ bytes "/sys/fs/bpf/shield_core/ip_blacklist_map"
    ∷ []

-- Where the process is root's: whether `Setgid` and `Setuid` succeed is told. Their errors are
-- only logged.
unfoldable pub drop_privileges : Bool → Bool → Process → Process
drop_privileges sets_gid sets_uid p =
    if p.uid == 0
    then record {
      uid = if sets_uid then nobody else p.uid;
      gid = if sets_gid then nobody else p.gid;
    }
    else p

-- What is done of the program at the end, where it was loaded.
unfoldable pub finish : Machinery → Datapath → Loaded → Datapath
unfolding shutdown
finish e d (failed why) = d
finish e d (attached_in mode) = shutdown e d

-- The daemon from the load to its end: the machine answers by who the process is.
unfoldable pub lifetime : (ℕ → Machinery) → Bool → Bool → Process → Datapath → Datapath
unfolding drop_privileges finish
lifetime machine sets_gid sets_uid p d =
    let (d', r) = load_xdp_program (machine p.uid) d in
    finish (machine (drop_privileges sets_gid sets_uid p).uid) d' r

-- A daemon of root that attaches its program and becomes nobody leaves the program attached at
-- its end exactly if nobody finds no link or may not detach from it.
pub lifetime_as_nobody :
    (machine : ℕ → Machinery) (sets_gid : Bool) (p : Process) (d : Datapath) (mode : Mode)
    → p.uid ≡ 0
    → (load_xdp_program (machine 0) d).1 ≡ attached_in mode
    → (lifetime machine sets_gid true p d).attached ≡ (
        if (machine nobody).finds_link && (machine nobody).detaches
        then none
        else some (shield mode))
unfolding lifetime drop_privileges finish shutdown close_program unpin_maps detach
lifetime_as_nobody machine sets_gid p d mode h e =
    ground (arith, h, e, load_xdp_program_attached (machine 0) d mode e)
