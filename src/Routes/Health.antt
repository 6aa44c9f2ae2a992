-- ===== src/Routes/Health.antt =====
-- The answer of /health (src/control_plane/main.go, main).
use shield_core.Prelude.{
  ℕ, ◌+◌, ◌-◌, ◌*◌, ◌^◌, ◌≤◌, ◌<◌, ◌≡◌, Bool, Option, none, some, List, Text, bytes, All,
  if◌then◌else◌, arith,
}
use shield_core.Float.{Float64}
use shield_core.Kernel.{Kernel}
use shield_core.Geoip.{GeoIpManager, found}
use shield_core.Server.{Server}
use shield_core.Maps.Scan.{u64}
use shield_core.Proc.{Files, mem_info, used_kb}
use shield_core.Proc.Figures.{SysInfo, RamFigures, ram_figures, procs_of}
use shield_core.Proc.Entries.{Entry, IsEntry, print_entries, last_of}
use shield_core.Proc.Memory.{last_of_bound, total_of, unused_of, used_kb_exact, mem_info-entries}

module _ (F : Float64) where
  pub record HealthReply : Type 0 where
    pub status : Text
    pub uptime_sec : ℕ
    pub xdp_loaded : Bool
    pub geoip : Option (Bool × Bool)  -- asn and country
    pub version : Text
    pub ram : RamFigures
    pub load_1m : F.Carrier
    pub procs : ℕ

  unfoldable pub geoip_status : Option GeoIpManager → Option (Bool × Bool)
  geoip_status none = none
  geoip_status (some g) = some (g.asn.loaded, g.country.loaded)

  module _ (K : Kernel) where
    -- `entries` is what /proc holds, with whether it is a directory; none on an error.
    unfoldable pub handle_health :
        Files → Option (List (Text × Bool)) → SysInfo → ℕ → Server K → HealthReply
    unfolding geoip_status ram_figures procs_of found
    handle_health files entries info uptime s = record {
      status = if found s.map_mgr then bytes "healthy" else bytes "degraded";
      uptime_sec = uptime;
      xdp_loaded = found s.map_mgr;
      geoip = geoip_status s.geoip_mgr;
      version = bytes "1.0.0";
      ram = ram_figures files info;
      load_1m = F.div (F.of_u64 info.load) (F.lit 65536 1);
      procs = procs_of entries info;
    }

-- What is read of the memory, in bytes, where nothing wraps.
figures_exact :
    (total free unused used : ℕ)
    → total * 1024 < 2 ^ 64
    → free ≤ unused
    → unused ≤ total
    → used ≡ total - unused
    → (u64 (total * 1024) ≡ 1024 * total)
      × (u64 (used * 1024) ≡ 1024 * (total - unused))
      × (u64 (used * 1024) + u64 (free * 1024) ≤ u64 (total * 1024))
figures_exact total free unused used h g f e = (omega arith, omega arith, omega arith)

module _ (F : Float64) (K : Kernel) where
  -- Where /proc/meminfo is lines of a key, spaces and a 64-bit number, with the unit kB or without
  -- one, and the total in KB is no less than free memory, buffers and caches together and fits 64
  -- bits in bytes, /health shows the total in bytes, as used what is none of the others, and free
  -- and used memory are no more than the total.
  pub handle_health-ram :
      (files : Files) (procs : Option (List (Text × Bool))) (info : SysInfo) (uptime : ℕ)
      (s : Server K) (es : List Entry)
      → All IsEntry es
      → files (bytes "/proc/meminfo") ≡ some (print_entries es)
      → unused_of es ≤ total_of es
      → total_of es * 1024 < 2 ^ 64
      → let ram = (handle_health F K files procs info uptime s).ram in
        (ram.ram_total ≡ 1024 * total_of es)
        × (ram.ram_used ≡ 1024 * (total_of es - unused_of es))
        × (ram.ram_used + ram.ram_free ≤ ram.ram_total)
  unfolding handle_health ram_figures
  handle_health-ram files procs info uptime s es h e g f =
      let m = mem_info (print_entries es) in
      let read = mem_info-entries es h in
      let used = used_kb_exact m in
      let bound = last_of_bound (bytes "MemTotal") es 0 h (omega arith) in
      let exact =
        figures_exact (total_of es) (last_of (bytes "MemFree") es 0) (unused_of es) (used_kb m) f
          (omega arith) g (ground (arith, read, used, bound, g)) in
      ground (arith, e, read, exact)
