-- ===== src/Startup/Attach.antt =====
-- What a start of the program leaves on the interface (src/control_plane/loader.go:
-- LoadXDPProgram, Close).
use shield_core.Prelude.{
  ◌≡◌, ◌∙◌, refl, Bool, true, false, ◌||◌, ◌⊎◌, inl, inr, none, some, List, [], ◌∷◌, Text, All,
  arith, text_eq, text_eq_refl, if◌then◌else◌, Bool-cases,
}
use shield_core.Startup.Loader.{
  Mode, driver, generic, LoadError, attach_failed, bad_object, load_failed, no_interface,
  attached_in, failed, shield, Datapath, Machinery, pin_paths, pin, pin_all, detach, attach,
  load_xdp_program,
}

abbrev pub is_pinned : Text → List Text → Bool
is_pinned p [] = false
is_pinned p (q ∷ qs) = text_eq q p || is_pinned p qs

attached-pin_all :
    (e : Machinery) (ps : List Text) (d : Datapath) → (pin_all e ps d).attached ≡ d.attached
unfolding pin_all
attached-pin_all e [] d = refl
attached-pin_all e (p ∷ ps) d = attached-pin_all e ps (pin e p d) ∙ unfold pin in ground arith

-- A pin that is there stays.
stays_pinned :
    (e : Machinery) (ps : List Text) (d : Datapath) (p : Text)
    → is_pinned p d.pinned ≡ true
    → is_pinned p (pin_all e ps d).pinned ≡ true
unfolding pin_all
stays_pinned e [] d p h = h
stays_pinned e (q ∷ ps) d p h = stays_pinned e ps (pin e q d) p (unfold pin in ground (arith, h))

abbrev pub AllPinned : Machinery → List Text → List Text → Type 0
AllPinned e pinned = All (λ p. (e.pins p ≡ false) ⊎ (is_pinned p pinned ≡ true))

pin_lem :
    (e : Machinery) (p : Text) (d : Datapath)
    → (e.pins p ≡ false) ⊎ (is_pinned p (pin e p d).pinned ≡ true)
unfolding pin
pin_lem e p d = elim (Bool-cases (e.pins p)) [
  | inl h ↦ inr (ground (arith, h, text_eq_refl p))
  | inr h ↦ inl h
]

pin_all-AllPinned :
    (e : Machinery) (ps : List Text) (d : Datapath) → AllPinned e (pin_all e ps d).pinned ps
unfolding pin_all
pin_all-AllPinned e [] d = tt
pin_all-AllPinned e (p ∷ ps) d =
    let d1 = pin e p d in
    let here : (e.pins p ≡ false) ⊎ (is_pinned p (pin_all e ps d1).pinned ≡ true) =
      elim (pin_lem e p d) [ inl h ↦ inl h | inr h ↦ inr (stays_pinned e ps d1 p h) ] in
    (here, pin_all-AllPinned e ps d1)

abbrev pub IsAttached : Machinery → Datapath → Mode → Type 0
IsAttached e d mode =
    (e.attaches mode ≡ true) × (d.attached ≡ some (shield mode)) × AllPinned e d.pinned pin_paths

attach_lem :
    (e : Machinery) (d : Datapath)
    → AllPinned e d.pinned pin_paths
    → let (d', r) = attach e d in
      ((mode : Mode) × (r ≡ attached_in mode) × IsAttached e d' mode)
      ⊎ ((r ≡ failed attach_failed)
          × (e.attaches driver ≡ false)
          × (e.attaches generic ≡ false)
          × (d' ≡ d))
unfolding attach
attach_lem e d h = elim (Bool-cases (e.attaches driver)) [
  | inl y ↦ rw y (inl (driver, refl, (y, refl, h)))
  | inr n ↦ elim (Bool-cases (e.attaches generic)) [
    | inl y ↦ rw (n, y) (inl (generic, refl, (y, refl, h)))
    | inr k ↦ rw (n, k) (inr (refl, refl, refl, refl))
  ]
]

detach_pinned : (e : Machinery) (d : Datapath) → (detach e d).pinned ≡ d.pinned
unfolding detach
detach_pinned e d = ground arith

detach_attached :
    (e : Machinery) (d : Datapath)
    → (detach e (pin_all e pin_paths (detach e (detach e d)))).attached
      ≡ (if e.detaches then none else d.attached)
unfolding detach
detach_attached e d = ground (arith, attached-pin_all e pin_paths (detach e (detach e d)))

-- What has failed behind an error of a load that has changed nothing.
abbrev pub Stops : Machinery → LoadError → Type 0
Stops e no_interface = e.finds_link ≡ false
Stops e bad_object = (e.finds_link ≡ true) × (e.reads_object ≡ false)
Stops e load_failed = (e.finds_link ≡ true) × (e.reads_object ≡ true) × (e.loads ≡ false)
Stops e attach_failed = ⊥

-- LoadXDPProgram either answers with a mode, and then the program is attached in a mode that the
-- interface takes and every shared map that can be pinned is pinned; or it fails before it has
-- changed anything, as the interface is not found, the object is not read or not loaded; or the
-- interface takes neither the driver mode nor the generic one, and then what was attached is gone,
-- where it could be detached.
pub load_xdp_program_lem :
    (e : Machinery) (d : Datapath)
    → let (d', r) = load_xdp_program e d in
      ((mode : Mode) × (r ≡ attached_in mode) × IsAttached e d' mode)
      ⊎ ((why : LoadError) × (r ≡ failed why) × Stops e why × (d' ≡ d))
      ⊎ ((r ≡ failed attach_failed)
          × (e.attaches driver ≡ false)
          × (e.attaches generic ≡ false)
          × (d'.attached ≡ (if e.detaches then none else d.attached)))
unfolding load_xdp_program
load_xdp_program_lem e d = elim (Bool-cases e.finds_link) [
  | inr n ↦ rw n (inr (inl (no_interface, refl, refl, refl)))
  | inl y ↦ elim (Bool-cases e.reads_object) [
    | inr n ↦ rw (y, n) (inr (inl (bad_object, refl, (refl, refl), refl)))
    | inl z ↦ elim (Bool-cases e.loads) [
      | inr n ↦ rw (y, z, n) (inr (inl (load_failed, refl, (refl, refl, refl), refl)))
      | inl x ↦
          let cleared = detach e (detach e d) in
          let pinned = pin_all e pin_paths cleared in
          let kept : (detach e pinned).pinned ≡ pinned.pinned = detach_pinned e pinned in
          let maps : AllPinned e (detach e pinned).pinned pin_paths =
            rw kept (pin_all-AllPinned e pin_paths cleared) in
          elim (attach_lem e (detach e pinned) maps) [
            | inl h ↦ rw (y, z, x) (inl h)
            | inr (f, n, k, same) ↦ rw (y, z, x, same) (inr (inr (f, n, k, detach_attached e d)))
          ]
    ]
  ]
]

-- A mode is answered exactly where the program is attached in it.
pub load_xdp_program_attached :
    (e : Machinery) (d : Datapath) (mode : Mode)
    → (load_xdp_program e d).1 ≡ attached_in mode
    → (load_xdp_program e d).0.attached ≡ some (shield mode)
unfolding load_xdp_program attach
load_xdp_program_attached e d mode h = ground (arith, h)

pins_other :
    (e : Machinery) (ps : List Text) (d : Datapath) (p : Text)
    → is_pinned p ps ≡ false
    → is_pinned p (pin_all e ps d).pinned ≡ is_pinned p d.pinned
unfolding pin_all
pins_other e [] d p h = refl
pins_other e (q ∷ ps) d p h =
    pins_other e ps (pin e q d) p (ground (arith, h)) ∙ unfold pin in ground (arith, h)

pinned-attach : (e : Machinery) (d : Datapath) → (attach e d).0.pinned ≡ d.pinned
unfolding attach
pinned-attach e d = ground arith

-- Loading the program pins no path but the five of the shared maps: another path, such as the
-- one under which the fast path opens its blacklist, is there exactly if it was there before.
pub load_xdp_program_pins :
    (e : Machinery) (d : Datapath) (p : Text)
    → is_pinned p pin_paths ≡ false
    → is_pinned p (load_xdp_program e d).0.pinned ≡ is_pinned p d.pinned
unfolding load_xdp_program
load_xdp_program_pins e d p h =
    let cleared = detach e (detach e d) in
    let pinned = pin_all e pin_paths cleared in
    ground (
      arith,
      pinned-attach e (detach e pinned),
      detach_pinned e pinned,
      pins_other e pin_paths cleared p h,
      detach_pinned e (detach e d),
      detach_pinned e d,
    )
