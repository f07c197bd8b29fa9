-- ===== src/Linux/Start.antt =====
-- linux/ipcdrv/ipcmodule.c, the loading and unloading of the module: what it takes from the kernel and
-- gives back, with the cleanup labels of ipc_probe and ipc_module_init.
use gipcy.Base.{
  ℕ, zero, suc, ◌+◌, ◌-◌, ◌≡◌, refl, ◌⊎◌, inl, inr, ℤ, pos, negsuc, neg, is_neg, Bool, true, false,
  List, [], ◌∷◌, ◌++◌, if◌then◌else◌, Bool-cases,
}
use gipcy.Linux.Ioctl.{invalid}
use gipcy.Linux.Objects.{Driver, no_entries}
use gipcy.Linux.Module.{close_everything}

-- What `class_create` and `device_create` answer with: NULL, the object, or, as the kernel does for a
-- failure, an error pointer, which is not NULL.
pub data Made : Type 0 where
  null_pointer : Made
  error_pointer : Made
  object : Made

-- `!pointer`.
abbrev pub is_null : Made → Bool
is_null null_pointer = true
is_null _ = false

-- How many objects were made.
abbrev pub made : Made → ℕ
made object = 1
made _ = 0

-- A count of what is taken, less what is given back: it is negative if more is given back.
abbrev pub more : ℤ → ℤ
more (pos n) = pos (suc n)
more (negsuc zero) = pos 0
more (negsuc (suc n)) = negsuc n

abbrev pub less : ℤ → ℤ
less (pos zero) = negsuc 0
less (pos (suc n)) = pos n
less (negsuc n) = negsuc (suc n)

-- What the kernel answers during the loading: `alloc_chrdev_region`, `class_create`, `kzalloc`,
-- `cdev_add`, `device_create` and `proc_create_data`.
pub record Boot : Type 0 where
  pub region_result : ℤ
  pub class : Made
  pub memory_given : Bool
  pub cdev_result : ℤ
  pub device : Made
  pub proc_made : Bool

-- What the module has of the kernel: how many ranges of device numbers, classes, structures, character
-- devices, device files and entries below /proc; its list `ipc_list`; and the drivers that ipc_remove
-- freed, as they were then. The kernel looks device files and entries below /proc up by number and by
-- name, so giving back one that is not there does nothing.
pub record Taken : Type 0 where
  pub regions : ℤ
  pub classes : ℤ
  pub memory : ℤ
  pub cdevs : ℤ
  pub devices : ℕ
  pub procs : ℕ
  pub drivers : List Driver
  pub removed : List Driver

-- Before the loading.
abbrev pub none_taken : Taken
none_taken = record {
  regions = pos 0;
  classes = pos 0;
  memory = pos 0;
  cdevs = pos 0;
  devices = 0;
  procs = 0;
  drivers = [];
  removed = [];
}

-- A failed `proc_create_data` is only logged.
abbrev pub ipc_register_proc : Bool → Taken → Taken
ipc_register_proc proc_made t = record t { procs = if proc_made then t.procs + 1 else t.procs }

abbrev pub ipc_remove_proc : Taken → Taken
ipc_remove_proc t = record t { procs = t.procs - 1 }

-- What `class_create` and `class_destroy` do to the count of classes; NULL and an error pointer are no
-- class.
abbrev pub class_create : Made → ℤ → ℤ
class_create object n = more n
class_create _ n = n

abbrev pub class_destroy : Made → ℤ → ℤ
class_destroy object n = less n
class_destroy _ n = n

abbrev pub no_memory : ℤ
no_memory = neg 12

-- `error != 0`, an int.
abbrev pub is_error : ℤ → Bool
is_error (pos zero) = false
is_error _ = true

abbrev pub do_free_memory : Taken → Taken
do_free_memory t = record t { memory = less t.memory }

abbrev pub do_delete_cdev : Taken → Taken
do_delete_cdev t = do_free_memory (record t { cdevs = less t.cdevs })

unfoldable pub ipc_probe : Boot → Taken → ℤ × Taken
ipc_probe boot t =
    if boot.memory_given
    then (let t1 = record t { memory = more t.memory } in
        if is_error boot.cdev_result
        then (invalid, do_free_memory t1)
        else let t2 = record t1 { cdevs = more t1.cdevs } in
          if is_null boot.device
          then (invalid, do_delete_cdev t2)
          else (let t3 =
                ipc_register_proc boot.proc_made
                  (record t2 { devices = t2.devices + made boot.device }) in
              (boot.cdev_result, record t3 { drivers = t3.drivers ++ no_entries 0 ∷ [] })))
    else (no_memory, t)

-- The loop of ipc_remove over `ipc_list`.
unfoldable pub remove_loop : List Driver → Taken → Taken
remove_loop [] t = record t { drivers = [] }
remove_loop (d ∷ ds) t =
    let t1 = ipc_remove_proc t in
    let t2 = record t1 { devices = t1.devices - 1 } in
    let t3 = do_delete_cdev t2 in
    remove_loop ds (record t3 { removed = t3.removed ++ close_everything d ∷ [] })

unfoldable pub ipc_remove : Taken → Taken
ipc_remove t = remove_loop t.drivers t

abbrev pub do_free_chrdev : Taken → Taken
do_free_chrdev t = record t { regions = less t.regions }

-- `class` is the global `ipc_class`.
abbrev pub do_delete_class : Made → Taken → Taken
do_delete_class class t = do_free_chrdev (record t { classes = class_destroy class t.classes })

unfoldable pub ipc_module_init : Boot → Taken → ℤ × Taken
ipc_module_init boot t =
    if is_neg boot.region_result
    then (boot.region_result, t)
    else let t1 = record t { regions = more t.regions } in
      if is_null boot.class
      then (invalid, do_free_chrdev t1)
      else let (error, t2) =
          ipc_probe boot (record t1 { classes = class_create boot.class t1.classes }) in
        if is_neg error then (invalid, do_delete_class boot.class t2) else (pos 0, t2)

unfoldable pub ipc_module_cleanup : Made → Taken → Taken
ipc_module_cleanup class t =
    let t1 = ipc_remove t in
    do_free_chrdev
      (if is_null class then t1 else record t1 { classes = class_destroy class t1.classes })

-- One driver was started, with these answers for the class, the device file and the entry below /proc.
abbrev pub module_loaded : Made → Made → Bool → Driver → Taken
module_loaded class device proc_made d = record {
  regions = pos 1;
  classes = pos (made class);
  memory = pos 1;
  cdevs = pos 1;
  devices = made device;
  procs = if proc_made then 1 else 0;
  drivers = d ∷ [];
  removed = [];
}

class_create-none : (x : Made) → class_create x (pos 0) ≡ pos (made x)
class_create-none null_pointer = refl
class_create-none error_pointer = refl
class_create-none object = refl

class_destroy-made : (x : Made) → class_destroy x (pos (made x)) ≡ pos 0
class_destroy-made null_pointer = refl
class_destroy-made error_pointer = refl
class_destroy-made object = refl

made_first : (x : Made) → 0 + made x ≡ made x
made_first null_pointer = refl
made_first error_pointer = refl
made_first object = refl

error-cases : (n : ℤ) → (n ≡ pos 0) ⊎ (is_error n ≡ true)
error-cases (pos zero) = inl refl
error-cases (pos (suc n)) = inr refl
error-cases (negsuc n) = inr refl

-- Whatever the kernel answers while the module is loaded: either the loading succeeds, with one driver
-- that has no entries, and with the class, the device file and the entry below /proc as far as the
-- kernel made them, or it fails with a negative result and has given back what it took, each thing once.
pub ipc_module_init-balanced :
    (boot : Boot)
    → (ipc_module_init boot none_taken
        ≡ (pos 0, module_loaded boot.class boot.device boot.proc_made (no_entries 0)))
      ⊎ ((is_neg (ipc_module_init boot none_taken).0 ≡ true)
          × ((ipc_module_init boot none_taken).1 ≡ none_taken))
unfolding ipc_module_init ipc_probe
ipc_module_init-balanced boot = elim (Bool-cases (is_neg boot.region_result)) [
  | inl no_region ↦ rw no_region (inr (no_region, refl))
  | inr region ↦ elim (Bool-cases (is_null boot.class)) [
    | inl no_class ↦ rw (region, no_class) (inr (refl, refl))
    | inr class ↦
        let created = class_create-none boot.class in
        let gone = class_destroy-made boot.class in
        elim (Bool-cases boot.memory_given) [
          | inr none_given ↦ rw (region, class, none_given, created, gone) (inr (refl, refl))
          | inl given ↦ elim (error-cases boot.cdev_result) [
            | inr failed ↦ rw (region, class, given, failed, created, gone) (inr (refl, refl))
            | inl added ↦ elim (Bool-cases (is_null boot.device)) [
              | inl no_device ↦
                  rw (region, class, given, added, no_device, created, gone) (inr (refl, refl))
              | inr device ↦
                  rw (region, class, given, added, device, created, made_first boot.device)
                    (inl refl)
            ]
          ]
        ]
  ]
]
