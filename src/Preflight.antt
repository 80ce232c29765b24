-- ===== src/Preflight.antt =====
-- pkg/preflight/checks.go. What the commands and files of the machine answer is a parameter of each
-- check; `atoi` stands for the value of strconv.Atoi, which is used also where it returns an error.
-- A float is compared with a bound by integers: `float32(g) < 32 * 0.9` is `10 * g < 288`, and
-- `float32(s) / 1000 < 1` is `s < 1000`, which is exact for the integers that a float32 holds.
pub mod Verdicts
use harvester_installer.Prelude.{
  Bool, List, Option, Result, String, [], eqb, err, fail_if, false, if◌then◌else◌, is_below, ltb,
  map_err, negsuc, none, ok, pos, some, true, ℕ, ℤ, ◌%◌, ◌*◌, ◌+◌, ◌/◌, ◌==◌, ◌>>=◌, ◌>>◌, ◌^◌,
  ◌||◌, ◌∷◌,
}

abbrev pub min_cpu_test : ℕ
min_cpu_test = 8

abbrev pub min_cpu_prod : ℕ
min_cpu_prod = 16

abbrev pub min_memory_test : ℕ
min_memory_test = 32

abbrev pub min_memory_prod : ℕ
min_memory_prod = 64

-- The amount of memory as it is shown.
pub data Reported : Type 0 where
  in_gib in_mib : ℕ → Reported

-- The messages, with the numbers that they show; `pass` is the empty message.
pub data Message : Type 0 where
  pass : Message
  few_cpus_for_test few_cpus_for_prod : ℤ → Message
  little_memory_for_test little_memory_for_prod : Reported → Message
  virtualized : String → Message
  no_kvm : Message
  slow_link_for_test slow_link_for_prod : ℕ → Message
  legacy_bios : Message

unfoldable pub cpu_message : ℤ → Message
cpu_message nproc =
    if is_below nproc min_cpu_test
    then few_cpus_for_test nproc
    else if is_below nproc min_cpu_prod
    then few_cpus_for_prod nproc
    else pass

-- `CPUCheck.Run`, on the output of nproc.
unfoldable pub cpu_check : (String → ℤ) → Result String String → Result String Message
unfolding cpu_message
cpu_check atoi nproc = do out ← nproc; ok (cpu_message (atoi out))

abbrev pub word : ℕ → ℕ
word n = n % 2 ^ 64

unfoldable pub range_size_to_kib : ℕ → String → ℕ
range_size_to_kib size unit =
    if unit == "GB"
    then word (size * 2 ^ 20)
    else if unit == "MB"
    then word (size * 2 ^ 10)
    else if unit == "kB"
    then size
    else if unit == "bytes"
    then size / 2 ^ 10
    else 0

unfoldable pub is_enormous : String → Bool
is_enormous unit = unit == "TB" || (unit == "PB" || (unit == "EB" || unit == "ZB"))

-- The loop over the lines of dmidecode that give a range size; an enormous one ends it.
unfoldable pub sum_ranges : ℕ → List (ℕ × String) → ℕ
sum_ranges total [] = total
sum_ranges total ((size, unit) ∷ lines) =
    let rest = sum_ranges (word (total + range_size_to_kib size unit)) lines in
    if is_enormous unit then 2 ^ 30 else rest

-- The fallback reads MemTotal, and allows for 10% less.
pub record Memory : Type 0 where
  pub total_kib : ℕ
  pub tenths : ℕ

pub data MemoryError : Type 0 where
  no_meminfo : String → MemoryError
  no_mem_total : MemoryError

unfoldable pub read_meminfo : Result String ℕ → Result MemoryError Memory
read_meminfo meminfo = do
  total ← map_err no_meminfo meminfo
  fail_if (eqb total 0) no_mem_total
  ok (record { total_kib = total; tenths = 9 })

abbrev pub dmidecode_total : Result String (List (ℕ × String)) → ℕ
dmidecode_total (ok lines) = sum_ranges 0 lines
dmidecode_total (err e) = 0

unfoldable pub read_memory :
    Result String (List (ℕ × String)) → Result String ℕ → Result MemoryError Memory
read_memory dmidecode meminfo =
    let total = dmidecode_total dmidecode in
    if eqb total 0 then read_meminfo meminfo else ok (record { total_kib = total; tenths = 10 })

unfoldable pub reported : ℕ → Reported
reported total_kib =
    let gib = total_kib / 2 ^ 20 in if ltb gib 1 then in_mib (total_kib / 2 ^ 10) else in_gib gib

unfoldable pub memory_message : Memory → Message
memory_message m =
    let gib = m.total_kib / 2 ^ 20 in
    if ltb (10 * gib) (min_memory_test * m.tenths)
    then little_memory_for_test (reported m.total_kib)
    else if ltb (10 * gib) (min_memory_prod * m.tenths)
    then little_memory_for_prod (reported m.total_kib)
    else pass

-- `MemoryCheck.Run`: the range sizes that dmidecode lists, and MemTotal of /proc/meminfo (0 where no
-- line gives it).
unfoldable pub memory_check :
    Result String (List (ℕ × String)) → Result String ℕ → Result MemoryError Message
memory_check dmidecode meminfo = do m ← read_memory dmidecode meminfo; ok (memory_message m)

-- `VirtCheck.Run`: the trimmed output, and the error of the command.
unfoldable pub virt_check : String → Option String → Result String Message
virt_check virt none = ok (virtualized virt)
virt_check virt (some e) = if virt == "none" then ok pass else err e

-- What `os.Stat` answers.
pub data Stat : Type 0 where
  exists missing : Stat
  unreadable : String → Stat

unfoldable pub kvm_host_check : Stat → Result String Message
kvm_host_check exists = ok pass
kvm_host_check missing = ok no_kvm
kvm_host_check (unreadable e) = err e

pub data SpeedError : Type 0 where
  unread : String → SpeedError
  undetermined : ℤ → SpeedError

unfoldable pub speed_message : ℤ → Result SpeedError Message
speed_message (negsuc n) = err (undetermined (negsuc n))
speed_message (pos mbps) =
    if ltb mbps 1
    then err (undetermined (pos mbps))
    else if ltb mbps 1000
    then ok (slow_link_for_test mbps)
    else if ltb mbps 10000
    then ok (slow_link_for_prod mbps)
    else ok pass

-- `NetworkSpeedCheck.Run`, on the contents of the speed file.
unfoldable pub network_speed_check : (String → ℤ) → Result String String → Result SpeedError Message
network_speed_check atoi speed = do out ← map_err unread speed; speed_message (atoi out)

-- `SystemIsBIOS` and `BIOSCheck.Run`.
unfoldable pub system_is_bios : Stat → Bool
system_is_bios missing = true
system_is_bios _ = false

unfoldable pub bios_check : Stat → Message
unfolding system_is_bios
bios_check efi = if system_is_bios efi then legacy_bios else pass
