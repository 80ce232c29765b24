-- ===== src/Preflight/Verdicts.antt =====
-- pkg/preflight/checks.go: which machines the checks let pass.
use harvester_installer.Prelude.{
  All, List, String, [], arith, false, if◌then◌else◌, is_below, negsuc, ok, pos, refl, succeeds,
  true, ℕ, ℤ, ◌*◌, ◌+◌, ◌/◌, ◌<◌, ◌==◌, ◌^◌, ◌↔◌, ◌∷◌, ◌≡◌, ◌≢◌, ◌≤◌,
}
use harvester_installer.Preflight.{
  cpu_message, few_cpus_for_test, little_memory_for_test, memory_message, pass, reported,
  slow_link_for_prod, slow_link_for_test, speed_message,
}

-- The CPU check passes exactly from 16 processors, and warns of tests below 8.
pub cpu_message_iff :
    (n : ℤ)
    → (cpu_message n ≡ pass ↔ ((k : ℕ) × (n ≡ pos k) × (16 ≤ k)))
      × (cpu_message n ≡ few_cpus_for_test n ↔ (is_below n 8 ≡ true))
unfolding cpu_message
cpu_message_iff (pos k) =
    ((λ h. (k, refl, ground arith), λ h. ground arith), (λ h. ground arith, λ h. ground arith))
cpu_message_iff (negsuc k) = ((λ h. cc, λ h. cc h.1), (λ h. refl, λ h. refl))

-- The bytes of a unit that dmidecode prints.
abbrev pub bytes_in : String → ℕ
bytes_in unit =
    if unit == "GB"
    then 2 ^ 30
    else if unit == "MB"
    then 2 ^ 20
    else if unit == "kB"
    then 2 ^ 10
    else if unit == "bytes"
    then 1
    else 0

-- The ranges in KiB, each rounded down, in all.
abbrev pub plain_sum : List (ℕ × String) → ℕ
plain_sum [] = 0
plain_sum ((size, unit) ∷ lines) = size * bytes_in unit / 2 ^ 10 + plain_sum lines

-- No unit is enormous.
abbrev pub IsPlain : List (ℕ × String) → Type 0
IsPlain = All (λ l. (l.1 ≢ "TB") × (l.1 ≢ "PB") × (l.1 ≢ "EB") × (l.1 ≢ "ZB"))

-- The memory check passes exactly from 64 GiB by dmidecode and from 58 GiB by MemTotal, and warns of
-- tests exactly below 32 and 29.
pub memory_message_iff :
    (kib : ℕ)
    → (memory_message (record { total_kib = kib; tenths = 10 }) ≡ pass ↔ 64 * 2 ^ 20 ≤ kib)
      × (memory_message (record { total_kib = kib; tenths = 9 }) ≡ pass ↔ 58 * 2 ^ 20 ≤ kib)
      × (memory_message (record { total_kib = kib; tenths = 10 })
            ≡ little_memory_for_test (reported kib)
          ↔ kib < 32 * 2 ^ 20)
      × (memory_message (record { total_kib = kib; tenths = 9 })
            ≡ little_memory_for_test (reported kib)
          ↔ kib < 29 * 2 ^ 20)
unfolding memory_message
memory_message_iff kib = (
  (λ h. ground arith, λ h. ground arith),
  (λ h. ground arith, λ h. ground arith),
  (λ h. ground arith, λ h. ground arith),
  (λ h. ground arith, λ h. ground arith),
)

-- The speed check fails below 1 Mbps, warns of tests below 1 Gbps and of production below 10 Gbps,
-- and passes from there.
pub speed_message_iff :
    (mbps : ℕ)
    → (speed_message (pos mbps) ≡ ok pass ↔ 10000 ≤ mbps)
      × (speed_message (pos mbps) ≡ ok (slow_link_for_test mbps) ↔ ((1 ≤ mbps) × (mbps < 1000)))
      × (speed_message (pos mbps) ≡ ok (slow_link_for_prod mbps) ↔ ((1000 ≤ mbps) × (mbps < 10000)))
      × (succeeds (speed_message (pos mbps)) ≡ false ↔ (mbps ≡ 0))
unfolding speed_message
speed_message_iff mbps = (
  (λ h. ground arith, λ h. ground arith),
  (λ h. ground arith, λ h. ground arith),
  (λ h. ground arith, λ h. ground arith),
  (λ h. ground arith, λ h. ground arith),
)
