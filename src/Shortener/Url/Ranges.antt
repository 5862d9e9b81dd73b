-- ===== src/Shortener/Url/Ranges.antt =====
-- The byte tests of isBlockedIP are the address ranges that its comment names.
use shortn.Prelude.{ℕ, ◌+◌, ◌-◌, ◌*◌, ◌^◌, ◌<◌, ◌≤◌, ◌≡◌, ◌⊎◌, ◌↔◌, true, arith}
use shortn.Shortener.Url.{Ip, v4, v6, is_blocked_ip}

abbrev pub Between : ℕ → ℕ → ℕ → Type 0
Between first last n = (first ≤ n) × (n ≤ last)

-- An IPv4 address as one number, its first byte the highest.
abbrev pub address : ℕ → ℕ → ℕ → ℕ → ℕ
address a b c d = a * 2 ^ 24 + b * 2 ^ 16 + c * 2 ^ 8 + d

-- 127.0.0.0/8, 10.0.0.0/8, 172.16.0.0/12, 192.168.0.0/16, 169.254.0.0/16, 0.0.0.0, 224.0.0.0/4.
abbrev pub IsRefused4 : ℕ → Type 0
IsRefused4 n =
    Between (address 127 0 0 0) (address 127 255 255 255) n
    ⊎ (Between (address 10 0 0 0) (address 10 255 255 255) n
        ⊎ (Between (address 172 16 0 0) (address 172 31 255 255) n
            ⊎ (Between (address 192 168 0 0) (address 192 168 255 255) n
                ⊎ (Between (address 169 254 0 0) (address 169 254 255 255) n
                    ⊎ ((n ≡ 0) ⊎ Between (address 224 0 0 0) (address 239 255 255 255) n)))))

-- ::, ::1, fc00::/7, fe80::/10, ff00::/8.
abbrev pub IsRefused6 : ℕ → Type 0
IsRefused6 n =
    (n ≤ 1)
    ⊎ (Between (0xfc * 2 ^ 120) (0xfe * 2 ^ 120 - 1) n
        ⊎ (Between (0xfe80 * 2 ^ 112) (0xfec0 * 2 ^ 112 - 1) n
            ⊎ Between (0xff * 2 ^ 120) (2 ^ 128 - 1) n))

-- The bytes of an IPv4 address, and the number of an IPv6 address.
abbrev pub IsAddress : Ip → Type 0
IsAddress (v4 a b c d) = (a < 256) × (b < 256) × (c < 256) × (d < 256)
IsAddress (v6 n) = n < 2 ^ 128

abbrev pub IsRefused : Ip → Type 0
IsRefused (v4 a b c d) = IsRefused4 (address a b c d)
IsRefused (v6 n) = IsRefused6 n

-- An address is blocked exactly if it is unspecified or loopback, or in one of the private,
-- link-local or multicast ranges: of 32-bit numbers for IPv4, of 128-bit numbers for IPv6.
pub is_blocked_ip_iff : (ip : Ip) → IsAddress ip → (is_blocked_ip ip ≡ true) ↔ IsRefused ip
unfolding is_blocked_ip
is_blocked_ip_iff (v4 a b c d) (ha, hb, hc, hd) = (λ h. ground arith, λ h. ground arith)
is_blocked_ip_iff (v6 n) within = (λ h. ground arith, λ h. ground arith)
