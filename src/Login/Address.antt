-- ===== src/Login/Address.antt =====
-- backend/core/root/api/login/clientip.go: the address that a request is limited under. An address
-- of net/netip is its bits, with the zone of an IPv6 one. The parsers of net/netip, its printers
-- and strings.TrimSpace are arguments, and so are the lines of the headers.
pub mod Hops
use poll_bot.Common.{
  ℕ, ◌+◌, ◌-◌, ◌*◌, ◌/◌, ◌%◌, ◌^◌, Bool, true, false, ◌&&◌, ◌||◌, Option, none, some, List, [], ◌∷◌,
  Bytes, if◌then◌else◌, nat_beq,
}

pub data Addr : Type 0 where
  v4 : ℕ → Addr
  v6 : ℕ → Bytes → Addr

-- Unmap: an address of ::ffff:0:0/96 is the IPv4 one of its last 32 bits.
unfoldable pub unmap : Addr → Addr
unmap (v4 n) = v4 n
unmap (v6 n zone) = if nat_beq (n / 2 ^ 32) 65535 then v4 (n % 2 ^ 32) else v6 n zone

-- Whether the first `ones` of `bits` bits of n are those of the prefix
unfoldable pub in_prefix : ℕ → ℕ → ℕ → ℕ → Bool
in_prefix bits ones prefix n = nat_beq (n / 2 ^ (bits - ones)) prefix

abbrev pub is_empty : Bytes → Bool
is_empty [] = true
is_empty (c ∷ s) = false

-- Whether a prefix of TRUSTED_PROXY_CIDRS contains it; none contains an address with a zone.
unfoldable pub is_trusted_proxy : Addr → Bool
unfolding in_prefix
is_trusted_proxy (v4 n) =
    in_prefix 32 8 127 n || in_prefix 32 8 10 n || in_prefix 32 12 2753 n || in_prefix 32 16 49320 n
is_trusted_proxy (v6 n zone) =
    is_empty zone && (in_prefix 128 128 1 n || in_prefix 128 7 126 n || in_prefix 128 10 1018 n)

unfoldable pub first_of : Option Addr → Option Addr → Option Addr
first_of none o = o
first_of (some a) o = some a

abbrev pub map_unmap : Option Addr → Option Addr
map_unmap none = none
map_unmap (some a) = some (unmap a)

-- strings.Split(s, ",")
unfoldable pub split : Bytes → List Bytes
split [] = [] ∷ []
split (c ∷ s) = elim (split s) [
  | [] ↦ (c ∷ []) ∷ []
  | hop ∷ hops ↦ if nat_beq c b',' then [] ∷ hop ∷ hops else (c ∷ hop) ∷ hops
]

pub record Request : Type 0 where
  pub remote_addr : Bytes
  pub client_ip : Bytes
  pub forwarded : List Bytes

module _ (addr_string : Addr → Bytes) (prefix_string : ℕ → Bytes) where
  -- The address, or the /64 of an IPv6 one
  unfoldable pub bucket : Addr → Bytes
  bucket (v4 n) = addr_string (v4 n)
  bucket (v6 n zone) = prefix_string (n / 2 ^ 64 * 2 ^ 64)

  unfoldable pub named : Option Addr → Addr → Bytes
  unfolding bucket
  named none peer = bucket peer
  named (some a) peer = bucket a

module _ (trim_space : Bytes → Bytes) (netip_addr netip_addr_port : Bytes → Option Addr) where
  unfoldable pub parse_trimmed : Bytes → Option Addr
  unfolding first_of unmap
  parse_trimmed [] = none
  parse_trimmed (c ∷ s) =
      first_of (map_unmap (netip_addr (c ∷ s))) (map_unmap (netip_addr_port (c ∷ s)))

  unfoldable pub parse_addr : Bytes → Option Addr
  unfolding parse_trimmed
  parse_addr s = parse_trimmed (trim_space s)

  -- The last of the hops that parses
  unfoldable pub last_hop : List Bytes → Option Addr
  unfolding parse_addr
  last_hop [] = none
  last_hop (hop ∷ hops) = first_of (last_hop hops) (parse_addr hop)

  -- Over the lines of X-Forwarded-For
  unfoldable pub forwarded_for : List Bytes → Option Addr
  unfolding last_hop split
  forwarded_for [] = none
  forwarded_for (line ∷ lines) = first_of (last_hop (split line)) (forwarded_for lines)

  module _ (addr_string : Addr → Bytes) (prefix_string : ℕ → Bytes) where
    unfoldable pub of_peer : Addr → Request → Bytes
    unfolding named bucket is_trusted_proxy
    of_peer peer r =
        if is_trusted_proxy peer
        then named addr_string prefix_string
            (first_of (parse_addr r.client_ip) (forwarded_for r.forwarded)) peer
        else bucket addr_string prefix_string peer

    unfoldable pub of_remote : Option Addr → Request → Bytes
    unfolding of_peer
    of_remote none r = r.remote_addr
    of_remote (some peer) r = of_peer peer r

    unfoldable pub request_ip : Request → Bytes
    unfolding of_remote
    request_ip r = of_remote (parse_addr r.remote_addr) r
