-- ===== src/Tests/Addresses.antt =====
-- The parser and the trust of client addresses at concrete inputs.
use poll_bot.Common.{
  ◌+◌, ◌^◌, ◌≡◌, refl, true, false, Option, none, some, [], ◌∷◌, Bytes, bytes_comparable,
  if◌then◌else◌,
}
use poll_bot.Common.Keys.{bytes_beq}
use poll_bot.Login.Address.{
  Addr, v4, v6, unmap, in_prefix, is_trusted_proxy, first_of, parse_trimmed, parse_addr,
}

abbrev as_is : Bytes → Bytes
as_is s = s

abbrev proxy_text : Bytes
proxy_text = b'p' ∷ []

abbrev hop_text : Bytes
hop_text = b'a' ∷ []

abbrev far_text : Bytes
far_text = b'x' ∷ []

abbrev near_text : Bytes
near_text = b'y' ∷ []

-- A resolver of four names, for net/netip.
abbrev names : Bytes → Option Addr
names s =
    if bytes_beq s proxy_text
    then some (v4 2130706433)
    else if bytes_beq s hop_text
    then some (v4 16909060)
    else if bytes_beq s far_text
    then some (v6 (2 ^ 125 + 1) [])
    else if bytes_beq s near_text
    then some (v6 (2 ^ 125 + 2) [])
    else none

abbrev no_port : Bytes → Option Addr
no_port s = none

parsed_proxy : parse_addr as_is names no_port proxy_text ≡ some (v4 2130706433)
unfolding parse_addr parse_trimmed first_of unmap bytes_beq
parsed_proxy = refl

parsed_hop : parse_addr as_is names no_port hop_text ≡ some (v4 16909060)
unfolding parse_addr parse_trimmed first_of unmap bytes_beq
parsed_hop = refl

no_client : parse_addr as_is names no_port [] ≡ none
unfolding parse_addr parse_trimmed
no_client = refl

loopback_trusted : is_trusted_proxy (v4 2130706433) ≡ true
unfolding is_trusted_proxy in_prefix
loopback_trusted = refl

parsed_far : parse_addr as_is names no_port far_text ≡ some (v6 (2 ^ 125 + 1) [])
unfolding parse_addr parse_trimmed first_of unmap bytes_beq
parsed_far = refl

parsed_near : parse_addr as_is names no_port near_text ≡ some (v6 (2 ^ 125 + 2) [])
unfolding parse_addr parse_trimmed first_of unmap bytes_beq
parsed_near = refl

far_untrusted : is_trusted_proxy (v6 (2 ^ 125 + 1) []) ≡ false
unfolding is_trusted_proxy in_prefix
far_untrusted = refl

near_untrusted : is_trusted_proxy (v6 (2 ^ 125 + 2) []) ≡ false
unfolding is_trusted_proxy in_prefix
near_untrusted = refl
