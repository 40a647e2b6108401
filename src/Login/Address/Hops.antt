-- ===== src/Login/Address/Hops.antt =====
-- Who decides the key of backend/core/root/api/login/clientip.go.
use poll_bot.Common.{
  ℕ, ◌*◌, ◌/◌, ◌^◌, ◌≡◌, refl, sym, ap, ◌∙◌, Bool, true, false, ◌||◌, Option, none, some, List, [],
  ◌∷◌, ◌++◌, Bytes, nat_beq, arith, Bool-cases, inl, inr,
}
use poll_bot.Login.Address.{
  Addr, v6, is_trusted_proxy, first_of, split, Request, parse_addr, last_hop, forwarded_for, bucket,
  named, of_peer, of_remote, request_ip,
}

abbrev pub has_comma : Bytes → Bool
has_comma [] = false
has_comma (c ∷ s) = nat_beq c b',' || has_comma s

-- A hop without a comma is the only one of its line.
split_one : (hop : Bytes) → has_comma hop ≡ false → split hop ≡ hop ∷ []
unfolding split
split_one [] plain = refl
split_one (c ∷ s) plain = ground (arith, plain, split_one s)

-- With a comma before it, it is the last one.
split_last :
    (said hop : Bytes)
    → has_comma hop ≡ false
    → (first : Bytes) × (more : List Bytes) × (split (said ++ (b',' ∷ hop))
        ≡ first ∷ (more ++ (hop ∷ [])))
unfolding split
split_last [] hop plain = ([], [], simp (split_one hop plain) refl)
split_last (c ∷ said) hop plain =
    let (first, more, e) = split_last said hop plain in
    elim (Bool-cases (nat_beq c b',')) [
      | inl comma ↦ ([], first ∷ more, simp (e, comma) refl)
      | inr plain_byte ↦ (c ∷ first, more, simp (e, plain_byte) refl)
    ]

module _ (trim_space : Bytes → Bytes) (netip_addr netip_addr_port : Bytes → Option Addr) where
  abbrev parsed : Bytes → Option Addr
  parsed = parse_addr trim_space netip_addr netip_addr_port

  abbrev hop_of : List Bytes → Option Addr
  hop_of = last_hop trim_space netip_addr netip_addr_port

  last_hop_end :
      (hops : List Bytes) (hop : Bytes) (a : Addr)
      → parsed hop ≡ some a
      → hop_of (hops ++ (hop ∷ [])) ≡ some a
  unfolding last_hop first_of
  last_hop_end [] hop a e = e
  last_hop_end (h ∷ hops) hop a e = simp (last_hop_end hops hop a e) refl

  line_hop :
      (said hop : Bytes) (a : Addr)
      → has_comma hop ≡ false
      → parsed hop ≡ some a
      → hop_of (split (said ++ (b',' ∷ hop))) ≡ some a
  line_hop said hop a plain e =
      let (first, more, split_e) = split_last said hop plain in
      ap hop_of split_e ∙ last_hop_end (first ∷ more) hop a e

  module _ (addr_string : Addr → Bytes) (prefix_string : ℕ → Bytes) where
    abbrev key : Request → Bytes
    key = request_ip trim_space netip_addr netip_addr_port addr_string prefix_string

    abbrev bucket_of : Addr → Bytes
    bucket_of = bucket addr_string prefix_string

    trusted_key :
        (r : Request) (peer a : Addr) (line : Bytes) (lines : List Bytes)
        → parsed r.remote_addr ≡ some peer
        → is_trusted_proxy peer ≡ true
        → parsed r.client_ip ≡ none
        → r.forwarded ≡ line ∷ lines
        → hop_of (split line) ≡ some a
        → key r ≡ bucket_of a
    unfolding request_ip of_remote of_peer named forwarded_for first_of
    trusted_key r peer a line lines from trusted no_client lines_e hop_e =
        simp (from, trusted, no_client, lines_e, hop_e) refl

    -- Through a trusted proxy that sends no CF-Connecting-IP that parses, and that appends the hop it
    -- saw to the only line of X-Forwarded-For, the key is that of the hop, whatever the client had
    -- written in the line.
    pub request_ip_appended :
        (r : Request) (peer a : Addr) (said hop : Bytes)
        → parse_addr trim_space netip_addr netip_addr_port r.remote_addr ≡ some peer
        → is_trusted_proxy peer ≡ true
        → parse_addr trim_space netip_addr netip_addr_port r.client_ip ≡ none
        → r.forwarded ≡ (said ++ (b',' ∷ hop)) ∷ []
        → has_comma hop ≡ false
        → parse_addr trim_space netip_addr netip_addr_port hop ≡ some a
        → request_ip trim_space netip_addr netip_addr_port addr_string prefix_string r
          ≡ bucket addr_string prefix_string a
    request_ip_appended r peer a said hop from trusted no_client lines plain hop_e =
        trusted_key r peer a (said ++ (b',' ∷ hop)) [] from trusted no_client lines
          (line_hop said hop a plain hop_e)

    -- Through the same proxy, if it adds its hop as a line of its own behind the client's line, the
    -- key is that of the last address of the client's line, whatever the proxy's lines say.
    pub request_ip_forged :
        (r : Request) (peer a : Addr) (said hop : Bytes) (added : List Bytes)
        → parse_addr trim_space netip_addr netip_addr_port r.remote_addr ≡ some peer
        → is_trusted_proxy peer ≡ true
        → parse_addr trim_space netip_addr netip_addr_port r.client_ip ≡ none
        → r.forwarded ≡ (said ++ (b',' ∷ hop)) ∷ added
        → has_comma hop ≡ false
        → parse_addr trim_space netip_addr netip_addr_port hop ≡ some a
        → request_ip trim_space netip_addr netip_addr_port addr_string prefix_string r
          ≡ bucket addr_string prefix_string a
    request_ip_forged r peer a said hop added from trusted no_client lines plain hop_e =
        trusted_key r peer a (said ++ (b',' ∷ hop)) added from trusted no_client lines
          (line_hop said hop a plain hop_e)

    untrusted_key :
        (r : Request) (peer : Addr)
        → parsed r.remote_addr ≡ some peer
        → is_trusted_proxy peer ≡ false
        → key r ≡ bucket_of peer
    unfolding request_ip of_remote of_peer
    untrusted_key r peer from untrusted = simp (from, untrusted) refl

    -- Two requests from IPv6 peers that are no trusted proxies and share their first 64 bits are
    -- limited under one key, whatever their zones and their headers say.
    pub request_ip_one_network :
        (r r' : Request) (n m : ℕ) (zone zone' : Bytes)
        → parse_addr trim_space netip_addr netip_addr_port r.remote_addr ≡ some (v6 n zone)
        → parse_addr trim_space netip_addr netip_addr_port r'.remote_addr ≡ some (v6 m zone')
        → is_trusted_proxy (v6 n zone) ≡ false
        → is_trusted_proxy (v6 m zone') ≡ false
        → n / 2 ^ 64 ≡ m / 2 ^ 64
        → request_ip trim_space netip_addr netip_addr_port addr_string prefix_string r
          ≡ request_ip trim_space netip_addr netip_addr_port addr_string prefix_string r'
    unfolding bucket
    request_ip_one_network r r' n m zone zone' from from' untrusted untrusted' same =
        untrusted_key r (v6 n zone) from untrusted
        ∙ ap (λ k. prefix_string (k * 2 ^ 64)) same
        ∙ sym (untrusted_key r' (v6 m zone') from' untrusted')
