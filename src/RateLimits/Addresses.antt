-- ===== src/RateLimits/Addresses.antt =====
-- Which address ClientIP of backend/internal/api/middleware/ratelimit.go limits.
use passbubble.Prelude.{false, Option, none, some, [], ◌∷◌, ◌++◌, if◌then◌else◌, ◌≡◌, refl, arith}
use passbubble.Texts.{trim_left, trim_right, Text, has_char, has_char-append}
use passbubble.RateLimits.{Net, Peer, last_hop, trimmed_ip, behind_proxy, peer_host, client_ip}

last_hop_whole : (hop : Text) → has_char 44 hop ≡ false → last_hop hop ≡ hop
unfolding last_hop has_char
last_hop_whole [] h = refl
last_hop_whole (c ∷ cs) h = ground arith

last_hop-append :
    (forged hop : Text) → has_char 44 hop ≡ false → last_hop (forged ++ 44 ∷ hop) ≡ hop
unfolding last_hop has_char
last_hop-append [] hop h = ground arith
last_hop-append (c ∷ forged) hop h =
    ground (arith, has_char-append forged (44 ∷ hop) 44, last_hop-append forged hop h)

-- X-Forwarded-For as a proxy leaves it: its own hop alone, or behind what a client sent.
abbrev pub forwarded : Option Text → Text → Text
forwarded none hop = hop
forwarded (some forged) hop = forged ++ 44 ∷ hop

-- The headers of a request; X-Real-IP may be the client's own.
abbrev pub forge : Text → Option Text → Text → Text → Peer
forge remote forged hop real = record {
  remote_addr = remote;
  forwarded_for = forwarded forged hop;
  real_ip = real;
}

module _ {Ip : Type 0} (net : Net Ip) where
  blank_invalid : (client : Ip) → net.parse_ip [] ≡ none → trimmed_ip net [] ≡ some client → ⊥
  unfolding trimmed_ip trim_left trim_right
  blank_invalid client invalid valid = ground arith

  -- If the peer has an address, the empty text is none, and the hop that a proxy adds to
  -- X-Forwarded-For is an address without a comma, then the client is that hop where the peer is
  -- loopback or private, and the peer itself where it is not, whatever X-Real-IP, and whether the
  -- proxy replaces the header by its hop or adds it behind whatever hops a client has sent.
  pub client_ip_unforged :
      (remote hop real host : Text) (forged : Option Text) (peer client : Ip)
      → net.split_host remote ≡ some host
      → net.parse_ip host ≡ some peer
      → net.parse_ip [] ≡ none
      → has_char 44 hop ≡ false
      → trimmed_ip net hop ≡ some client
      → client_ip net (forge remote forged hop real)
        ≡ (if net.is_local peer then net.show_ip client else host)
  unfolding client_ip peer_host behind_proxy
  client_ip_unforged remote [] real host none peer client split known blank whole valid =
      absurd (blank_invalid client blank valid)
  client_ip_unforged remote (c ∷ hop) real host none peer client split known blank whole valid =
      ground (arith, last_hop_whole (c ∷ hop) whole)
  client_ip_unforged remote hop real host (some []) peer client split known blank whole valid =
      ground (arith, last_hop-append [] hop whole)
  client_ip_unforged remote hop real host (some (c ∷ forged)) peer client split known blank whole
        valid =
      ground (arith, last_hop-append (c ∷ forged) hop whole)
