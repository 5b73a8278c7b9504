-- ===== src/RateLimits.antt =====
-- Rate limits of backend/internal/api/middleware/ratelimit.go: the table of limiters by client
-- address with its sweep, and the choice of the client address.
--
-- golang.org/x/time/rate is the parameters `fresh`, a limiter with a full burst, and `allow`, which
-- asks a limiter at a time. Times are in nanoseconds. net is the parameter `Net`.
pub mod Sweeping
pub mod Addresses
use passbubble.Prelude.{
  ℕ, ◌-◌, ◌*◌, Bool, true, false, ◌||◌, Option, none, some, List, [], ◌∷◌, ◌==◌, ltb, if◌then◌else◌,
}
use passbubble.Texts.{Text, is_space, trim_left, trim_right, text_eq, has_char}

-- limiterIdleTTL
abbrev pub limiter_idle_ttl : ℕ
limiter_idle_ttl = 600 * 1000000000

-- An entry of the map.
pub record Client (S : Type 0) : Type 0 where
  pub limiter : S
  pub last_seen : ℕ

-- The variables that the middleware keeps.
pub record Table (S : Type 0) : Type 0 where
  pub clients : Text → Option (Client S)
  pub last_sweep : ℕ

-- A request of a client address: when the middleware looked at the clock, and when Allow did.
pub record Request : Type 0 where
  pub ip : Text
  pub now : ℕ
  pub allowed_at : ℕ

module _ {S : Type 0} where
  unfoldable pub forget_idle : ℕ → Option (Client S) → Option (Client S)
  forget_idle now none = none
  forget_idle now (some e) = if ltb limiter_idle_ttl (now - e.last_seen) then none else some e

  -- The sweep of the map.
  unfoldable pub sweep : ℕ → Table S → Table S
  sweep now table =
      if ltb limiter_idle_ttl (now - table.last_sweep)
      then record { clients = λ k. forget_idle now (table.clients k); last_sweep = now }
      else table

  -- clients[ip] = e
  unfoldable pub set_client :
      Text → Client S → (Text → Option (Client S)) → Text → Option (Client S)
  set_client ip e clients k = if text_eq ip k then some e else clients k

  module _ (fresh : S) (allow : ℕ → S → Bool × S) where
    -- The limiter of an address, a new one where there is none.
    abbrev pub limiter_of : Option (Client S) → S
    limiter_of none = fresh
    limiter_of (some e) = e.limiter

    -- The handler of PerIPRateLimiter: true where the request goes on, false for 429.
    unfoldable pub limit_request : Request → Table S → Table S × Bool
    limit_request req table =
        let swept = sweep req.now table in
        let (allowed, limiter) = allow req.allowed_at (limiter_of (swept.clients req.ip)) in
        let e : Client S = record { limiter = limiter; last_seen = req.now } in
        (record swept { clients = set_client req.ip e swept.clients }, allowed)

    -- The answers to requests one after the other.
    unfoldable pub limit_requests : List Request → Table S → List Bool
    limit_requests [] table = []
    limit_requests (req ∷ reqs) table =
        let (next, allowed) = limit_request req table in allowed ∷ limit_requests reqs next

-- net.SplitHostPort's host, net.ParseIP, IsLoopback or IsPrivate, and IP.String.
pub record Net (Ip : Type 0) : Type 0 where
  pub split_host : Text → Option Text
  pub parse_ip : Text → Option Ip
  pub is_local : Ip → Bool
  pub show_ip : Ip → Text

-- What of an http.Request names the client; a header that is not set is blank.
pub record Peer : Type 0 where
  pub remote_addr : Text
  pub forwarded_for : Text
  pub real_ip : Text

-- The last part of strings.Split at a comma.
unfoldable pub last_hop : Text → Text
last_hop [] = []
last_hop (c ∷ cs) =
    let later = last_hop cs in if has_char 44 cs then later else if c == 44 then cs else c ∷ cs

module _ {Ip : Type 0} (net : Net Ip) where
  unfoldable pub trimmed_ip : Text → Option Ip
  trimmed_ip t = net.parse_ip (trim_left is_space (trim_right is_space t))

  -- X-Real-IP, or else the address of the peer.
  unfoldable pub real_ip_or : Text → Peer → Text
  real_ip_or host req = elim (trimmed_ip req.real_ip) [ none ↦ host | some ip ↦ net.show_ip ip ]

  -- The client behind a proxy.
  unfoldable pub behind_proxy : Text → Peer → Text
  behind_proxy host req = elim req.forwarded_for [
    | [] ↦ real_ip_or host req
    | c ∷ cs ↦ elim (trimmed_ip (last_hop (c ∷ cs))) [
      | none ↦ real_ip_or host req
      | some ip ↦ net.show_ip ip
    ]
  ]

  unfoldable pub peer_host : Peer → Text
  peer_host req = elim (net.split_host req.remote_addr) [
    | none ↦ req.remote_addr
    | some host ↦ host
  ]

  -- ClientIP
  unfoldable pub client_ip : Peer → Text
  client_ip req = elim (net.parse_ip (peer_host req)) [
    | none ↦ peer_host req
    | some peer ↦ if net.is_local peer then behind_proxy (peer_host req) req else peer_host req
  ]
