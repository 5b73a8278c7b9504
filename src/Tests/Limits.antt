-- ===== src/Tests/Limits.antt =====
-- Witnesses for the rate limits, with a bucket of two tokens that gains one each second.
use passbubble.Prelude.{
  ℕ, ◌+◌, ◌-◌, ◌/◌, min, Bool, true, false, none, some, List, [], ◌∷◌, ltb, leb, ◌==◌,
  if◌then◌else◌, ◌≡◌, refl, arith,
}
use passbubble.Texts.{Text, text, text_eq, has_char, trim_left, trim_right, is_space}
use passbubble.RateLimits.{Request, Net, limit_requests, client_ip, trimmed_ip}
use passbubble.RateLimits.Sweeping.{IsBucket, remember, limit_requests-remember}
use passbubble.RateLimits.Addresses.{forge, client_ip_unforged}

record Bucket : Type 0 where
  tokens : ℕ
  last : ℕ

abbrev later : ℕ → ℕ → ℕ
later u v = if ltb u v then v else u

abbrev full : Bucket
full = record { tokens = 2; last = 0 }

abbrev refilled : ℕ → Bucket → ℕ
refilled u b = min 2 (b.tokens + (u - b.last) / 1000000000)

abbrev take_token : ℕ → Bucket → Bool × Bucket
take_token u b =
    if leb 1 (refilled u b)
    then (true, record { tokens = refilled u b - 1; last = later u b.last })
    else (false, record { tokens = refilled u b; last = later u b.last })

take_token-IsBucket : IsBucket full take_token (λ b. b.last) 2000000000
take_token-IsBucket = record {
  unused = refl;
  used = λ u b v le h. ground arith;
  refilled = λ u b h.
      let one : min 2 (b.tokens + (u - b.last) / 1000000000) ≡ 2 = omega arith in
      let two : min 2 (2 + (u - 0) / 1000000000) ≡ 2 = omega arith in
      let three : later u b.last ≡ u = ground arith in
      let four : later u 0 ≡ u = ground arith in rw (one, two, three, four) refl;
}

-- Three requests at once, and one of the same address twenty minutes later, after a sweep.
abbrev burst : List Request
burst =
    record { ip = text "10.0.0.9"; now = 5; allowed_at = 6 }
    ∷ record { ip = text "10.0.0.9"; now = 6; allowed_at = 6 }
    ∷ record { ip = text "10.0.0.9"; now = 7; allowed_at = 8 }
    ∷ record { ip = text "10.0.0.9"; now = 1200000000000; allowed_at = 1200000000000 }
    ∷ []

limit_requests-remember_example :
    limit_requests full take_token burst record { clients = λ k. none; last_sweep = 0 }
    ≡ remember full take_token burst (λ k. full)
limit_requests-remember_example =
    limit_requests-remember full take_token (λ b. b.last) 2000000000 1000 take_token-IsBucket
      (omega arith) 0 burst
      (
        omega arith,
        omega arith,
        omega arith,
        (
          omega arith,
          omega arith,
          omega arith,
          (omega arith, omega arith, omega arith, (omega arith, omega arith, omega arith, tt)),
        ),
      )

burst_lem : remember full take_token burst (λ k. full) ≡ true ∷ true ∷ false ∷ true ∷ []
unfolding text text_eq
burst_lem = refl

-- Addresses are their texts; those that begin with '1' are local.
abbrev texts_net : Net Text
texts_net = record {
  split_host = λ t. some t;
  parse_ip = λ t. if has_char 46 t then some t else none;
  is_local = λ t. elim t [ [] ↦ false | c ∷ cs ↦ c == 49 ];
  show_ip = λ t. t;
}

client_ip_unforged_example :
    client_ip texts_net
      (forge (text "127.0.0.1") (some (text "6.6.6.6")) (text " 8.8.8.8") (text "7.7.7.7"))
    ≡ text "8.8.8.8"
unfolding text has_char trim_left trim_right is_space trimmed_ip
client_ip_unforged_example =
    client_ip_unforged texts_net (text "127.0.0.1") (text " 8.8.8.8") (text "7.7.7.7")
      (text "127.0.0.1") (some (text "6.6.6.6")) (text "127.0.0.1") (text "8.8.8.8") refl refl refl
      refl refl
