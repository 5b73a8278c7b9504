-- ===== src/RateLimits/Sweeping.antt =====
-- Forgetting idle clients, in backend/internal/api/middleware/ratelimit.go, changes no answer.
use passbubble.Prelude.{
  ℕ, ◌+◌, ◌-◌, ◌≤◌, Bool, Option, none, some, List, [], ◌∷◌, ltb, if◌then◌else◌, ◌≡◌, refl, arith,
  Bool-cases, inl, inr, ap, ◌∙◌, sym,
}
use passbubble.Texts.{Text, text_eq}
use passbubble.RateLimits.{
  Client, Table, Request, limiter_idle_ttl, forget_idle, sweep, set_client, limiter_of,
  limit_request, limit_requests,
}

cons_eq : {a b : Bool} {xs ys : List Bool} → a ≡ b → xs ≡ ys → a ∷ xs ≡ b ∷ ys
cons_eq e f = cc

module _ {S : Type 0} (fresh : S) (allow : ℕ → S → Bool × S) where
  -- What the token bucket of golang.org/x/time/rate promises: `used_at` is when it was last asked,
  -- and once `refill` has passed since it answers as a new one does, and is then in the same state.
  pub record IsBucket (used_at : S → ℕ) (refill : ℕ) : Type 0 where
    pub unused : used_at fresh ≡ 0
    pub used : (u : ℕ) (s : S) (v : ℕ) → u ≤ v → used_at s ≤ v → used_at (allow u s).1 ≤ v
    pub refilled : (u : ℕ) (s : S) → used_at s + refill ≤ u → allow u s ≡ allow u fresh

  -- The limiters as the comment of the code means them: every address has one, and none is
  -- forgotten.
  abbrev pub remember : List Request → (Text → S) → List Bool
  remember [] limiters = []
  remember (req ∷ reqs) limiters =
      let (allowed, limiter) = allow req.allowed_at (limiters req.ip) in
      allowed ∷ remember reqs (λ k. if text_eq req.ip k then limiter else limiters k)

  -- The clock does not run backwards between requests, and Allow looks at it within `delay`.
  abbrev pub AreTimely : ℕ → ℕ → List Request → Type 0
  AreTimely delay t [] = Unit
  AreTimely delay t (req ∷ reqs) =
      (t ≤ req.now)
      × (req.now ≤ req.allowed_at)
      × (req.allowed_at ≤ req.now + delay)
      × AreTimely delay req.now reqs

  module _ (used_at : S → ℕ) (refill delay : ℕ) (bucket : IsBucket used_at refill)
      (outlasts : refill + delay ≤ limiter_idle_ttl) where
    -- From t on, the entry of an address answers as the limiter that is remembered.
    record Answers (t : ℕ) (found : Option (Client S)) (limiter : S) : Type 0 where
      same : (u : ℕ) → t ≤ u → allow u (limiter_of fresh allow found) ≡ allow u limiter
      seen : (e : Client S) → found ≡ some e → e.last_seen ≤ t
      asked : (e : Client S) → found ≡ some e → used_at e.limiter ≤ e.last_seen + delay

    later-Answers :
        (t now : ℕ) (found : Option (Client S)) (limiter : S)
        → t ≤ now
        → Answers t found limiter
        → Answers now found limiter
    later-Answers t now found limiter h a = record {
      same = λ u le. a.same u (omega arith);
      seen = λ e eq. omega (arith, a.seen e eq);
      asked = a.asked;
    }

    forget_idle-Answers :
        (now : ℕ) (found : Option (Client S)) (limiter : S)
        → Answers now found limiter
        → Answers now (forget_idle now found) limiter
    unfolding forget_idle
    forget_idle-Answers now none limiter a = a
    forget_idle-Answers now (some e) limiter a =
        elim (Bool-cases (ltb limiter_idle_ttl (now - e.last_seen))) [
          | inl idle ↦ rw idle record {
            same = λ u le.
                sym (bucket.refilled u e.limiter (ground (arith, a.asked e refl))) ∙ a.same u le;
            seen = λ f eq. absurd (ground arith);
            asked = λ f eq. absurd (ground arith);
          }
          | inr busy ↦ rw busy a
        ]

    -- Every address of the table answers as its limiter.
    AllAnswer : ℕ → (Text → Option (Client S)) → (Text → S) → Type 0
    AllAnswer t clients limiters = (k : Text) → Answers t (clients k) (limiters k)

    sweep-AllAnswer :
        (now : ℕ) (table : Table S) (limiters : Text → S)
        → AllAnswer now table.clients limiters
        → AllAnswer now (sweep now table).clients limiters
    unfolding sweep AllAnswer
    sweep-AllAnswer now table limiters h k =
        elim (Bool-cases (ltb limiter_idle_ttl (now - table.last_sweep))) [
          | inl due ↦ rw due (forget_idle-Answers now (table.clients k) (limiters k) (h k))
          | inr not_due ↦ rw not_due (h k)
        ]

    used-Answers :
        (t : ℕ) (found : Option (Client S)) (limiter : S)
        → Answers t found limiter
        → used_at (limiter_of fresh allow found) ≤ t + delay
    used-Answers t none limiter a = omega (arith, bucket.unused)
    used-Answers t (some e) limiter a = omega (arith, a.asked e refl, a.seen e refl)

    asked-Answers :
        (req : Request) (found : Option (Client S)) (limiter : S)
        → req.now ≤ req.allowed_at
        → req.allowed_at ≤ req.now + delay
        → Answers req.now found limiter
        → Answers req.now
            (some record {
              limiter = (allow req.allowed_at (limiter_of fresh allow found)).1;
              last_seen = req.now;
            })
            (allow req.allowed_at limiter).1
    asked-Answers req found limiter early late a = record {
      same = λ u le. ap (λ s. allow u s.1) (a.same req.allowed_at early);
      seen = λ e eq. ground arith;
      asked = λ e eq. ground (
        arith,
        bucket.used req.allowed_at (limiter_of fresh allow found) (req.now + delay) late
            (used-Answers req.now found limiter a),
      );
    }

    request-AllAnswer :
        (req : Request) (table : Table S) (limiters : Text → S)
        → req.now ≤ req.allowed_at
        → req.allowed_at ≤ req.now + delay
        → AllAnswer req.now table.clients limiters
        → AllAnswer req.now (limit_request fresh allow req table).0.clients (λ k.
          if text_eq req.ip k then (allow req.allowed_at (limiters req.ip)).1 else limiters k)
    unfolding limit_request set_client AllAnswer
    request-AllAnswer req table limiters early late h k =
        let swept = sweep-AllAnswer req.now table limiters h in
        elim (Bool-cases (text_eq req.ip k)) [
          | inl e ↦ rw e (
              asked-Answers req ((sweep req.now table).clients req.ip) (limiters req.ip) early late
                (swept req.ip))
          | inr e ↦ rw e (swept k)
        ]

    limit_requests-remember_from :
        (t : ℕ) (reqs : List Request) (table : Table S) (limiters : Text → S)
        → AreTimely delay t reqs
        → AllAnswer t table.clients limiters
        → limit_requests fresh allow reqs table ≡ remember reqs limiters
    unfolding limit_requests limit_request AllAnswer
    limit_requests-remember_from t [] table limiters times h = refl
    limit_requests-remember_from t (req ∷ reqs) table limiters times h =
        let (later, early, late, rest) = times in
        let now : AllAnswer req.now table.clients limiters =
          λ k. later-Answers t req.now (table.clients k) (limiters k) later (h k) in
        let swept = sweep-AllAnswer req.now table limiters now req.ip in
        let head = swept.same req.allowed_at early in
        let tail =
          limit_requests-remember_from req.now reqs (limit_request fresh allow req table).0 _ rest
            (request-AllAnswer req table limiters early late now) in
        cons_eq (ap (λ r. r.0) head) tail

    -- If a token bucket answers as a new one once `refill` has passed since it was asked, Allow looks
    -- at the clock at most `delay` after the middleware, both together are at most limiterIdleTTL,
    -- and the clock does not run backwards, then a middleware that starts with no clients answers
    -- every run of requests as if each address kept its limiter for ever.
    pub limit_requests-remember :
        (start : ℕ) (reqs : List Request)
        → AreTimely delay start reqs
        → limit_requests fresh allow reqs record { clients = λ k. none; last_sweep = start }
          ≡ remember reqs (λ k. fresh)
    unfolding AllAnswer
    limit_requests-remember start reqs times =
        limit_requests-remember_from start reqs _ (λ k. fresh) times
          λ k. record {
            same = λ u le. refl;
            seen = λ e eq. absurd (ground arith);
            asked = λ e eq. absurd (ground arith);
          }
