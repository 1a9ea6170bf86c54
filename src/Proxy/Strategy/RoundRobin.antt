-- ===== src/Proxy/Strategy/RoundRobin.antt =====
-- That round robin comes to every candidate, and the strategies as instances of the interface.
use native.Mathlib.Nat.{mod-add-mod, add-mod-mod, mod-eq_of_lt, mod-lt, add-mod_right}
use cruvero_mcp_gateway.Prelude.{
  ℕ, zero, suc, ◌+◌, ◌-◌, ◌%◌, ◌<◌, ◌≡◌, sym, ap, ◌∙◌, List, [], ◌∷◌, some, length, get_elem?, ok,
  arith,
}
use cruvero_mcp_gateway.Types.{ServerRecord}
use cruvero_mcp_gateway.Proxy.Strategy.{
  RoutingStrategy, RoutingRequest, Listed, round_robin, position, word,
}

position_small : (c n : ℕ) → c < word → position c n ≡ c % suc n
unfolding position
position_small c n h = ap (λ x. x % suc n) (omega arith)

-- The number of steps from c to i, around a circle of m.
steps : ℕ → ℕ → ℕ → ℕ
steps c i m = (i + (m - c % m)) % m

add-steps : (c i n : ℕ) → i < suc n → (c + steps c i (suc n)) % suc n ≡ i
unfolding steps
add-steps c i n h =
    add-mod-mod c (i + (suc n - c % suc n)) (suc n)
    ∙ sym (mod-add-mod c (suc n) (i + (suc n - c % suc n)))
    ∙ ap (λ x. x % suc n) (omega (arith, mod-lt c {m = suc n} (omega arith)))
    ∙ add-mod_right i (suc n)
    ∙ mod-eq_of_lt h

steps-lt : (c i n : ℕ) → steps c i (suc n) < suc n
unfolding steps
steps-lt c i n = mod-lt (i + (suc n - c % suc n)) {m = suc n} (omega arith)

-- The counter after a number of calls with the same candidates.
unfoldable pub advance : ℕ → List ServerRecord → RoutingRequest → ℕ → ℕ
advance zero ss req c = c
advance (suc k) ss req c = advance k ss req (round_robin c ss req).1

advance-add :
    (k c : ℕ) (s : ServerRecord) (ss : List ServerRecord) (req : RoutingRequest)
    → c + k < word
    → advance k (s ∷ ss) req c ≡ c + k
unfolding advance round_robin
advance-add zero c s ss req h = omega arith
advance-add (suc k) c s ss req h =
    ap (advance k (s ∷ ss) req) (mod-eq_of_lt (omega (arith, h)))
    ∙ advance-add k (suc c) s ss req (omega (arith, h))
    ∙ omega arith

-- From a counter that does not wrap on the way, each of the candidates is chosen within as many
-- calls as there are candidates.
pub round_robin_fair :
    (c i : ℕ) (ss : List ServerRecord) (req : RoutingRequest)
    → i < length ss
    → c + length ss < word
    → (k : ℕ) × (k < length ss)
      × ((round_robin (advance k ss req c) ss req).0 ≡ ok (get_elem? ss i))
unfolding round_robin
round_robin_fair c i [] req h v = absurd (omega (arith, h))
round_robin_fair c i (s ∷ ss) req h v =
    let n = length ss in
    let k = steps c i (suc n) in
    let small = steps-lt c i n in
    (
      k,
      small,
      ap (λ p. ok (get_elem? (s ∷ ss) p))
          (ap (λ x. position x n) (advance-add k c s ss req (omega (arith, v, small)))
            ∙ position_small (c + k) n (omega (arith, v, small))
            ∙ add-steps c i n h),
    )

pub round_robin-Listed :
    (c : ℕ) (ss : List ServerRecord) (req : RoutingRequest) (s : ServerRecord)
    → (round_robin c ss req).0 ≡ ok (some s)
    → Listed s ss
unfolding round_robin
round_robin-Listed c [] req s e = ground arith
round_robin-Listed c (x ∷ ss) req s e = (position c (length ss), cc e)

-- Round robin keeps what the interface asks for.
abbrev pub round_robin_strategy : RoutingStrategy
round_robin_strategy = record {
  State = ℕ;
  select = round_robin;
  select-Listed = round_robin-Listed;
}
