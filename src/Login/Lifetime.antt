-- ===== src/Login/Lifetime.antt =====
-- How long the agent keeps the key: `resolveAgentLifetimeSecs` and `parseDurationOrSeconds`.
use opkssh.Base.{
  ℕ, ◌*◌, ◌/◌, ◌%◌, ◌≤◌, [], ◌≡◌, ◌≢◌, ◌⊎◌, ◌↔◌, inl, inr, refl, subst, arith, Option, none, some,
  Str, ◌==◌, str_eq, str_beq_iff, if◌then◌else◌, ltb, Result, ok, err, ◌>>=◌, ℤ, pos, negsuc,
  ltb_constant, gtb_constant, mul_int64,
}
use opkssh.Text.{trim_space}

pub data LifetimeError : Type 0 where
  empty_duration not_a_duration below_a_second too_large : LifetimeError
  out_of_range : ℤ → LifetimeError

-- `time.Second`, in nanoseconds; `math.MaxUint32`; `defaultAgentLifetime`.
abbrev pub second : ℕ
second = 1000000000

abbrev pub max_uint32 : ℕ
max_uint32 = 0xFFFFFFFF

abbrev pub default_agent_lifetime : ℕ
default_agent_lifetime = 24 * 3600 * second

-- `uint32(d / time.Second)` for a duration that is not negative.
abbrev pub uint32_seconds : ℤ → ℕ
uint32_seconds (pos n) = n / second % 0x100000000
uint32_seconds (negsuc n) = 0

-- The value that sets the lifetime, if one does: the argument, or that of the client
-- configuration, if there is a configuration.
unfoldable pub lifetime_value : Str → Option Str → Option Str
lifetime_value arg config =
    if arg == []
    then elim config [ none ↦ none | some v ↦ if v == [] then none else some v ]
    else some arg

abbrev pub seconds_of : ℤ → Result LifetimeError ℕ
seconds_of d =
    if ltb_constant d second
    then err below_a_second
    else if gtb_constant d (max_uint32 * second)
    then err too_large
    else ok (uint32_seconds d)

abbrev pub in_range : ℤ → Result LifetimeError ℤ
in_range (pos n) = if ltb max_uint32 n then err (out_of_range (pos n)) else ok (mul_int64 n second)
in_range (negsuc n) = err (out_of_range (negsuc n))

-- `time.ParseDuration`, and `strconv.ParseInt` with base 10 and 64 bits.
module _ (parse_duration parse_int : Str → Option ℤ) where
  abbrev parse_seconds : Option ℤ → Result LifetimeError ℤ
  parse_seconds none = err not_a_duration
  parse_seconds (some sec) = in_range sec

  abbrev parse_trimmed : Str → Option ℤ → Result LifetimeError ℤ
  parse_trimmed t (some d) = ok d
  parse_trimmed t none = parse_seconds (parse_int t)

  -- `parseDurationOrSeconds(s)`
  unfoldable pub parse_duration_or_seconds : Str → Result LifetimeError ℤ
  parse_duration_or_seconds s =
      if trim_space s == []
      then err empty_duration
      else parse_trimmed (trim_space s) (parse_duration (trim_space s))

  abbrev resolve : Option Str → Result LifetimeError ℕ
  resolve none = ok (uint32_seconds (pos default_agent_lifetime))
  resolve (some value) = parse_duration_or_seconds value >>= seconds_of

  -- `resolveAgentLifetimeSecs()`, for the argument and the value in the client configuration.
  unfoldable pub resolve_agent_lifetime_secs : Str → Option Str → Result LifetimeError ℕ
  unfolding lifetime_value
  resolve_agent_lifetime_secs arg config = resolve (lifetime_value arg config)

  -- What a text asks for: a duration, of which the whole seconds count, or a number of seconds.
  abbrev Asks : Str → ℕ → Type 0
  Asks t n =
      ((d : ℕ) × (parse_duration t ≡ some (pos d))
        × (second ≤ d)
        × (d ≤ max_uint32 * second)
        × (n ≡ d / second))
      ⊎ ((parse_duration t ≡ none) × (parse_int t ≡ some (pos n)))

  pub record Lasts (arg : Str) (config : Option Str) (n : ℕ) : Type 0 where
    pub positive : 1 ≤ n
    pub bounded : n ≤ max_uint32
    pub asked :
        ((lifetime_value arg config ≡ none) × (n ≡ 86400))
        ⊎ ((v : Str) × (lifetime_value arg config ≡ some v)
            × (trim_space v ≢ [])
            × Asks (trim_space v) n)

  exact : (m : ℕ) → m ≤ max_uint32 → mul_int64 m second ≡ pos (m * second)
  exact m h = ground arith

  -- A number of nanoseconds that is between a second and the largest number of seconds.
  abbrev Counted : ℤ → ℕ → Type 0
  Counted d n = (m : ℕ) × (d ≡ pos m) × (second ≤ m) × (m ≤ max_uint32 * second) × (n ≡ m / second)

  seconds-Counted : (d : ℤ) (n : ℕ) → seconds_of d ≡ ok n → Counted d n
  seconds-Counted (pos m) n h = (m, refl, ground arith, ground arith, ground arith)
  seconds-Counted (negsuc m) n h = ground arith

  Counted-seconds : (d : ℤ) (n : ℕ) → Counted d n → seconds_of d ≡ ok n
  Counted-seconds d n (m, e, low, high, q) = ground arith

  from_range :
      (k n : ℕ) → in_range (pos k) >>= seconds_of ≡ ok n → (k ≡ n) × (1 ≤ n) × (n ≤ max_uint32)
  from_range k n h = ground (arith, exact k)

  to_range : (n : ℕ) → 1 ≤ n → n ≤ max_uint32 → in_range (pos n) >>= seconds_of ≡ ok n
  to_range n l u = ground (arith, exact n)

  trimmed-Asks :
      (t : Str) (pd pi : Option ℤ) (n : ℕ)
      → parse_duration t ≡ pd
      → parse_int t ≡ pi
      → parse_trimmed t pd >>= seconds_of ≡ ok n
      → Asks t n × (1 ≤ n) × (n ≤ max_uint32)
  trimmed-Asks t (some d) pi n e i h =
      let (m, em, low, high, q) = seconds-Counted d n h in
      (inl (m, ground arith, low, high, q), omega arith, omega arith)
  trimmed-Asks t none none n e i h = ground arith
  trimmed-Asks t none (some (negsuc k)) n e i h = ground arith
  trimmed-Asks t none (some (pos k)) n e i h =
      let (same, l, u) = from_range k n (subst (λ r. parse_seconds r >>= seconds_of ≡ ok n) i h) in
      (inr (e, ground arith), l, u)

  Asks-trimmed :
      (t : Str) (n : ℕ)
      → Asks t n
      → 1 ≤ n
      → n ≤ max_uint32
      → parse_trimmed t (parse_duration t) >>= seconds_of ≡ ok n
  Asks-trimmed t n (inl (d, e, low, high, q)) l u =
      rw e (Counted-seconds (pos d) n (d, refl, low, high, q))
  Asks-trimmed t n (inr (e, i)) l u = rw (e, i) (to_range n l u)

  value-Asks :
      (v : Str) (n : ℕ)
      → resolve (some v) ≡ ok n
      → (trim_space v ≢ []) × Asks (trim_space v) n × (1 ≤ n) × (n ≤ max_uint32)
  unfolding parse_duration_or_seconds
  value-Asks v n h =
      ground (arith, str_beq_iff (trim_space v) [], trimmed-Asks (trim_space v) _ _ n refl refl)

  Asks-value :
      (v : Str) (n : ℕ)
      → trim_space v ≢ []
      → Asks (trim_space v) n
      → 1 ≤ n
      → n ≤ max_uint32
      → resolve (some v) ≡ ok n
  unfolding parse_duration_or_seconds
  Asks-value v n t a l u =
      ground (arith, str_beq_iff (trim_space v) [], Asks-trimmed (trim_space v) n a l u)

  sound :
      (arg : Str) (config : Option Str) (n : ℕ)
      → resolve_agent_lifetime_secs arg config ≡ ok n
      → Lasts arg config n
  unfolding resolve_agent_lifetime_secs
  sound arg config n h = go (lifetime_value arg config) refl h
    where
      go : (o : Option Str) → lifetime_value arg config ≡ o → resolve o ≡ ok n → Lasts arg config n
      go none e r = record {
        positive = ground arith;
        bounded = ground arith;
        asked = inl (e, ground arith);
      }
      go (some v) e r =
          let (t, a, l, u) = value-Asks v n r in
          record { positive = l; bounded = u; asked = inr (v, e, t, a) }

  complete :
      (arg : Str) (config : Option Str) (n : ℕ)
      → Lasts arg config n
      → resolve_agent_lifetime_secs arg config ≡ ok n
  unfolding resolve_agent_lifetime_secs
  complete arg config n r = elim r.asked [
    | inl (e, d) ↦ rw e (ground arith)
    | inr (v, e, t, a) ↦ rw e (Asks-value v n t a r.positive r.bounded)
  ]

  -- The agent is given a lifetime of n seconds exactly if n is at least 1 and fits into 32 bits,
  -- and either nothing sets a lifetime and n is a day, or the value that sets it, trimmed, is not
  -- empty and is a duration of at least one and at most 2^32 - 1 seconds, n of them whole, or, where
  -- it is no duration, the number n. The code's product wraps around at 64 bits, its result at 32.
  pub resolve_agent_lifetime_secs_iff :
      (arg : Str) (config : Option Str) (n : ℕ)
      → (resolve_agent_lifetime_secs arg config ≡ ok n) ↔ Lasts arg config n
  resolve_agent_lifetime_secs_iff arg config n = (sound arg config n, complete arg config n)
