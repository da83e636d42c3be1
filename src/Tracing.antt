-- ===== src/Tracing.antt =====
-- The samplers of traces: getTracingOptions, getSamplingTraceOption and traceSamplerFromSampleRate
-- of witchcraft/witchcraft.go. A sample rate is a float64, which is a number m / 2^k; its product
-- with 2^64 is exact, and its conversion to uint64 rounds down.
pub mod Options
pub mod Requests
mod Tests
use native.Mathlib.Nat.{le-div_iff_mul-le, mul-le-mul}
use witchcraft_go_server.Base.{
  ℕ, zero, suc, ◌==◌, ◌+◌, ◌-◌, ◌*◌, ◌/◌, ◌^◌, ◌≤◌, ◌<◌, Bool, true, false, Bool-cases, Option,
  none, some, if◌then◌else◌, ltb, leb, leb_iff, ◌≡◌, ◌↔◌, inl, inr, refl, arith, String,
}

-- A finite float64: not above zero, or m / 2^k.
pub data SampleRate : Type 0 where
  not_positive : SampleRate
  fraction : ℕ → ℕ → SampleRate

abbrev pub Sampler : Type 0
Sampler = ℕ → Bool

abbrev pub never_sample : Sampler
never_sample id = false

abbrev pub always_sample : Sampler
always_sample id = true

-- uint64(sampleRate * float64(math.MaxUint64)); float64(math.MaxUint64) is 2^64.
unfoldable pub boundary : ℕ → ℕ → ℕ
boundary m k = (m * 2 ^ 64) / 2 ^ k

unfoldable pub trace_sampler_from_sample_rate : SampleRate → Sampler
unfolding boundary
trace_sampler_from_sample_rate not_positive = never_sample
trace_sampler_from_sample_rate (fraction m k) =
    if m == 0
    then never_sample
    else if leb (2 ^ k) m
    then always_sample
    else (λ id. ltb id (boundary m k))

-- getSamplingTraceOption
unfoldable pub get_sampling_trace_option : Option Sampler → Sampler → Option SampleRate → Sampler
unfolding trace_sampler_from_sample_rate
get_sampling_trace_option (some configured) fallback rate = configured
get_sampling_trace_option none fallback (some rate) = trace_sampler_from_sample_rate rate
get_sampling_trace_option none fallback none = fallback

pow_pos : (k : ℕ) → 0 < 2 ^ k
pow_pos zero = omega arith
pow_pos (suc k) = omega (arith, pow_pos k)

-- Below the boundary, as a statement without division.
below-boundary : (m k id : ℕ) → (id + 1 ≤ boundary m k) ↔ ((id + 1) * 2 ^ k ≤ m * 2 ^ 64)
unfolding boundary
below-boundary m k id = le-div_iff_mul-le (pow_pos k)

-- A rate of one or more samples what it says too: every id.
all_below : (m k id : ℕ) → id < 2 ^ 64 → 2 ^ k ≤ m → (id + 1) * 2 ^ k ≤ m * 2 ^ 64
all_below m k id h r =
    let p = mul-le-mul {n₁ = id + 1} {m₁ = 2 ^ k} {n₂ = 2 ^ 64} {m₂ = m} (omega (arith, h)) r in
    omega (arith, p)

positive_product : (k id : ℕ) → 0 < (id + 1) * 2 ^ k
positive_product k id =
    let p =
      mul-le-mul {n₁ = 1} {m₁ = 1} {n₂ = id + 1} {m₂ = 2 ^ k} (omega arith)
        (omega (arith, pow_pos k)) in
    omega (arith, p)

-- For a rate m / 2^k, an id below 2^64 is sampled if and only if (id + 1) * 2^k is at most
-- m * 2^64: what is sampled are the ids below the part of 2^64 that the rate says, rounded down, and
-- all of them for a rate of one or more.
pub sampled_iff :
    (m k id : ℕ)
    → id < 2 ^ 64
    → (trace_sampler_from_sample_rate (fraction m k) id ≡ true) ↔ ((id + 1) * 2 ^ k ≤ m * 2 ^ 64)
unfolding trace_sampler_from_sample_rate
sampled_iff m k id h = elim (Bool-cases (m == 0)) [
  | inl z ↦ (λ e. ground arith, λ e. ground (arith, positive_product k id))
  | inr z ↦ elim (Bool-cases (leb (2 ^ k) m)) [
    | inl l ↦ (λ e. all_below m k id h (ground arith), λ e. ground arith)
    | inr l ↦ (
      λ e. (below-boundary m k id).0 (ground arith),
      λ e. let b = (below-boundary m k id).1 e in ground (arith, b),
    )
  ]
]
