-- ===== src/Tracing/Options.antt =====
-- What the two tracers of the server are made with: getApplicationTracingOptions,
-- getManagementTracingOptions and getTracingOptions of witchcraft/witchcraft.go. net.ParseIP is a
-- parameter, which says whether an address has four bytes; a port of the configuration is not
-- negative.
use witchcraft_go_server.Base.{
  ℕ, ◌+◌, ◌*◌, ◌^◌, ◌≤◌, ◌<◌, ◌%◌, Bool, true, false, Option, none, some, String, if◌then◌else◌,
  ◌≡◌, ◌↔◌, refl,
}
use witchcraft_go_server.Tracing.{
  SampleRate, not_positive, fraction, Sampler, never_sample, get_sampling_trace_option,
  trace_sampler_from_sample_rate, sampled_iff,
}

-- defaultSampleRate: the float64 that is nearest to 0.01.
abbrev pub default_sample_rate : SampleRate
default_sample_rate = fraction 5764607523034235 59

-- The fields of config.Install that the options are made from.
pub record Install : Type 0 where
  pub product_name : String
  pub address : String
  pub port : ℕ
  pub management_port : ℕ
  pub trace_sample_rate : Option SampleRate
  pub management_trace_sample_rate : Option SampleRate

-- An address that was parsed, and whether it has four bytes.
pub record Ip : Type 0 where
  pub written : String
  pub is_v4 : Bool

-- wtracing.Endpoint
pub record Endpoint : Type 0 where
  pub service_name : String
  pub port : ℕ
  pub ipv4 : Option Ip
  pub ipv6 : Option Ip

-- The two options of a tracer.
pub record TracerOptions : Type 0 where
  pub local_endpoint : Endpoint
  pub sampler : Sampler

abbrev pub with_ip : Option Ip → Endpoint → Endpoint
with_ip none e = e
with_ip (some ip) e = if ip.is_v4 then record e { ipv4 = some ip } else record e { ipv6 = some ip }

-- The rate of the configuration, or the one that stands for it.
unfoldable pub rate_or : Option SampleRate → SampleRate → SampleRate
rate_or none r = r
rate_or (some s) r = s

-- The ids that a rate takes: none, or those below its part of 2^64, rounded down.
unfoldable pub IsSampled : SampleRate → ℕ → Type 0
IsSampled not_positive id = true ≡ false
IsSampled (fraction m k) id = (id + 1) * 2 ^ k ≤ m * 2 ^ 64

rate-IsSampled_iff :
    (r : SampleRate) (id : ℕ)
    → id < 2 ^ 64
    → (trace_sampler_from_sample_rate r id ≡ true) ↔ IsSampled r id
unfolding trace_sampler_from_sample_rate IsSampled
rate-IsSampled_iff not_positive id h = (λ e. absurd (cc), λ e. absurd (cc))
rate-IsSampled_iff (fraction m k) id h = sampled_iff m k id h

fallback_lem :
    (rate : Option SampleRate) (default_rate : SampleRate)
    → get_sampling_trace_option none (trace_sampler_from_sample_rate default_rate) rate
      ≡ trace_sampler_from_sample_rate (rate_or rate default_rate)
unfolding get_sampling_trace_option rate_or
fallback_lem none default_rate = refl
fallback_lem (some r) default_rate = refl

never_lem :
    (rate : Option SampleRate)
    → get_sampling_trace_option none never_sample rate
      ≡ trace_sampler_from_sample_rate (rate_or rate not_positive)
unfolding get_sampling_trace_option trace_sampler_from_sample_rate rate_or
never_lem none = refl
never_lem (some r) = refl

module _ (parse_ip : String → Option Ip) where
  unfoldable pub get_tracing_options :
      Option Sampler → Install → Sampler → ℕ → Option SampleRate → TracerOptions
  get_tracing_options configured install fallback port rate = record {
    local_endpoint = with_ip (parse_ip install.address) (record {
      service_name = install.product_name;
      port = port % 2 ^ 16;
      ipv4 = none;
      ipv6 = none;
    });
    sampler = get_sampling_trace_option configured fallback rate;
  }

  unfoldable pub get_application_tracing_options : Option Sampler → Install → TracerOptions
  unfolding get_tracing_options
  get_application_tracing_options application_trace_sampler install =
      get_tracing_options application_trace_sampler install
        (trace_sampler_from_sample_rate default_sample_rate) install.port install.trace_sample_rate

  unfoldable pub get_management_tracing_options : Option Sampler → Install → TracerOptions
  unfolding get_tracing_options
  get_management_tracing_options management_trace_sampler install =
      get_tracing_options management_trace_sampler install never_sample install.management_port
        install.management_trace_sample_rate

  -- Where the application has set no sampler of its own: the sampler among the options of the
  -- application's tracer takes an id if and only if it is below the part of 2^64 that the trace
  -- sample rate of the configuration says, for which 0.01 stands where there is none; the sampler
  -- among the options of the management tracer takes an id if and only if it is below that of the
  -- management rate, and none where there is no such rate.
  pub tracing_options-IsSampled :
      (install : Install) (id : ℕ)
      → id < 2 ^ 64
      → (((get_application_tracing_options none install).sampler id ≡ true)
          ↔ IsSampled (rate_or install.trace_sample_rate default_sample_rate) id)
        × (((get_management_tracing_options none install).sampler id ≡ true)
            ↔ IsSampled (rate_or install.management_trace_sample_rate not_positive) id)
  unfolding get_application_tracing_options get_management_tracing_options get_tracing_options
  tracing_options-IsSampled install id h = (
    rw (fallback_lem install.trace_sample_rate default_sample_rate) (rate-IsSampled_iff _ id h),
    rw (never_lem install.management_trace_sample_rate) (rate-IsSampled_iff _ id h),
  )
