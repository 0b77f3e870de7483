-- ===== src/Stealth.antt =====
-- protocol/core/transport/stealth.go: the parameters of a session, the frames that are sent as
-- decoys, and the throttle that answers slow replies. Durations are natural numbers of
-- nanoseconds, and a total of fifty latencies stays below 2^63. A function stands for the draws of
-- rand.Int, `noise n` for n bytes of rand.Read.
pub mod History
pub mod Pace
pub mod Throttle
use stealthlink.Prelude.{
  Bool, Bytes, List, [], drop, false, get_or, if◌then◌else◌, leb, length, ltb, not, take, true, ℕ,
  ◌%◌, ◌&&◌, ◌*◌, ◌++◌, ◌+◌, ◌-◌, ◌/◌, ◌||◌, ◌∷◌,
}
use stealthlink.Wire.Frames.{frame_padding}
use stealthlink.Wire.Writer.{typed, Event}

pub record StealthConfig : Type 0 where
  pub enabled : Bool
  pub decoy_streams : Bool
  pub protocol_polymorphism : Bool
  pub adaptive_throttling : Bool
  pub decoy_interval : ℕ

pub record SessionParams : Type 0 where
  pub frame_padding_min : ℕ
  pub frame_padding_max : ℕ
  pub flush_interval : ℕ
  pub batch_size : ℕ
  pub dummy_min_interval : ℕ
  pub dummy_max_interval : ℕ

-- The writer is no field: what the decoys write is a list of calls.
pub record StealthEngine : Type 0 where
  pub config : StealthConfig
  pub session_params : SessionParams
  pub latency_history : List ℕ
  pub throttled : Bool
  pub stopped : Bool

abbrev pub millisecond : ℕ
millisecond = 1000000

abbrev pub second : ℕ
second = 1000000000

unfoldable pub stealth_rand_int : ℕ → ℕ → ℕ → ℕ
stealth_rand_int least most draw =
    if leb most least then least else least + draw % (most - least + 1)

unfoldable pub stealth_rand_duration : ℕ → ℕ → ℕ → ℕ
stealth_rand_duration least most draw =
    if leb most least then least else least + draw % (most - least)

unfoldable pub generate_session_params : (ℕ → ℕ) → SessionParams
unfolding stealth_rand_int
generate_session_params draws = record {
  frame_padding_min = stealth_rand_int 8 32 (draws 0);
  frame_padding_max = stealth_rand_int 64 512 (draws 1);
  flush_interval = stealth_rand_int 1 5 (draws 2) * millisecond;
  batch_size = stealth_rand_int 32 128 (draws 3) * 1024;
  dummy_min_interval = stealth_rand_int 1 4 (draws 4) * second;
  dummy_max_interval = stealth_rand_int 5 15 (draws 5) * second;
}

abbrev pub default_stealth_config : StealthConfig
default_stealth_config = record {
  enabled = true;
  decoy_streams = true;
  protocol_polymorphism = true;
  adaptive_throttling = true;
  decoy_interval = 5 * second;
}

abbrev pub fixed_params : SessionParams
fixed_params = record {
  frame_padding_min = 16;
  frame_padding_max = 128;
  flush_interval = 2 * millisecond;
  batch_size = 64 * 1024;
  dummy_min_interval = 2 * second;
  dummy_max_interval = 8 * second;
}

unfoldable pub new_stealth_engine : StealthConfig → (ℕ → ℕ) → StealthEngine
unfolding generate_session_params
new_stealth_engine config draws = record {
  config = config;
  session_params =
      if config.protocol_polymorphism then generate_session_params draws else fixed_params;
  latency_history = [];
  throttled = false;
  stopped = false;
}

unfoldable pub total : List ℕ → ℕ
total [] = 0
total (d ∷ ds) = d + total ds

unfoldable pub avg_duration : List ℕ → ℕ
unfolding total
avg_duration [] = 0
avg_duration (d ∷ ds) = total (d ∷ ds) / length (d ∷ ds)

-- The history with a latency added, cut to its last fifty.
unfoldable pub remember : List ℕ → ℕ → List ℕ
remember history d =
    let longer = history ++ d ∷ [] in
    if ltb 50 (length longer) then drop (length longer - 50) longer else longer

abbrev pub slowed : StealthEngine → StealthEngine
slowed se = record se {
  throttled = true;
  session_params = record se.session_params {
    dummy_min_interval = se.session_params.dummy_min_interval * 3;
    dummy_max_interval = se.session_params.dummy_max_interval * 3;
  };
}

-- The end of RecordLatency, of the averages of the last five latencies and of those before.
unfoldable pub adapt : StealthEngine → ℕ → ℕ → (ℕ → ℕ) → StealthEngine
unfolding generate_session_params
adapt se recent_avg older_avg draws =
    if ltb (older_avg * 3) recent_avg && ltb (500 * millisecond) recent_avg
    then if se.throttled then se else slowed se
    else if se.throttled && ltb recent_avg (older_avg * 2)
    then record se { throttled = false; session_params = generate_session_params draws }
    else se

unfoldable pub record_latency : StealthEngine → ℕ → (ℕ → ℕ) → StealthEngine
unfolding remember avg_duration adapt
record_latency se d draws =
    let history = remember se.latency_history d in
    let longer = record se { latency_history = history } in
    if not se.config.adaptive_throttling || ltb (length history) 10
    then longer
    else adapt longer (avg_duration (drop (length history - 5) history))
        (avg_duration (take (length history - 5) history)) draws

-- Latencies in order, each with the draws of that call.
unfoldable pub record_latencies : StealthEngine → List (ℕ × (ℕ → ℕ)) → StealthEngine
unfolding record_latency
record_latencies se [] = se
record_latencies se ((d, draws) ∷ rest) = record_latencies (record_latency se d draws) rest

unfoldable pub stop : StealthEngine → StealthEngine
stop se = record se { stopped = true }

abbrev pub decoy_patterns : List (List ℕ)
decoy_patterns =
    (64 ∷ 128 ∷ 256 ∷ [])
    ∷ (512 ∷ 128 ∷ 64 ∷ 32 ∷ [])
    ∷ (1024 ∷ 256 ∷ 128 ∷ [])
    ∷ (128 ∷ 256 ∷ 512 ∷ 1024 ∷ 256 ∷ [])
    ∷ (32 ∷ 64 ∷ 128 ∷ 64 ∷ 32 ∷ [])
    ∷ []

unfoldable pub decoys : (ℕ → Bytes) → List ℕ → List Event
decoys noise [] = []
decoys noise (size ∷ sizes) =
    typed (record { frame_type = frame_padding; payload = noise size }) ∷ decoys noise sizes

-- The calls of one turn of decoyLoop after its pause, and the pause before.
unfoldable pub decoy_pause : StealthEngine → ℕ → ℕ
unfolding stealth_rand_duration
decoy_pause se draw =
    stealth_rand_duration se.session_params.dummy_min_interval se.session_params.dummy_max_interval
      draw

unfoldable pub decoy_turn : (ℕ → Bytes) → StealthEngine → ℕ → List Event
unfolding decoys stealth_rand_int
decoy_turn noise se draw =
    if se.stopped || se.throttled
    then []
    else decoys noise
        (get_or decoy_patterns (stealth_rand_int 0 (length decoy_patterns - 1) draw) [])
