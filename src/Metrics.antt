-- ===== src/Metrics.antt =====
-- src/metrics.rs: the sample of the device's metrics, and the reading of `/proc/meminfo`.
--
-- The numbers of `f32` are a parameter, with their parser and a division by a thousand.
use xanh_tab.Prelude.{
  ℕ, ◌-◌, ◌^◌, ◌/◌, Bool, Option, none, some, List, [], ◌∷◌, if◌then◌else◌, ◌≡◌, refl,
}
use xanh_tab.Text.{Text, codes, text_eq, trim, split_whitespace}
use xanh_tab.Text.Methods.{lines, parse_unsigned}
use xanh_tab.Model.{EgressMode, StreamProfile}
use xanh_tab.Blocklist.{Blocklist, len}

pub record StreamMetrics (Float : Type 0) : Type 0 where
  pub fps : Float
  pub bitrate_kbps : ℕ
  pub packet_loss_percent : Float
  pub connected : Bool

pub record ComponentVersions : Type 0 where
  pub control_plane : Text
  pub webkit_engine : Text
  pub gstreamer : Text
  pub rswebrtc : Text

pub record DeviceMetrics (Float : Type 0) : Type 0 where
  pub sampled_at : ℕ
  pub memory_total_mib : ℕ
  pub memory_available_mib : ℕ
  pub temperature_celsius : Option Float
  pub stream : StreamMetrics Float
  pub profile : StreamProfile
  pub egress : EgressMode
  pub blocklist_entries : ℕ
  pub blocked_requests : ℕ
  pub blocklist_enabled : Bool
  pub versions : ComponentVersions

-- The second word of a line as a `u64` of kibibytes, in mebibytes; zero where it is none.
unfoldable pub mebibytes : List Text → ℕ
unfolding parse_unsigned
mebibytes [] = 0
mebibytes (word ∷ _) = elim (parse_unsigned (2 ^ 64 - 1) word) [ none ↦ 0 | some n ↦ n / 1024 ]

-- The loop of `read_memory`: the total and the available memory, the last line of each counts.
unfoldable pub read_lines : List Text → ℕ × ℕ → ℕ × ℕ
unfolding mebibytes text_eq split_whitespace
read_lines [] found = found
read_lines (line ∷ rest) (total, available) = elim (split_whitespace line) [
  | [] ↦ read_lines rest (total, available)
  | word ∷ parts ↦ read_lines rest (
      if text_eq word (codes "MemTotal:")
      then (mebibytes parts, available)
      else if text_eq word (codes "MemAvailable:")
      then (total, mebibytes parts)
      else (total, available))
]

-- `read_memory`, by the content of `/proc/meminfo`.
unfoldable pub read_memory : Option Text → ℕ × ℕ
unfolding read_lines lines
read_memory none = (0, 0)
read_memory (some raw) = read_lines (lines raw) (0, 0)

module _ {Float : Type 0} (parse_f32 : Text → Option Float) (per_thousand : Float → Float) where
  -- `read_temperature`, by the content of its file.
  unfoldable pub read_temperature : Option Text → Option Float
  unfolding trim
  read_temperature none = none
  read_temperature (some raw) = elim (parse_f32 (trim raw)) [
    | none ↦ none
    | some value ↦ some (per_thousand value)
  ]

  -- `MetricsCollector::sample`, at a time and with both files.
  unfoldable pub sample :
      StreamMetrics Float
      → Blocklist
      → ComponentVersions
      → ℕ
      → Option Text
      → Option Text
      → StreamProfile
      → EgressMode
      → Bool
      → DeviceMetrics Float
  unfolding read_memory read_temperature len
  sample stream blocklist versions now meminfo thermal profile egress blocklist_enabled =
      let (memory_total_mib, memory_available_mib) = read_memory meminfo in
      record {
        sampled_at = now;
        memory_total_mib = memory_total_mib;
        memory_available_mib = memory_available_mib;
        temperature_celsius = read_temperature thermal;
        stream = stream;
        profile = profile;
        egress = egress;
        blocklist_entries = len blocklist;
        blocked_requests = blocklist.hits;
        blocklist_enabled = blocklist_enabled;
        versions = versions;
      }

two_lines_are_read :
    read_memory (some (codes "MemTotal:  4096 kB\nFoo: 1\nMemAvailable: 2049 kB\n")) ≡ (4, 2)
unfolding read_memory lines
two_lines_are_read = refl
