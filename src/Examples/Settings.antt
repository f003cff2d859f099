-- ===== src/Examples/Settings.antt =====
-- A configuration with two entries in the pool; the example decoder takes its input for the bytes.
use reality_hydra.Base.{ℕ, ◌≡◌, refl, [], ◌∷◌, replicate, none, ok, trim, text_eq, text_le}
use reality_hydra.Base.Sort.{insert, sort}
use reality_hydra.Pool.{domain_tag}
use reality_hydra.Pool.Master.{check_entries, check_pairs, new}
use reality_hydra.Config.{
  HydraConfig, RawConfig, Base64, parse_u64, unit_secs, parse_parts, parse_duration, strip_b64,
  transpose, decode_b64, decode_pin, into_config,
}
use reality_hydra.Config.Checked.{IsChecked, into_config-IsChecked}
use reality_hydra.Examples.Fixtures.{whole_floats, entry_a, entry_b}

abbrev pub plain_decoder : Base64
plain_decoder = record { decode = λ s. ok s }

abbrev pub raw : RawConfig ℕ
raw = record {
  master_secret = replicate 32 65;
  server_salt = replicate 16 66;
  pool_format = domain_tag;
  epoch_len = 54 ∷ 104 ∷ [];
  active_k = 1;
  dest = none;
  coherence_cidrs = [];
  pool = entry_b ∷ entry_a ∷ [];
  reality = none;
  server_addr = none;
  cert_pin = none;
}

abbrev pub checked : HydraConfig ℕ
checked = record {
  master_secret = replicate 32 65;
  server_salt = replicate 16 66;
  epoch_len = 21600;
  active_k = 1;
  master_list = record { entries = entry_a ∷ entry_b ∷ [] };
  dest = none;
  coherence_cidrs = [];
  reality = none;
  server_addr = none;
  cert_pin = none;
}

pub accepted : into_config whole_floats plain_decoder raw ≡ ok checked
unfolding into_config decode_b64 strip_b64 trim parse_duration parse_parts unit_secs parse_u64 new
    check_entries check_pairs sort insert text_eq text_le transpose decode_pin
accepted = refl

into_config-IsChecked_example :
    IsChecked whole_floats plain_decoder checked × (domain_tag ≡ domain_tag)
into_config-IsChecked_example = into_config-IsChecked whole_floats plain_decoder raw accepted
