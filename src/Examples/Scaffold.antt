-- ===== src/Examples/Scaffold.antt =====
-- A configuration written with `--force`, its keys the bytes 1 to 4, with the codec of `Keys`.
use reality_hydra.Base.{
  map_err, trim, ◌≡◌, refl, ℕ, ◌<◌, true, false, [], ◌∷◌, ◌&&◌, not, Bytes, AreBytes, replicate, ok,
  err, is_utf8, ascii, text_eq, text_eq_self, get, if◌then◌else◌, FileTable, exists, arith,
  hex_byte,
}
use reality_hydra.Pool.Master.{bad_weight}
use reality_hydra.Config.{HydraConfig, parse_duration, parse_u64, unit_secs}
use reality_hydra.Config.Load.{Toml, from_file}
use reality_hydra.Cli.Init.{InitArgs, Drawn, Filling, filling}
use reality_hydra.Cli.Init.Text.{toml_text, written_text, run_init}
use reality_hydra.Config.Document.{plain_text, plain_char, visible}
use reality_hydra.Config.Deserialize.{Parses, deserialize}
use reality_hydra.Cli.Init.Template.{template, document_text-template, plain_text-hex_text}
use reality_hydra.Cli.Init.Loaded.{config_of, IsDrawn}
use reality_hydra.Cli.Init.Written.{run_init_loads}
use reality_hydra.Examples.Fixtures.{whole_floats}
use reality_hydra.Examples.Crypto.{sums}
use reality_hydra.Examples.Keys.{front_codec, front_encode, front-Standard}
use reality_hydra.Examples.Starts.{healthy}

abbrev pub drawn : Drawn
drawn = record {
  master_secret = replicate 32 1;
  salt_src = replicate 32 2;
  sid_src = replicate 32 3;
  private_key = replicate 32 4;
}

abbrev pub args : InitArgs
args = record {
  output = ascii "hydra.toml";
  force = true;
  dest = ascii "www.cloudflare.com:443";
  active_k = 6;
  epoch_len = ascii "6h";
  stdout = false;
}

abbrev filled : Filling
filled = filling sums front_encode drawn

abbrev text : Bytes
text = toml_text args filled

pub parser : Toml ℕ
parser = record {
  from_str = λ s.
      if text_eq s text
      then map_err (λ e. []) (deserialize (λ n. n) (template args filled))
      else err [];
}

text-is_utf8 : is_utf8 text ≡ true
unfolding is_utf8 filling toml_text front_encode sums hex_byte
text-is_utf8 = refl

parses : Parses {F = ℕ} (λ n. n) parser (template args filled)
unfolding parser
parses valid raw same = rw (document_text-template args filled, text_eq_self text, same) refl

abbrev pub there : FileTable
there = (ascii "hydra.toml", b'x' ∷ []) ∷ []

weights : (n : ℕ) → 0 < n → bad_weight whole_floats n ≡ false
weights n positive = ground arith

plain : (bytes : Bytes) → AreBytes bytes → plain_text (front_encode bytes) ≡ true
unfolding front_encode plain_text plain_char visible
plain bytes a = rw (plain_text-hex_text bytes a) refl

six_hours_plain : plain_text args.epoch_len ≡ true
unfolding plain_text ascii
six_hours_plain = refl

edge_plain : plain_text args.dest ≡ true
unfolding plain_text ascii
edge_plain = refl

drawn-IsDrawn : IsDrawn whole_floats (λ n. n) drawn
drawn-IsDrawn = record {
  master = (ground arith, refl);
  salt = (ground arith, refl);
  sid = (ground arith, refl);
  private = (ground arith, refl);
}

public-AreBytes : AreBytes (sums.public drawn.private_key)
unfolding sums
public-AreBytes = ground arith

may_write : exists there args.output && not args.force ≡ false
unfolding exists get text_eq ascii
may_write = refl

six_hours : parse_duration {F = ℕ} args.epoch_len ≡ ok 21600
unfolding parse_duration parse_u64 unit_secs trim ascii
six_hours = refl

-- The files then, and the configuration.
abbrev pub after_init : FileTable
after_init = (run_init sums front_encode healthy drawn args there).0

abbrev pub cfg : HydraConfig ℕ
cfg = config_of whole_floats (λ n. n) args 21600 drawn (sums.public drawn.private_key)

pub loads : from_file whole_floats front_codec parser healthy after_init args.output ≡ ok cfg
loads =
    (run_init_loads whole_floats (λ n. n) sums front_codec front_encode front-Standard parser
      weights plain healthy drawn args 21600 there (text-is_utf8, parses) drawn-IsDrawn
      public-AreBytes refl may_write (λ e. cc) (ground arith) six_hours_plain edge_plain six_hours
      refl refl).1

run_init_loads_example :
    let (after, ended) = run_init sums front_encode healthy drawn args there in
    (ended ≡ ok (written_text args.output filled))
    × (from_file whole_floats front_codec parser healthy after args.output
        ≡ ok (config_of whole_floats (λ n. n) args 21600 drawn (sums.public drawn.private_key)))
    × ((p : Bytes) → text_eq args.output p ≡ false → get after p ≡ get there p)
run_init_loads_example =
    run_init_loads whole_floats (λ n. n) sums front_codec front_encode front-Standard parser weights
      plain healthy drawn args 21600 there (text-is_utf8, parses) drawn-IsDrawn public-AreBytes refl
      may_write (λ e. cc) (ground arith) six_hours_plain edge_plain six_hours refl refl
