-- ===== src/Examples/Commands.antt =====
-- The names of a configuration as lines, and the service of a server.
use reality_hydra.Base.{
  starts_slash, ◌≡◌, refl, true, false, [], ◌∷◌, ascii, text_eq, text_le, get, put, get-put_other,
  none, some, arith, Bytes, List, Option, Result, ok,
}
use reality_hydra.Base.Sort.{insert, sort}
use reality_hydra.Pool.{contains, has_sni, from_unsorted, epoch_at, derive_seed}
use reality_hydra.Pool.Sampler.{key_le, draw_keys, subset_from_seed, keyed_epoch_subset}
use reality_hydra.Cli.{server_names, resolve_epoch}
use reality_hydra.Cli.Render.{
  Value, array, json_value, inbound_value, as_xray, ServerNamesArgs, server_names_output,
}
use reality_hydra.Cli.Render.Listed.{
  strings_at, pool_at, inbound_at, Readable, listed, server_names_output-listed,
}
use reality_hydra.Cli.Names.{has_line}
use reality_hydra.Cli.Service.{
  ServiceSpec, server, service_name, Machine, Rights, install, uninstall,
}
use reality_hydra.Cli.Service.Removed.{unit_path, install-uninstall}
use reality_hydra.Examples.Fixtures.{checksum, checksum_hmac, whole_floats, counter, sum}
use reality_hydra.Examples.Settings.{plain_decoder}
use reality_hydra.Examples.Starts.{healthy}
use reality_hydra.Examples.Routing.{config, loads, there, text_parser}

in_pool :
    contains
      (server_names whole_floats counter checksum_hmac config
        (resolve_epoch 21599 config none none)
        false)
      (b'b' ∷ [])
    ≡ true
unfolding server_names resolve_epoch keyed_epoch_subset subset_from_seed from_unsorted draw_keys
    key_le sort insert text_le text_eq has_sni epoch_at derive_seed checksum_hmac checksum sum
in_pool = refl

abbrev no_encoder : Bytes → Bytes
no_encoder bytes = bytes

abbrev names : Value
names = json_value (pool_at whole_floats no_encoder counter checksum_hmac config 21601)

abbrev inbound : Value
inbound = inbound_at whole_floats no_encoder counter checksum_hmac config 21601

-- Two texts, one for an array and one for an object.
writer : Value → Result Bytes Bytes
writer (array vs) = ok []
writer v = ok (1 ∷ [])

reader : Bytes → List Bytes → Option (List Bytes)
reader [] path = strings_at path (some names)
reader (b ∷ text) path = strings_at path (some inbound)

abbrev names_args : ServerNamesArgs
names_args = record {
  config = ascii "hydra.toml";
  format = as_xray;
  at_secs = none;
  epoch = none;
  single = false;
}

names-Readable : Readable whole_floats no_encoder writer reader names
unfolding writer reader json_value
names-Readable = ([], refl, λ path. refl)

inbound-Readable : Readable whole_floats no_encoder writer reader inbound
unfolding writer reader inbound_value
inbound-Readable = (1 ∷ [], refl, λ path. refl)

server_names_output-listed_example :
    (out : Bytes) × (found : List Bytes) × (server_names_output whole_floats no_encoder writer
        counter checksum_hmac plain_decoder text_parser healthy there 21601 names_args
      ≡ ok out)
    × (listed reader as_xray out ≡ some found)
    × (has_line found (b'b' ∷ []) ≡ true)
server_names_output-listed_example =
    server_names_output-listed whole_floats no_encoder writer reader counter checksum_hmac
      plain_decoder text_parser healthy there names_args config 21599 21601 (b'b' ∷ []) loads refl
      refl refl ((refl, tt), ((refl, tt), tt)) (omega arith) (omega arith) names-Readable
      inbound-Readable in_pool

abbrev spec : ServiceSpec
spec = record {
  role = server;
  config = b'c' ∷ [];
  listen = b'l' ∷ [];
  schedule = b'h' ∷ [];
  name = some (b'n' ∷ []);
  bin = none;
}

-- Where `systemctl enable` puts a link, which is taken to stay.
abbrev link : Bytes
link = ascii "/etc/systemd/system/timers.target.wants/n.timer"

abbrev root : Rights
root = record {
  can_write = λ path. true;
  can_remove = λ path. true;
  succeeds = λ cmd. true;
  effect = λ cmd files. put files link [];
}

no_link :
    (text_eq link (unit_path (service_name spec) (ascii ".service")) ≡ false)
    × (text_eq link (unit_path (service_name spec) (ascii ".timer")) ≡ false)
    × (text_eq link (b'f' ∷ []) ≡ false)
unfolding text_eq ascii service_name
no_link = (refl, refl, refl)

abbrev machine : Machine
machine = record { files = (b'f' ∷ [], 1 ∷ []) ∷ []; ran = [] }

plain : starts_slash (service_name spec) ≡ false
unfolding starts_slash service_name
plain = refl

not_service : text_eq (unit_path (service_name spec) (ascii ".service")) (b'f' ∷ []) ≡ false
unfolding text_eq ascii service_name
not_service = refl

not_timer : text_eq (unit_path (service_name spec) (ascii ".timer")) (b'f' ∷ []) ≡ false
unfolding text_eq ascii service_name
not_timer = refl

install-uninstall_example :
    let after = (uninstall root spec (install root none spec machine).0).0 in
    (get after.files (unit_path (service_name spec) (ascii ".service")) ≡ none)
    × (get after.files (unit_path (service_name spec) (ascii ".timer")) ≡ none)
    × (get after.files (b'f' ∷ []) ≡ get machine.files (b'f' ∷ []))
install-uninstall_example =
    install-uninstall root none spec machine (b'f' ∷ []) plain refl refl
      (λ cmd files. get-put_other files link _ [] no_link.0)
      (λ cmd files. get-put_other files link _ [] no_link.1) not_service not_timer
      (λ cmd files. get-put_other files link _ [] no_link.2)
