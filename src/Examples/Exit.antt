-- ===== src/Examples/Exit.antt =====
-- One connection of the exit node, its header in two chunks.
use reality_hydra.Base.{
  ◌+◌, ◌≡◌, ◌≢◌, ap, ◌⊎◌, true, List, [], ◌∷◌, ◌++◌, drop, All, Bytes, arith, err, panic,
  append-nil, concat, le_bytes,
}
use reality_hydra.Proto.{encode_host, encode_addr, unsigned, mac, encode_request}
use reality_hydra.Server.{header_too_long, Read, chunk, failed, World, handle}
use reality_hydra.Server.ReadLoop.{received, IsRead}
use reality_hydra.Server.Authentic.{Dropped, Refused, Admitted, handle_answers, handle_ends}
use reality_hydra.Examples.Fixtures.{checksum_hmac, key, edge}

abbrev pub noon : World
noon = record {
  clock = λ round. 1010 + 0;
  reaches = λ dest. true;
  reply_written = true;
  forward_written = true;
}

abbrev pub wire : Bytes
wire = encode_request checksum_hmac key 1000 edge

abbrev pub cut : List Bytes
cut = (1 ∷ 232 ∷ []) ∷ (drop 2 wire ++ (7 ∷ [])) ∷ []

pub some_rest : drop 2 wire ++ (7 ∷ []) ≢ []
unfolding encode_request unsigned encode_addr encode_host mac le_bytes
some_rest e = cc

pub joined : concat cut ≡ wire ++ (7 ∷ [])
unfolding encode_request unsigned encode_addr encode_host mac le_bytes
joined = ap (λ b. 1 ∷ 232 ∷ b) (append-nil _)

abbrev some_reads : List Read
some_reads = chunk (1 ∷ 2 ∷ []) ∷ failed ∷ []

some_reads-IsRead : All IsRead some_reads
some_reads-IsRead = (((omega arith, (omega arith, tt)), omega arith), (tt, tt))

handle_answers_example :
    let s = handle checksum_hmac noon key 120 some_reads in
    Dropped checksum_hmac noon key 120 s
    ⊎ (Refused checksum_hmac noon key 120 s
        ⊎ Admitted checksum_hmac noon key 120 (received some_reads) s)
handle_answers_example = handle_answers checksum_hmac noon key 120 some_reads some_reads-IsRead

handle_ends_example :
    let s = handle checksum_hmac noon key 120 some_reads in
    (s.result ≢ panic) × (s.result ≢ err header_too_long)
handle_ends_example = handle_ends checksum_hmac noon key 120 some_reads some_reads-IsRead
