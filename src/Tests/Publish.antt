-- ===== src/Tests/Publish.antt =====
-- Storage, the ranker, the verdict of the probe, its SOCKS5 tunnel, and the networks.
use transparent_gateway.Prelude.{
  ◌≡◌, ◌≢◌, refl, false, Option, none, some, List, [], ◌∷◌, ◌++◌, map, arith, Text, str, text_eq,
  text_beq, contains, if◌then◌else◌,
}
use transparent_gateway.Prelude.Int.{pos, ltb_ℤ}
use transparent_gateway.Python.{
  bits, Value, Fields, text, int, arr, obj, end, field, of_items, get, put, ok, err, os_error,
  incomplete_read, print_nat, v4, strip, parse_int, lookup, is_space, lstrip, rstrip, read_signed,
  to_str, startswith, is_digit, get_default,
}
use transparent_gateway.Wire.{Conn, find}
use transparent_gateway.Relay.Handshake.{holds}
use transparent_gateway.Ranking.{
  asn_key, rank_entries, base_score, key_gt, subnet_key, select_active_entries,
}
use transparent_gateway.Storage.{
  Redis, value_of, temporary_key, publish_snapshot, publish_active_snapshot, active_key,
  gateway_active_key,
}
use transparent_gateway.Storage.Atomic.{
  between, OldOrNew, publish_snapshot-OldOrNew, publish_snapshot_lem,
}
use transparent_gateway.Workers.Ranker.{Settings, entries_of, make_pools}
use transparent_gateway.Workers.Ranker.Published.{publish_active_snapshot_lem}
use transparent_gateway.Probe.Anonymity.{
  EchoObservation, CheckTarget, normal_identities, is_marked, is_none, verdict, leaks, leak_headers,
  header, level, proxy_marker_headers, classify_anonymity,
}
use transparent_gateway.Probe.Anonymity.Verdict.{NoLeak, classify_anonymity-eq-some}
use transparent_gateway.Probe.Tunnels.{socks5_tunnel, method_of}
use transparent_gateway.Probe.Tunnels.Guarded.{socks5_tunnel-refused}
use transparent_gateway.Asn.{network_of}
use transparent_gateway.Asn.Ranked.{asn_key-network_of}
use transparent_gateway.Tests.Sample.{sample}
use transparent_gateway.Tests.Rank.{both, fast_ranked}
use transparent_gateway.Relay.Pool.{dicts}

abbrev dumps : Value → Text
dumps v = str "{}"

-- The first command succeeds and the second one fails.
abbrev half_failing : Redis
half_failing = record { content = (str "k", str "old") ∷ []; fates = ok tt ∷ err os_error ∷ [] }

publish_snapshot-OldOrNew_example :
    (value_of (between dumps (str "u") (str "k") end half_failing).content (str "k")
      ≡ value_of half_failing.content (str "k"))
    × OldOrNew dumps
        (str "u")
        (str "k")
        end
        half_failing.content
        (value_of (publish_snapshot dumps (str "u") (str "k") end half_failing).1.content (str "k"))
publish_snapshot-OldOrNew_example =
    publish_snapshot-OldOrNew dumps (str "u") (str "k") end half_failing

publish_snapshot_lem_example :
    value_of
      (publish_snapshot dumps
        (str "u")
        (str "k")
        end
        (record { content = (str "k", str "old") ∷ []; fates = [] })).1.content
      (str "k")
    ≡ (if text_beq (str "k") (str "k")
        then some (dumps (obj end))
        else if text_beq (temporary_key (str "k") (str "u")) (str "k")
        then none
        else value_of ((str "k", str "old") ∷ []) (str "k"))
publish_snapshot_lem_example =
    publish_snapshot_lem dumps (str "u") (str "k") end ((str "k", str "old") ∷ []) (str "k")

publish_active_snapshot_lem_example :
    (final : Redis) × (publish_active_snapshot dumps
        (str "u")
        (str "v")
        end
        (record { content = []; fates = [] })
      ≡ (ok tt, final))
    × (value_of final.content active_key ≡ some (dumps (obj end)))
    × (value_of final.content gateway_active_key ≡ some (dumps (obj end)))
publish_active_snapshot_lem_example = publish_active_snapshot_lem dumps (str "u") (str "v") end []

abbrev settings : Settings
settings = record {
  reserve_size = pos 1;
  pool_size = pos 1;
  min_score = bits 0;
  unknown_asn_penalty = bits 2;
  max_unknown_asn_ratio = bits 1;
}

abbrev validated : Fields
validated = field (str "entries") (arr (of_items (map obj both))) end

abbrev no_settings : Text → Option Text
no_settings name = none

makes_pools :
    make_pools sample no_settings settings validated
    ≡ ok (record { ranked = fast_ranked ∷ []; active = fast_ranked ∷ [] })
unfolding make_pools entries_of get text_beq str rank_entries sample dicts base_score get_default
    key_gt subnet_key asn_key select_active_entries
makes_pools = refl

abbrev seen : EchoObservation
seen = record { peer = str "7"; headers = field (str "via") (text (str "proxy")) end }

classifies : classify_anonymity sample seen (str " 5" ∷ []) ≡ ok (some (str "anonymous"))
unfolding classify_anonymity normal_identities sample strip str parse_int is_none verdict text_beq
    print_nat leaks leak_headers holds find header lookup level is_marked proxy_marker_headers
    is_space lstrip rstrip read_signed to_str startswith is_digit
classifies = refl

classify_anonymity-eq-some_example :
    (identities : List Text) × (normal_identities sample (str " 5" ∷ []) ≡ ok identities)
    × (identities ≢ [])
    × (contains identities (str "7") ≡ false)
    × NoLeak sample identities seen
    × (str "anonymous" ≡ (if is_marked sample seen then str "anonymous" else str "elite"))
classify_anonymity-eq-some_example =
    classify_anonymity-eq-some sample seen (str " 5" ∷ []) (str "anonymous") classifies

abbrev echo : CheckTarget
echo = record { scheme = str "http"; host = str "e"; port = 80; path = str "/" }

abbrev deaf : Conn
deaf = record { incoming = 5 ∷ 255 ∷ []; at_end = incomplete_read; sent = [] }

socks5_tunnel-refused_example :
    ((a : Unit {0}) → (socks5_tunnel sample echo (some (str "u", str "p")) deaf).0 ≢ ok a)
    × ((socks5_tunnel sample echo (some (str "u", str "p")) deaf).1.sent ≡ [] ++ 5 ∷ 1 ∷ 2 ∷ [])
unfolding method_of
socks5_tunnel-refused_example =
    socks5_tunnel-refused sample echo (some (str "u", str "p")) deaf (λ e. ground (arith, e))

abbrev found : Fields
found = field (str "autonomous_system_number") (int (pos 13335)) end

asn_key-network_of_example :
    asn_key sample (put end (str "network") (obj (network_of sample (some found) (v4 5) 24)))
    ≡ (if ltb_ℤ (pos 13335) (pos 1) then none else some (str "AS" ++ print_nat 13335))
unfolding str get text_beq
asn_key-network_of_example = asn_key-network_of sample end found (pos 13335) (v4 5) 24 refl
